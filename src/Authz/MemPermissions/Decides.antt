-- ===== src/Authz/MemPermissions/Decides.antt =====
-- What the set engine decides over the in-memory store of permission keys
-- (authz/permissionset.go, authz/mempermissionstore.go).
use tamper.Prelude.{
  String_eq, Bool, true, not, ◌&&◌, ◌||◌, ◌==◌, ◌≡◌, ◌∙◌, ap, List, contains, ok, arith,
}
use tamper.Prelude.Dict.{lookup}
use tamper.Tenant.Ident.{TenantId, valid}
use tamper.Authz.Types.{Subject, Resource, Action, gate, scope_gate}
use tamper.Authz.PermissionSet.{PermissionSet, check, allows}
use tamper.Authz.MemPermissions.{
  PermGrantKey_eq, PermSuperKey_eq, MemPermissionStore, new_mem_permission_store, is_superuser,
  permissions_for, mem_as_permissions,
}
use tamper.Authz.MemPermissions.Keys.{
  Change, run, gives, crowns, any_change, holds, run-holds, run-is_superuser,
}

abbrev pub engine : MemPermissionStore → PermissionSet
engine m = record { store = mem_as_permissions m }

pub check_store :
    (m : MemPermissionStore) (t : TenantId) (sub : Subject) (act : Action) (res : Resource)
    → valid t ≡ true
    → valid sub.tenant ≡ true
    → check (engine m) t sub act res
      ≡ ok (record { allowed = not (act == "") && (is_superuser m t sub || holds t sub m res act) })
unfolding check permissions_for allows gate scope_gate contains
check_store m t sub act res scope home = ground arith

-- After any history of grants on an empty store, the set engine decides every question that names
-- a scope and a subject with a home tenant: it allows an action that is not empty exactly if the
-- history made this subject a superuser of this scope, or granted the subject this very key, which
-- is not the superuser's, on this very resource in this scope.
pub check_history :
    (cs : List Change) (t : TenantId) (sub : Subject) (act : Action) (res : Resource)
    → valid t ≡ true
    → valid sub.tenant ≡ true
    → check (engine (run cs new_mem_permission_store)) t sub act res
      ≡ ok (record {
        allowed =
            not (act == "")
            && (any_change (crowns t sub) cs || any_change (gives t sub res act) cs);
      })
unfolding contains lookup
check_history cs t sub act res scope home =
    let m = run cs new_mem_permission_store in
    let crowned : is_superuser m t sub ≡ any_change (crowns t sub) cs =
      run-is_superuser t sub scope home cs new_mem_permission_store in
    let given : holds t sub m res act ≡ any_change (gives t sub res act) cs =
      run-holds t sub scope home cs new_mem_permission_store res act in
    check_store m t sub act res scope home
    ∙ ap (λ b. ok (record { allowed = not (act == "") && b })) (both crowned given)
  where
    both : {a b c d : Bool} → a ≡ b → c ≡ d → (a || c) ≡ (b || d)
    both e f = cc
