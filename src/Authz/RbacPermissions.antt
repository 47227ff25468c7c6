-- ===== src/Authz/RbacPermissions.antt =====
-- authz/rbacpermissionstore.go: a role engine seen as a store of permission keys.
pub mod Parity
use tamper.Prelude.{
  ℕ, String, Bool, true, false, List, [], ◌∷◌, ◌++◌, Option, none, some, if◌then◌else◌, leb, Result,
  ok, err, ◌>>=◌, ◌>>◌,
}
use tamper.Prelude.Dict.{Dict, lookup, insert}
use tamper.Tenant.Ident.{TenantId}
use tamper.Authz.Types.{Error, Subject, Resource, Resource_eq, Action, BindingStore, gate}
use tamper.Authz.Policy.{Hierarchy, Policy, Requirement, rank}
use tamper.Authz.Rbac.{Rbac, new_rbac, effective, target_of, list_resources, list_subjects}
use tamper.Authz.PermissionSet.{PermissionSetResult, PermissionStore}

-- The ranks that one call has computed.
abbrev pub Memo : Type 0
Memo = Dict Resource ℕ

-- `effRank`: the rank of a target, from the memo where it is there.
unfoldable pub eff_rank : Rbac → TenantId → Subject → Memo → Resource → Result Error (ℕ × Memo)
unfolding effective
eff_rank e tenant_id sub ranks target = elim (lookup target ranks) [
  | some r ↦ ok (r, ranks)
  | none ↦ effective e tenant_id sub target >>= λ best. ok (best.1, insert target best.1 ranks)
]

-- The inner loop of `PermissionsFor`, over the requirements of one action: whether one is met.
unfoldable pub some_met :
    Rbac → TenantId → Subject → Resource → Memo → List Requirement → Result Error (Bool × Memo)
unfolding eff_rank target_of
some_met e tenant_id sub res ranks [] = ok (false, ranks)
some_met e tenant_id sub res ranks (req ∷ reqs) =
    eff_rank e tenant_id sub ranks (target_of req res) >>= λ r.
    let rest = some_met e tenant_id sub res r.1 reqs in
    if leb (rank e.h req.kind req.min) r.0 then ok (true, r.1) else rest

-- The outer loop, over the actions of the policy.
unfoldable pub held_keys :
    Rbac → TenantId → Subject → Resource → Memo → List String → Policy → Result Error (List String)
unfolding some_met
held_keys e tenant_id sub res ranks keys [] = ok keys
held_keys e tenant_id sub res ranks keys ((act, reqs) ∷ p) =
    some_met e tenant_id sub res ranks reqs >>= λ m.
    held_keys e tenant_id sub res m.1 (if m.0 then keys ++ act ∷ [] else keys) p

unfoldable pub permissions_for :
    Rbac → TenantId → Subject → Resource → Result Error PermissionSetResult
unfolding held_keys
permissions_for e tenant_id sub res = do
  gate tenant_id sub
  keys ← held_keys e tenant_id sub res [] [] e.p
  ok (record { keys = keys; superuser = false })

unfoldable pub subjects_with_permission :
    Rbac → TenantId → String → Resource → Result Error (List Subject)
subjects_with_permission e tenant_id key res = do
  found ← list_subjects e tenant_id key res
  ok found.0

abbrev pub rbac_as_permissions : Rbac → PermissionStore
rbac_as_permissions e = record {
  permissions_for = permissions_for e;
  resources_with_permission = list_resources e;
  subjects_with_permission = subjects_with_permission e;
}

unfoldable pub new_rbac_permission_store :
    BindingStore → Hierarchy → Policy → Result Error PermissionStore
new_rbac_permission_store store h p = do e ← new_rbac store h p; ok (rbac_as_permissions e)
