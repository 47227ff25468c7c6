-- ===== src/Authz/Tests/Keys.antt =====
-- A history of grants of permission keys.
use native.Mathlib.Decide.{ℕ_discrete}
use tamper.Prelude.{
  String, true, false, ◌≢◌, ◌⊎◌, ◌↔◌, In, arith, ◌==◌, String_eq, String-dec, ◌≡◌, refl, List, [],
  ◌∷◌, ok, contains,
}
use tamper.Prelude.Dict.{lookup, insert}
use tamper.Tenant.Ident.{TenantId-dec, valid}
use tamper.Authz.Types.{Subject-dec, Resource-dec, singleton, gate, scope_gate}
use tamper.Authz.Rbac.{allow, deny}
use tamper.Prelude.Sorting.{sort_by}
use tamper.Authz.Rbac.Listing.{IsOfType}
use tamper.Authz.MemPermissions.Listing.{list_resources-check_keys}
use tamper.Authz.PermissionSet.{check, allows, list_resources, filter_resources}
use tamper.Authz.MemPermissions.{
  PermGrantKey-dec, PermSuperKey-dec, new_mem_permission_store, add_keys, grant, grant_superuser,
  permissions_for, resources_with_permission, resources_with,
}
use tamper.Authz.MemPermissions.Keys.{Change, granted, made_superuser, apply, run}
use tamper.Authz.MemPermissions.Decides.{engine, check_history}
use tamper.Authz.Tests.{acme, alice, plan}

program : Unit {0}
unfolding list_resources filter_resources resources_with_permission resources_with sort_by
    ℕ_discrete String-dec contains lookup insert TenantId-dec Subject-dec Resource-dec valid gate
    scope_gate check allows PermGrantKey-dec PermSuperKey-dec add_keys grant grant_superuser
    permissions_for apply run
program = tt

abbrev history : List Change
history =
    granted acme alice plan ("read" ∷ "*" ∷ [])
    ∷ granted acme alice (singleton "plan") ("drop" ∷ [])
    ∷ []

decisions :
    (check (engine (run history new_mem_permission_store)) acme alice "read" plan ≡ ok allow)
    × (check (engine (run history new_mem_permission_store)) acme alice "*" plan ≡ ok deny)
    × (check (engine (run history new_mem_permission_store)) acme alice "drop" plan ≡ ok deny)
    × (check
          (engine (run (made_superuser acme alice ∷ history) new_mem_permission_store))
          acme
          alice
          "drop"
          plan
        ≡ ok allow)
unfolding program
decisions = (refl, refl, refl, refl)

check_history_example :
    check (engine (run history new_mem_permission_store)) acme alice "read" plan ≡ ok allow
unfolding program
check_history_example = check_history history acme alice "read" plan refl refl

apart : (a b : String) → (a == b) ≡ false → a ≢ b
apart a b n e = ground arith

read_given : ◌≢◌ {A = String} "read" ""
unfolding program
read_given = apart "read" "" refl

list_resources-check_keys_example :
    (IsOfType "plan" plan
      × (check (engine (run history new_mem_permission_store)) acme alice "read" plan ≡ ok allow))
    ↔ ((IsOfType "plan" plan × (false ≡ true)) ⊎ In plan (plan ∷ []))
unfolding program
list_resources-check_keys_example =
    list_resources-check_keys history acme alice "read" "plan" plan {rs = plan ∷ []}
      {unbounded = false} read_given refl
