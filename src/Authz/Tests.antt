-- ===== src/Authz/Tests.antt =====
-- A policy of two actions over two ladders, and the engines on it.
mod Keys
use native.Mathlib.Decide.{ℕ_discrete}
use tamper.Prelude.{
  In, ◌⊎◌, String, String-dec, String_eq, contains, keep, ◌==◌, true, false, ◌≡◌, ◌≢◌, refl, ◌↔◌,
  List, [], ◌∷◌, ok, arith,
}
use tamper.Prelude.Dict.{lookup, insert, UniqueKeys}
use tamper.Tenant.Ident.{TenantId, TenantId-dec, valid}
use tamper.Authz.Types.{
  CheckRequest, Subject, Subject-dec, Resource, Resource-dec, singleton, Binding, Binding-dec,
  Binding_eq, gate, scope_gate,
}
use tamper.Authz.Policy.{Hierarchy, Policy, rank, rank_from, validate}
use tamper.Authz.MemStore.{
  MemStore, no_bindings, grant, revoke, bindings_for, bindings_for_subject, bindings_on_resource,
  mem_as_store,
}
use tamper.Authz.MemStore.Grants.{Change, granted, revoked, apply, run, run-last_word}
use tamper.Prelude.Sorting.{sort_by}
use tamper.Authz.Rbac.Bulk.{AreAligned, check_bulk-AreAligned}
use tamper.Authz.Rbac.Review.{list_subjects-check}
use tamper.Authz.Rbac.Listing.{IsOfType, list_resources-check}
use tamper.Authz.Rbac.{
  check_bulk, list_subjects, subjects_of_requirements, collect_subjects, list_resources,
  scan_requirements, collect_resources, subject_lt, Rbac, new_rbac, matches, best_of, effective,
  target_of, check_requirements, check, allow, deny,
}
use tamper.Authz.Rbac.Decides.{Permitted, check_decides}
use tamper.Authz.PermissionSet
use tamper.Authz.RbacPermissions.{permissions_for, held_keys, some_met, eff_rank}
use tamper.Authz.RbacPermissions.Parity.{set_engine_parity}

pub program : Unit {0}
unfolding ℕ_discrete String-dec contains keep lookup insert TenantId-dec Subject-dec Resource-dec
    Binding-dec valid gate scope_gate rank rank_from validate grant revoke bindings_for
    bindings_for_subject bindings_on_resource apply run new_rbac matches best_of effective target_of
    check_requirements check PermissionSet.check PermissionSet.allows permissions_for held_keys
    some_met eff_rank list_subjects subjects_of_requirements collect_subjects list_resources
    scan_requirements collect_resources sort_by subject_lt
program = tt

abbrev pub acme : TenantId
acme = record { v = "acme"; set = true }

abbrev pub alice : Subject
alice = record { tenant = acme; kind = "user"; id = "alice" }

abbrev pub plan : Resource
plan = record { kind = "plan"; id = "7" }

abbrev ladders : Hierarchy
ladders = ("org", "member" ∷ "admin" ∷ []) ∷ ("plan", "viewer" ∷ "editor" ∷ "owner" ∷ []) ∷ []

-- To edit a plan takes its editor or an administrator of the organisation.
abbrev policy : Policy
policy =
    (
      "plan.edit",
      (record { kind = "plan"; min = "editor" }) ∷ (record { kind = "org"; min = "admin" }) ∷ [],
    )
    ∷ ("plan.drop", (record { kind = "plan"; min = "owner" }) ∷ [])
    ∷ []

abbrev admin : Binding
admin = record { tenant = acme; subject = alice; resource = singleton "org"; role = "admin" }

abbrev viewer : Binding
viewer = record { tenant = acme; subject = alice; resource = plan; role = "viewer" }

abbrev changes : List Change
changes = granted admin ∷ granted viewer ∷ revoked admin ∷ granted admin ∷ revoked viewer ∷ []

abbrev bindings : MemStore
bindings = run changes no_bindings

abbrev engine : Rbac
engine = record { store = mem_as_store bindings; h = ladders; p = policy }

decides :
    (check engine acme alice "plan.edit" plan ≡ ok allow)
    × (check engine acme alice "plan.drop" plan ≡ ok deny)
    × (check engine acme alice "plan.fork" plan ≡ ok deny)
unfolding program
decides = (refl, refl, refl)

check_decides_example : (true ≡ true) ↔ Permitted engine acme alice "plan.edit" plan
unfolding program
check_decides_example =
    check_decides (mem_as_store bindings) ladders policy acme alice "plan.edit" plan {e = engine}
      {d = allow} refl refl

apart : (a b : String) → (a == b) ≡ false → a ≢ b
apart a b n e = ground arith

policy-UniqueKeys : UniqueKeys policy
unfolding program
policy-UniqueKeys = ((apart "plan.edit" "plan.drop" refl, tt), (tt, tt))

set_engine_parity_example : check engine acme alice "plan.edit" plan ≡ ok allow
unfolding program
set_engine_parity_example =
    set_engine_parity (mem_as_store bindings) ladders policy acme alice "plan.edit" plan
      {e = engine} {d = allow} refl policy-UniqueKeys refl

run-last_word_example : contains viewer bindings.bindings ≡ false
unfolding program
run-last_word_example = run-last_word changes viewer no_bindings (refl, refl)

list_subjects-check_example :
    (false ≡ false)
    × (In alice (alice ∷ []) ↔ (check engine acme alice "plan.edit" plan ≡ ok allow))
unfolding program
list_subjects-check_example =
    list_subjects-check bindings ladders policy acme alice "plan.edit" plan {e = engine}
      {subs = alice ∷ []} {unbounded = false} refl refl

-- An owner of one plan, who may drop it.
abbrev owner : Binding
owner = record viewer { role = "owner" }

abbrev owned : MemStore
owned = run (granted owner ∷ []) no_bindings

abbrev owners : Rbac
owners = record engine { store = mem_as_store owned }

list_resources-check_example :
    (IsOfType "plan" plan × (check owners acme alice "plan.drop" plan ≡ ok allow))
    ↔ ((IsOfType "plan" plan × (false ≡ true)) ⊎ In plan (plan ∷ []))
unfolding program
list_resources-check_example =
    list_resources-check owned ladders policy acme alice "plan.drop" "plan" plan {e = owners}
      {rs = plan ∷ []} {unbounded = false} refl refl

abbrev requests : List CheckRequest
requests =
    record { subject = alice; action = "plan.edit"; resource = plan }
    ∷ record { subject = alice; action = "plan.drop"; resource = plan }
    ∷ []

check_bulk-AreAligned_example :
    (check_bulk engine acme requests ≡ ok (allow ∷ deny ∷ []))
    ↔ ((valid acme ≡ true) × AreAligned engine acme requests (allow ∷ deny ∷ []))
check_bulk-AreAligned_example = check_bulk-AreAligned engine acme requests (allow ∷ deny ∷ [])
