-- ===== src/Tenant/Hierarchy.antt =====
-- tenant/hierarchy.go: `Ancestors`, the walk up the parents of a tenant.
pub mod Chains
pub mod Walk
pub mod Verdict
use tamper.Prelude.{
  ℕ, zero, suc, String, String_eq, Bool, true, not, ◌||◌, ◌==◌, Option, none, some, List, [], ◌∷◌,
  ◌++◌, if◌then◌else◌, leb, length, contains, Result, ok, err, ◌>>=◌,
}
use mathlib.Core.Option
use tamper.Tenant.Ident.{TenantId, TenantId_eq, valid, is_single, to_string, from_stored}
use tamper.Tenant.Errors.{Error, hierarchy_cycle, hierarchy_depth, hierarchy_dangling}
use tamper.Tenant.Store.{Store, Descriptor}

abbrev pub max_hierarchy_depth : ℕ
max_hierarchy_depth = 32

-- Any failure to read an ancestor, joined with what the store said.
abbrev pub dangling {ℓ} : {A : Type ℓ} → Result Error A → Result Error A
dangling (ok a) = ok a
dangling (err e) = err (hierarchy_dangling e)

-- One round of the loop of `Ancestors`, and the rounds after it, on fuel; `none` means that the
-- fuel ran out. `seen` and `chain` are the variables of the source.
unfoldable pub climb :
    ℕ → Store → List TenantId → List TenantId → Descriptor → Option (Result Error (List TenantId))
climb zero s seen chain desc = none
climb (suc fuel) s seen chain desc =
    let parent = desc.parent_id in
    let pid = from_stored parent in
    if parent == ""
    then some (ok chain)
    else if contains pid seen
    then some (err hierarchy_cycle)
    else if leb max_hierarchy_depth (length chain)
    then some (err hierarchy_depth)
    else elim (dangling (s.by_id (to_string pid))) [
      | ok desc' ↦ climb fuel s (pid ∷ seen) (chain ++ pid ∷ []) desc'
      | err e ↦ some (err e)
    ]

-- One round more than the longest chain: the fuel never runs out (Walk).
unfoldable pub ancestors : Store → TenantId → Result Error (List TenantId)
unfolding climb
ancestors s id = if not (valid id) || is_single id then ok [] else do
  desc ← s.by_id (to_string id)
  Option.get_or (climb 33 s (id ∷ []) [] desc) (err hierarchy_depth)
