-- ===== src/Scim/Nesting.antt =====
-- scim/nesting.go: `DetectCycle`, the check before a group becomes a member of a group. A message
-- is left out; `ErrCyclicGroup` is what every `NestingError` wraps.
pub mod Ancestry
pub mod Search
pub mod Verdict
use tamper.Prelude.{
  ℕ, zero, suc, String, String_eq, ◌||◌, ◌==◌, Option, none, some, List, [], ◌∷◌, ◌++◌, contains,
  if◌then◌else◌, Result, ok, err,
}

pub data Error : Type 0 where
  -- an argument that was left out
  group_required : Error
  cyclic_group : Error
  -- the store failed, with its own error
  list_parents : ℕ → Error

-- `ListParentGroupsOf`: the groups that contain the group as a member.
abbrev pub GroupMemberQueries : Type 0
GroupMemberQueries = String → Result ℕ (List String)

-- The inner loop, over the parents of one group: the new `visited` and `queue`.
unfoldable pub visit :
    String → List String → List String → List String → Result Error (List String × List String)
visit candidate visited queue [] = ok (visited, queue)
visit candidate visited queue (p ∷ parents) =
    let seen = visit candidate visited queue parents in
    let fresh = visit candidate (p ∷ visited) (queue ++ p ∷ []) parents in
    if p == candidate then err cyclic_group else if contains p visited then seen else fresh

-- The outer loop, on fuel: `none` means that the fuel ran out.
unfoldable pub search :
    ℕ → GroupMemberQueries → String → List String → List String → Option (Result Error (Unit {0}))
unfolding visit
search fuel q candidate visited [] = some (ok tt)
search zero q candidate visited (next ∷ queue) = none
search (suc fuel) q candidate visited (next ∷ queue) = elim (q next) [
  | err e ↦ some (err (list_parents e))
  | ok parents ↦ elim (visit candidate visited queue parents) [
    | err e ↦ some (err e)
    | ok state ↦ search fuel q candidate state.0 state.1
  ]
]

-- Fuel for as many groups as the table has is enough (Verdict).
unfoldable pub detect_cycle :
    ℕ → GroupMemberQueries → String → String → Option (Result Error (Unit {0}))
unfolding search
detect_cycle fuel q parent candidate =
    if parent == "" || candidate == ""
    then some (err group_required)
    else if parent == candidate
    then some (err cyclic_group)
    else search fuel q candidate (parent ∷ []) (parent ∷ [])
