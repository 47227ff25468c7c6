-- ===== src/Authz/Policy.antt =====
-- authz/policy.go: the ladders of roles, the policy, and the check of both at construction.
use tamper.Prelude.{
  ℕ, ◌+◌, ◌<◌, String, String_eq, ℕ_eq, false, not, ◌==◌, ◌≡◌, ◌≢◌, Option, none, some, List, [],
  ◌∷◌, All, contains, is_empty, is_some, if◌then◌else◌, Result, ok, ◌>>◌, fail_if, arith,
}
use tamper.Prelude.Dict.{Dict, lookup}
use tamper.Authz.Types.{Error, invalid_policy, Role, Action}

abbrev pub Hierarchy : Type 0
Hierarchy = Dict String (List Role)

pub record Requirement : Type 0 where
  pub kind : String
  pub min : Role

abbrev pub Policy : Type 0
Policy = Dict Action (List Requirement)

-- `h[resourceType]`, the empty ladder for an unknown type.
abbrev pub ladder_of : Option (List Role) → List Role
ladder_of none = []
ladder_of (some l) = l

-- The loop of `rank`, with the index of its `range`.
unfoldable pub rank_from : ℕ → List Role → Role → ℕ
rank_from i [] r = 0
rank_from i (candidate ∷ ladder) r = if candidate == r then i + 1 else rank_from (i + 1) ladder r

unfoldable pub rank : Hierarchy → String → Role → ℕ
unfolding rank_from
rank h resource_type r = rank_from 0 (ladder_of (lookup resource_type h)) r

-- The roles of one ladder, with those that were seen.
validate_roles : List Role → List Role → Result Error (Unit {0})
validate_roles seen [] = ok tt
validate_roles seen (r ∷ ladder) = do
  fail_if (r == "") invalid_policy
  fail_if (contains r seen) invalid_policy
  validate_roles (r ∷ seen) ladder

validate_ladders : Hierarchy → Result Error (Unit {0})
unfolding validate_roles
validate_ladders [] = ok tt
validate_ladders ((resource_type, ladder) ∷ h) = do
  fail_if (resource_type == "") invalid_policy
  fail_if (is_empty ladder) invalid_policy
  validate_roles [] ladder
  validate_ladders h

validate_requirements : Hierarchy → List Requirement → Result Error (Unit {0})
validate_requirements h [] = ok tt
validate_requirements h (req ∷ reqs) = do
  fail_if (not (is_some (lookup req.kind h))) invalid_policy
  fail_if (rank h req.kind req.min == 0) invalid_policy
  validate_requirements h reqs

validate_policy : Hierarchy → Policy → Result Error (Unit {0})
unfolding validate_requirements
validate_policy h [] = ok tt
validate_policy h ((action, reqs) ∷ p) = do
  fail_if (action == "") invalid_policy
  fail_if (is_empty reqs) invalid_policy
  validate_requirements h reqs
  validate_policy h p

unfoldable pub validate : Hierarchy → Policy → Result Error (Unit {0})
unfolding validate_ladders validate_policy
validate h p = do validate_ladders h; validate_policy h p

-- A policy that passed the check: every requirement of every action has a rank above 0, and no
-- action is the empty one or has no requirement.
pub record IsValidEntry (h : Hierarchy) (entry : Action × List Requirement) : Type 0 where
  pub named : entry.0 ≢ ""
  pub some_requirement : is_empty entry.1 ≡ false
  pub ranked : All (λ req. 0 < rank h req.kind req.min) entry.1

validate_requirements-ranked :
    (h : Hierarchy) (reqs : List Requirement)
    → validate_requirements h reqs ≡ ok tt
    → All (λ req. 0 < rank h req.kind req.min) reqs
unfolding validate_requirements
validate_requirements-ranked h [] e = tt
validate_requirements-ranked h (req ∷ reqs) e =
    (ground arith, validate_requirements-ranked h reqs (ground arith))

validate_policy-All :
    (h : Hierarchy) (p : Policy) → validate_policy h p ≡ ok tt → All (IsValidEntry h) p
unfolding validate_policy
validate_policy-All h [] e = tt
validate_policy-All h ((action, reqs) ∷ p) e = (
  record {
    named = ground arith;
    some_requirement = ground arith;
    ranked = validate_requirements-ranked h reqs (ground arith);
  },
  validate_policy-All h p (ground arith),
)

pub validate-All : (h : Hierarchy) (p : Policy) → validate h p ≡ ok tt → All (IsValidEntry h) p
unfolding validate
validate-All h p e = validate_policy-All h p (ground arith)
