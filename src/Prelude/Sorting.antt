-- ===== src/Prelude/Sorting.antt =====
-- Go's `sort.Slice`, as insertion by a comparison; what the program relies on is that the result
-- has the same elements.
use mathlib.Core.Bool.{Bool, true, false}
use mathlib.Core.List.{List, [], ◌∷◌}
use mathlib.Core.Logic.{◌↔◌, ◌⊎◌}
use mathlib.Core.Path.{◌≡◌}
use native.Mathlib.Omega.{arith}
use Prim.Native.Nat.{Ordering}
use Prim.Native.String.{String, compare}
use tamper.Prelude.Tests.{if◌then◌else◌}
use tamper.Prelude.Lists.{In, Distinct, SameMembers}

-- `s < t` on texts.
abbrev pub string_lt : String → String → Bool
string_lt s t = elim (compare s t) [ Ordering.lt ↦ true | _ ↦ false ]

module _ {A : Type 0} (less : A → A → Bool) where
  unfoldable pub place : A → List A → List A
  place x [] = x ∷ []
  place x (y ∷ ys) = if less y x then y ∷ place x ys else x ∷ y ∷ ys

  unfoldable pub sort_by : List A → List A
  unfolding place
  sort_by [] = []
  sort_by (x ∷ xs) = place x (sort_by xs)

  In-place : (a x : A) (ys : List A) → In a (place x ys) ↔ ((a ≡ x) ⊎ In a ys)
  unfolding place
  In-place a x [] = ground arith
  In-place a x (y ∷ ys) = ground (arith, In-place a x ys)

  pub sort_by-SameMembers : (xs : List A) → SameMembers (sort_by xs) xs
  unfolding sort_by
  sort_by-SameMembers [] a = ground arith
  sort_by-SameMembers (x ∷ xs) a =
      let ih = sort_by-SameMembers xs a in
      let at = In-place a x (sort_by xs) in
      (λ m. ground (arith, at.0 m, ih), λ m. at.1 (ground (arith, ih)))

  place-Distinct : (x : A) (ys : List A) → ¬ In x ys → Distinct ys → Distinct (place x ys)
  unfolding place
  place-Distinct x [] n d = (n, d)
  place-Distinct x (y ∷ ys) n d = ground (arith, place-Distinct x ys, In-place y x ys)

  pub sort_by-Distinct : (xs : List A) → Distinct xs → Distinct (sort_by xs)
  unfolding sort_by
  sort_by-Distinct [] d = d
  sort_by-Distinct (x ∷ xs) d =
      place-Distinct x (sort_by xs) (λ m. d.0 ((sort_by-SameMembers xs x).0 m))
        (sort_by-Distinct xs d.1)
