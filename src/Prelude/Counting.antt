-- ===== src/Prelude/Counting.antt =====
-- Lists without repetition are no longer than the lists that hold their elements.
use Prim.Native.Nat.{◌<◌, ◌≤◌}
use mathlib.Core.Path.{◌≡◌, refl, subst}
use mathlib.Core.List.{List, [], ◌∷◌}
use mathlib.Core.Bool.{true, not}
use mathlib.Core.Logic.{inl, inr}
use native.Mathlib.Omega.{arith}
use tamper.Prelude.Tests.{Eq, ◌==◌, ◌≟◌}
use tamper.Prelude.Lists.{length, keep, In, In-keep, Distinct}

module _ {A : Type 0} ⦃e : Eq A⦄ where
  abbrev others : A → List A → List A
  others x ys = keep (λ y. not (y == x)) ys

  others_le : (x : A) (ys : List A) → length (others x ys) ≤ length ys
  unfolding keep
  others_le x [] = omega arith
  others_le x (y ∷ ys) = ground (arith, others_le x ys)

  others_lt : (x : A) (ys : List A) → In x ys → length (others x ys) < length ys
  unfolding keep
  others_lt x (y ∷ ys) i = ground (arith, others_le x ys, others_lt x ys)
  others_lt x [] i = absurd i

  pub length-Distinct :
      (xs ys : List A) → Distinct xs → ((a : A) → In a xs → In a ys) → length xs ≤ length ys
  length-Distinct [] ys d s = omega arith
  length-Distinct (x ∷ xs) ys d s =
      let rest =
        length-Distinct xs (others x ys) d.1
          (λ a i. In-keep (λ y. not (y == x)) a ys (s a (inr i)) (other a i)) in
      omega (arith, rest, others_lt x ys (s x (inl refl)))
    where
      other : (a : A) → In a xs → not (a == x) ≡ true
      other a i = elim (a ≟ x) [
        | yes p ↦ absurd (d.0 (subst (λ z. In z xs) p i))
        | no n ↦ ground arith
      ]
