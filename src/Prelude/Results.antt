-- ===== src/Prelude/Results.antt =====
-- Go's `(T, error)` as a sum, with `do` blocks for chains of early returns.
use mathlib.Core.Path.{◌≡◌, refl}
use mathlib.Core.Logic.{◌⊎◌, inl, inr}
use mathlib.Core.List.{List, [], ◌∷◌}
use mathlib.Core.Bool.{Bool, true, false}

pub data Result {ℓ κ} (E : Type ℓ) (A : Type κ) : Type (ℓ ⊔ κ) where
  ok : A → Result E A
  err : E → Result E A

infixl 5 ◌>>=◌ ◌>>◌
abbrev pub ◌>>=◌ {ℓ κ μ} :
    {E : Type ℓ} {A : Type κ} {B : Type μ} → Result E A → (A → Result E B) → Result E B
err e >>= next = err e
ok a >>= next = next a

abbrev pub ◌>>◌ {ℓ κ} : {E : Type ℓ} {B : Type κ} → Result E (Unit {0}) → Result E B → Result E B
m >> k = m >>= λ _. k

-- `if failed { return e }`.
abbrev pub fail_if {ℓ} : {E : Type ℓ} → Bool → E → Result E (Unit {0})
fail_if true e = err e
fail_if false e = ok tt

pub Result-cases {ℓ κ} :
    {E : Type ℓ} {A : Type κ} (r : Result E A) → ((a : A) × (r ≡ ok a)) ⊎ ((e : E) × (r ≡ err e))
Result-cases (ok a) = inl (a, refl)
Result-cases (err e) = inr (e, refl)

module _ {ℓ κ μ} {E : Type ℓ} {A : Type κ} {B : Type μ} where
  -- What a chain that gave a value says of its first step and of the rest.
  pub >>=-eq-ok :
      (step : Result E A) (k : A → Result E B) {y : B}
      → (step >>= k) ≡ ok y
      → ((x : A) × (step ≡ ok x) × (k x ≡ ok y))
  >>=-eq-ok (err e) k eq = cc
  >>=-eq-ok (ok x) k eq = (x, refl, eq)

  -- `for _, a := range xs` that collects one result for each element and stops at an error.
  unfoldable pub map_results : (A → Result E B) → List A → Result E (List B)
  map_results f [] = ok []
  map_results f (x ∷ xs) = do y ← f x; ys ← map_results f xs; ok (y ∷ ys)
