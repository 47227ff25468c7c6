-- ===== src/Prelude/Tests.antt =====
-- Boolean tests, the conditional, and decidable equality as an instance.
use Prim.Native.Nat.{ℕ, compare, Ordering}
use mathlib.Core.Path.{◌≡◌, refl, ap, sym}
use mathlib.Core.Logic.{◌⊎◌, ◌↔◌, inl, inr}
use mathlib.Core.Bool.{Bool, true, false}
use mathlib.Core.Option.{Option, none, some}
use native.Mathlib.Decide.{ℕ_discrete}
use native.Mathlib.Omega.{arith}

abbrev pub ltb : ℕ → ℕ → Bool
ltb a b = elim (compare a b) [ Ordering.lt ↦ true | _ ↦ false ]

abbrev pub leb : ℕ → ℕ → Bool
leb a b = elim (compare a b) [ Ordering.gt ↦ false | _ ↦ true ]

infix 1 if◌then◌else◌
abbrev pub if◌then◌else◌ {ℓ} : {A : Type ℓ} → Bool → A → A → A
if true then x else y = x
if false then x else y = y

-- Go's `==` on a comparable type.
pub record Eq {ℓ} (A : Type ℓ) : Type ℓ where
  pub dec : Discrete A

abbrev pub decide {ℓ} : {P : Type ℓ} → Dec P → Bool
decide (yes p) = true
decide (no p) = false

infix 50 ◌==◌ ◌≟◌
abbrev pub ◌≟◌ {ℓ} : {A : Type ℓ} ⦃e : Eq A⦄ → Discrete A
◌≟◌ ⦃e⦄ = e.dec

abbrev pub ◌==◌ {ℓ} : {A : Type ℓ} ⦃e : Eq A⦄ → A → A → Bool
◌==◌ ⦃e⦄ a b = decide (e.dec a b)

instance abbrev pub ℕ_eq : Eq ℕ
ℕ_eq = record { dec = ℕ_discrete }

pub false-ne-true : false ≡ true → ⊥
false-ne-true h = cc

-- A decision from a test that is right.
abbrev pub dec_of_test {ℓ} : {P : Type ℓ} (b : Bool) → (b ≡ true) ↔ P → Dec P
dec_of_test true e = yes (e.0 refl)
dec_of_test false e = no (λ p. false-ne-true (e.1 p))

pub Bool-cases : (b : Bool) → (b ≡ true) ⊎ (b ≡ false)
Bool-cases true = inl refl
Bool-cases false = inr refl

pub Option-cases {ℓ} : {A : Type ℓ} (o : Option A) → (o ≡ none) ⊎ ((a : A) × (o ≡ some a))
Option-cases none = inl refl
Option-cases (some a) = inr (a, refl)

pub ==-eq {ℓ} : {A : Type ℓ} ⦃e : Eq A⦄ (a b : A) → (a == b) ≡ true → a ≡ b
==-eq ⦃e⦄ a b h = ground arith

pub ==_refl {ℓ} : {A : Type ℓ} ⦃e : Eq A⦄ (a : A) → (a == a) ≡ true
==_refl ⦃e⦄ a = ground arith

pub pair-inj {ℓ κ} :
    {A : Type ℓ} {B : Type κ} (a c : A) (b d : B)
    → ◌≡◌ {A = A × B} (a, b) (c, d)
    → (a ≡ c) × (b ≡ d)
pair-inj a c b d e = ground arith

-- Go compares structs field by field.
unfoldable pub dec_pair {ℓ κ} :
    {A : Type ℓ} {B : Type κ} → Discrete A → Discrete B → Discrete (A × B)
dec_pair da db (a, b) (c, d) = elim (da a c) [
  | yes p ↦ elim (db b d) [
    | yes q ↦ yes (λ i. (p i, q i))
    | no q ↦ no (λ e. q (pair-inj a c b d e).1)
  ]
  | no p ↦ no (λ e. p (pair-inj a c b d e).0)
]

-- Equality by the fields that an injective function lists.
unfoldable pub dec_via {ℓ κ} :
    {A : Type ℓ} {B : Type κ} (f : A → B)
    → ((a b : A) → f a ≡ f b → a ≡ b)
    → Discrete B
    → Discrete A
dec_via f inj d a b = elim (d (f a) (f b)) [ yes p ↦ yes (inj a b p) | no p ↦ no (λ e. p (ap f e)) ]

unfoldable pub Bool-dec : Discrete Bool
Bool-dec true true = yes refl
Bool-dec true false = no (λ e. false-ne-true (sym e))
Bool-dec false true = no false-ne-true
Bool-dec false false = yes refl

-- The `ok` of a map lookup.
abbrev pub is_some {ℓ} : {A : Type ℓ} → Option A → Bool
is_some none = false
is_some (some a) = true
