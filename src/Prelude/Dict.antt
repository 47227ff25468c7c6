-- ===== src/Prelude/Dict.antt =====
-- Go's `map` as a list of entries: a key is written in place, and a new key goes to the end.
-- A Go map has no order of its own; the order of the entries stands for the one that an
-- iteration meets.
use mathlib.Core.Path.{◌≡◌, refl}
use mathlib.Core.Logic.{◌≢◌, inl, inr}
use mathlib.Core.Option.{Option, none, some}
use mathlib.Core.List.{List, [], ◌∷◌}
use native.Mathlib.Omega.{arith}
use tamper.Prelude.Tests.{Eq, ◌==◌, if◌then◌else◌}
use tamper.Prelude.Lists.{In}

abbrev pub Dict {ℓ κ} : Type ℓ → Type κ → Type (ℓ ⊔ κ)
Dict K V = List (K × V)

module _ {ℓ κ} {K : Type ℓ} {V : Type κ} ⦃e : Eq K⦄ where
  -- `v, ok := m[k]`.
  unfoldable pub lookup : K → Dict K V → Option V
  lookup k [] = none
  lookup k ((j, v) ∷ m) = if k == j then some v else lookup k m

  -- `m[k] = v`.
  unfoldable pub insert : K → V → Dict K V → Dict K V
  insert k v [] = (k, v) ∷ []
  insert k v ((j, w) ∷ m) = if k == j then (j, v) ∷ m else (j, w) ∷ insert k v m

  -- `delete(m, k)`.
  unfoldable pub delete : K → Dict K V → Dict K V
  delete k [] = []
  delete k ((j, w) ∷ m) = let rest = delete k m in if k == j then rest else (j, w) ∷ rest

  pub lookup-insert :
      (k j : K) (v : V) (m : Dict K V)
      → lookup j (insert k v m) ≡ (if j == k then some v else lookup j m)
  unfolding lookup insert
  lookup-insert k j v [] = refl
  lookup-insert k j v ((i, w) ∷ m) = ground (arith, lookup-insert k j v m)

  pub lookup-delete :
      (k j : K) (m : Dict K V) → lookup j (delete k m) ≡ (if j == k then none else lookup j m)
  unfolding lookup delete
  lookup-delete k j [] = ground arith
  lookup-delete k j ((i, w) ∷ m) = ground (arith, lookup-delete k j m)

  -- No key occurs in the list of entries.
  abbrev pub Fresh : K → Dict K V → Type ℓ
  Fresh k [] = Unit
  Fresh k ((j, w) ∷ m) = (k ≢ j) × Fresh k m

  -- Every key occurs once, as in a map.
  abbrev pub UniqueKeys : Dict K V → Type ℓ
  UniqueKeys [] = Unit
  UniqueKeys ((j, w) ∷ m) = Fresh j m × UniqueKeys m

  Fresh-insert : (j k : K) (v : V) (m : Dict K V) → j ≢ k → Fresh j m → Fresh j (insert k v m)
  unfolding insert
  Fresh-insert j k v [] n f = (n, tt)
  Fresh-insert j k v ((i, w) ∷ m) n f = ground (arith, Fresh-insert j k v m n f.1)

  pub UniqueKeys-insert : (k : K) (v : V) (m : Dict K V) → UniqueKeys m → UniqueKeys (insert k v m)
  unfolding insert
  UniqueKeys-insert k v [] u = (tt, tt)
  UniqueKeys-insert k v ((i, w) ∷ m) u =
      ground (arith, UniqueKeys-insert k v m u.1, Fresh-insert i k v m)

  Fresh-delete : (j k : K) (m : Dict K V) → Fresh j m → Fresh j (delete k m)
  unfolding delete
  Fresh-delete j k [] f = tt
  Fresh-delete j k ((i, w) ∷ m) f = ground (arith, Fresh-delete j k m f.1)

  pub UniqueKeys-delete : (k : K) (m : Dict K V) → UniqueKeys m → UniqueKeys (delete k m)
  unfolding delete
  UniqueKeys-delete k [] u = tt
  UniqueKeys-delete k ((i, w) ∷ m) u = ground (arith, UniqueKeys-delete k m u.1, Fresh-delete i k m)

  pub lookup-Fresh : (k : K) (m : Dict K V) → Fresh k m → lookup k m ≡ none
  unfolding lookup
  lookup-Fresh k [] f = refl
  lookup-Fresh k ((i, w) ∷ m) f = ground (arith, lookup-Fresh k m f.1)

module _ {K V : Type 0} ⦃e : Eq K⦄ where
  pub In-of_lookup : (k : K) (v : V) (m : Dict K V) → lookup k m ≡ some v → In (k, v) m
  unfolding lookup
  In-of_lookup k v [] h = cc
  In-of_lookup k v ((i, w) ∷ m) h = ground (arith, In-of_lookup k v m)

  pub lookup_of_In :
      (k : K) (v : V) (m : Dict K V) → UniqueKeys m → In (k, v) m → lookup k m ≡ some v
  unfolding lookup
  lookup_of_In k v [] u h = absurd h
  lookup_of_In k v ((i, w) ∷ m) u (inl p) = ground arith
  lookup_of_In k v ((i, w) ∷ m) u (inr p) =
      ground (arith, lookup_of_In k v m u.1 p, lookup-Fresh i m u.0)
