-- ===== src/Identity/Action.antt =====
-- Calls on the store as a state monad with errors: what was written stays written.
pub mod Keeps
use tamper.Prelude.{Bool, Option, none, some, if◌then◌else◌, Result, ok, err}
use tamper.Identity.Types.{Error, not_found}
use tamper.Identity.MemStore.{MemStore, Answer}

module _ {A : Type 0} where
  abbrev pub pure : A → Answer A
  pure a s = (ok a, s)

  abbrev pub raise : Error → Answer A
  raise e s = (err e, s)

  -- A read that may fail.
  abbrev pub asks : (MemStore → Result Error A) → Answer A
  asks f s = (f s, s)

  abbrev pub reads : (MemStore → A) → Answer A
  reads f s = (ok (f s), s)

  abbrev pub given : Result Error A → Answer A
  given r s = (r, s)

  abbrev pub some_or : Error → Option A → Answer A
  some_or e none = raise e
  some_or e (some a) = pure a

  -- `if errors.Is(err, ErrNotFound)`: another error in its place.
  abbrev pub missing_as : Error → Result Error A → Result Error A
  missing_as e (ok a) = ok a
  missing_as e (err not_found) = err e
  missing_as e (err other) = err other

  -- `if err != nil`: this error in the place of any.
  abbrev pub any_error : Error → Result Error A → Result Error A
  any_error e (ok a) = ok a
  any_error e (err other) = err e

abbrev pub refuse_if : Bool → Error → Answer (Unit {0})
refuse_if b e s = (if b then err e else ok tt, s)

abbrev pub writes : (MemStore → MemStore) → Answer (Unit {0})
writes f s = (ok tt, f s)

-- `if failed { write; return err }`.
abbrev pub refuse_after : Bool → (MemStore → MemStore) → Error → Answer (Unit {0})
refuse_after b f e s = if b then (err e, f s) else (ok tt, s)

infixl 5 ◌>>=◌ ◌>>◌
abbrev pub ◌>>=◌ : {A B : Type 0} → Answer A → (A → Answer B) → Answer B
◌>>=◌ m k s = let (r, s') = m s in elim r [ err e ↦ (err e, s') | ok a ↦ k a s' ]

abbrev pub ◌>>◌ : {A B : Type 0} → Answer A → Answer B → Answer B
m >> k = m >>= λ _. k
