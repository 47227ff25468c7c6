-- ===== src/Prelude/Int.antt =====
-- Go's signed `int`, as far as the program uses it: constants and comparisons.
use Prim.Native.Nat.{ℕ, zero, suc}
use mathlib.Core.Bool.{Bool, true, false}
use tamper.Prelude.Tests.{ltb}

-- `negsuc n` is -(n + 1).
pub data ℤ : Type 0 where
  pos : ℕ → ℤ
  negsuc : ℕ → ℤ

-- `a < b`.
abbrev pub int_lt : ℤ → ℤ → Bool
int_lt (pos a) (pos b) = ltb a b
int_lt (pos a) (negsuc b) = false
int_lt (negsuc a) (pos b) = true
int_lt (negsuc a) (negsuc b) = ltb b a

-- `a == 0`.
abbrev pub int_is_zero : ℤ → Bool
int_is_zero (pos zero) = true
int_is_zero (pos (suc n)) = false
int_is_zero (negsuc n) = false

-- `a <= 0`.
abbrev pub int_le_zero : ℤ → Bool
int_le_zero (pos zero) = true
int_le_zero (pos (suc n)) = false
int_le_zero (negsuc n) = true

-- The integer is not negative.
abbrev pub NonNegative : ℤ → Type 0
NonNegative (pos n) = Unit
NonNegative (negsuc n) = ⊥
