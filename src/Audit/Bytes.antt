-- ===== src/Audit/Bytes.antt =====
-- The byte strings of audit/: Go's strings and byte slices, numbers in big-endian bytes, and the
-- length prefixes of audit/audit.go.
pub mod Framing
use Prim.Native.Nat.{ℕ, zero, suc, ◌+◌, ◌/◌, ◌%◌, compare, Ordering}
use Prim.Native.Char.{code}
use Prim.Native.String.{String}
use tamper.Prelude.{
  ◌≡◌, ◌↔◌, ◌⊎◌, inl, inr, refl, ap, Bool, true, false, not, List, [], ◌∷◌, ◌++◌, length, ℕ_eq, Eq,
  ◌==◌, if◌then◌else◌, dec_of_test, dec_of_test, arith,
}

abbrev pub Bytes : Type 0
Bytes = List ℕ

-- `[]byte(s)` for the ASCII literals of the program.
abbrev pub bytes_of : String → Bytes
bytes_of String.[] = []
bytes_of (String.◌∷◌ c s) = code c ∷ bytes_of s

-- The loop of `bytesEqual`, over slices of one length.
unfoldable pub same_bytes : Bytes → Bytes → Bool
same_bytes (a ∷ xs) (b ∷ ys) = if not (a == b) then false else same_bytes xs ys
same_bytes _ _ = true

unfoldable pub bytes_equal : Bytes → Bytes → Bool
unfolding same_bytes
bytes_equal a b = if not (length a == length b) then false else same_bytes a b

pub bytes_equal_iff : (a b : Bytes) → (bytes_equal a b ≡ true) ↔ (a ≡ b)
unfolding bytes_equal
bytes_equal_iff [] [] = ground arith
bytes_equal_iff [] (b ∷ ys) = ground arith
bytes_equal_iff (a ∷ xs) [] = ground arith
bytes_equal_iff (a ∷ xs) (b ∷ ys) = ground (arith, bytes_equal_iff xs ys)

unfoldable pub Bytes-dec : Discrete Bytes
unfolding bytes_equal
Bytes-dec a b = dec_of_test (bytes_equal a b) (bytes_equal_iff a b)

instance abbrev pub Bytes_eq : Eq Bytes
Bytes_eq = record { dec = Bytes-dec }

-- How SQLite orders texts.
unfoldable pub bytes_lt : Bytes → Bytes → Bool
bytes_lt [] [] = false
bytes_lt [] (b ∷ ys) = true
bytes_lt (a ∷ xs) [] = false
bytes_lt (a ∷ xs) (b ∷ ys) = elim (compare a b) [
  | Ordering.lt ↦ true
  | Ordering.eq ↦ bytes_lt xs ys
  | Ordering.gt ↦ false
]

abbrev pub u32 : ℕ
u32 = 4294967296

abbrev pub u64 : ℕ
u64 = 18446744073709551616

-- The last k base-256 digits of a number: `binary.BigEndian`.
unfoldable pub big_endian : ℕ → ℕ → Bytes
big_endian zero n = []
big_endian (suc k) n = big_endian k (n / 256) ++ (n % 256) ∷ []

unfoldable pub append_lp : Bytes → Bytes → Bytes
unfolding big_endian
append_lp dst value = (dst ++ big_endian 4 (length value % u32)) ++ value

unfoldable pub append_string_field : Bytes → String → Bytes → Bytes
unfolding append_lp
append_string_field dst name value = append_lp (append_lp dst (bytes_of name)) value

unfoldable pub append_bytes_field : Bytes → String → Bytes → Bytes
unfolding append_lp
append_bytes_field dst name value = append_lp (append_lp dst (bytes_of name)) value

-- The value is an `int64` by its bit pattern.
unfoldable pub append_int64_field : Bytes → String → ℕ → Bytes
unfolding append_lp
append_int64_field dst name value =
    append_lp (append_lp dst (bytes_of name)) (big_endian 8 (value % u64))
