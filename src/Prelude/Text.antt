-- ===== src/Prelude/Text.antt =====
-- Texts: decidable equality, and the tests of Go's `strings` package that the program calls.
use Prim.Native.Nat.{ℕ}
use Prim.Native.Char.{Char, code}
use Prim.Native.String.{String, ◌++◌, len}
use Prim.Native.String.len
use Prim.Native.String.append
use mathlib.Core.Path.{◌≡◌, refl, ap, sym, ◌∙◌}
use mathlib.Core.Logic.{◌⊎◌, ◌↔◌, inl, inr}
use mathlib.Core.Bool.{Bool, true, false, ◌||◌, ◌&&◌}
use native.Mathlib.Omega.{arith}
use text.Mathlib.Text.{◌==◌ as str_eq}
use text.Mathlib.TextEquality.{eq_iff}
use text.Mathlib.TextPositions.{len_utf8-pos}
use tamper.Prelude.Tests.{Eq, ℕ_eq, ◌==◌, dec_of_test}

unfoldable pub String-dec : Discrete String
String-dec s t = dec_of_test (str_eq s t) (eq_iff s t)

instance abbrev pub String_eq : Eq String
String_eq = record { dec = String-dec }

-- `strings.HasSuffix`.
unfoldable pub has_suffix : String → String → Bool
has_suffix String.[] t = t == ""
has_suffix (String.◌∷◌ c s) t = String.◌∷◌ c s == t || has_suffix s t

-- Some character of the text passes the test.
unfoldable pub any_char : (ℕ → Bool) → String → Bool
any_char p String.[] = false
any_char p (String.◌∷◌ c s) = p (code c) || any_char p s

has_suffix_self : (t : String) → has_suffix t t ≡ true
unfolding has_suffix
has_suffix_self String.[] = ground arith
has_suffix_self (String.◌∷◌ c t) = ground arith

has_suffix_tail :
    (c : Char) (s t : String) → has_suffix s t ≡ true → has_suffix (String.◌∷◌ c s) t ≡ true
unfolding has_suffix
has_suffix_tail c s t h = ground arith

pub has_suffix-append : (p t : String) → has_suffix (p ++ t) t ≡ true
has_suffix-append String.[] t = rw (append.nil t) (has_suffix_self t)
has_suffix-append (String.◌∷◌ c p) t =
    rw (append.cons c p t) (has_suffix_tail c (p ++ t) t (has_suffix-append p t))

has_suffix_cons_cases :
    (c : Char) (s t : String)
    → has_suffix (String.◌∷◌ c s) t ≡ true
    → (String.◌∷◌ c s ≡ t) ⊎ (has_suffix s t ≡ true)
unfolding has_suffix
has_suffix_cons_cases c s t h = ground arith

has_suffix_nil : (t : String) → has_suffix "" t ≡ true → t ≡ ""
unfolding has_suffix
has_suffix_nil t h = ground arith

-- What a suffix test that passes says: the text is something, and then the suffix.
pub append-of_has_suffix : (s t : String) → has_suffix s t ≡ true → (p : String) × (s ≡ p ++ t)
append-of_has_suffix String.[] t h = ("", rw (has_suffix_nil t h) (sym (append.nil "")))
append-of_has_suffix (String.◌∷◌ c s) t h = elim (has_suffix_cons_cases c s t h) [
  | inl e ↦ ("", e ∙ sym (append.nil t))
  | inr h' ↦
      let (p, e) = append-of_has_suffix s t h' in
      (String.◌∷◌ c p, ap (String.◌∷◌ c) e ∙ sym (append.cons c p t))
]

-- `strings.HasPrefix`.
unfoldable pub has_prefix : String → String → Bool
has_prefix s String.[] = true
has_prefix String.[] (String.◌∷◌ d t) = false
has_prefix (String.◌∷◌ c s) (String.◌∷◌ d t) = code c == code d && has_prefix s t

-- A text of no bytes is empty.
pub eq_nil_of_len : (s : String) → len s ≡ 0 → s ≡ ""
eq_nil_of_len String.[] h = refl
eq_nil_of_len (String.◌∷◌ c s) h =
    let (k, pos) = len_utf8-pos c in absurd (omega (arith, len.cons c s, pos))

-- Every character passes the test.
abbrev pub EveryChar : (ℕ → Type 0) → String → Type 0
EveryChar P String.[] = Unit
EveryChar P (String.◌∷◌ c s) = P (code c) × EveryChar P s

pub any_char-EveryChar :
    (p : ℕ → Bool) (s : String) → (any_char p s ≡ false) ↔ EveryChar (λ c. p c ≡ false) s
unfolding any_char
any_char-EveryChar p String.[] = ground arith
any_char-EveryChar p (String.◌∷◌ c s) = ground (arith, any_char-EveryChar p s)
