-- ===== src/Audit/Bytes/Framing.antt =====
-- Length prefixes: a sequence of framed byte strings is read back in one way.
use Prim.Native.Nat.{ℕ, zero, suc, ◌<◌, ◌/◌, ◌%◌}
use mathlib.Core.List.{append_assoc}
use tamper.Prelude.{◌≡◌, refl, List, [], ◌∷◌, ◌++◌, All, length, length-append, arith}
use tamper.Audit.Bytes.{Bytes, big_endian, append_lp, u32}

pub append-inj :
    {A : Type 0} (xs ys r s : List A)
    → length xs ≡ length ys
    → xs ++ r ≡ ys ++ s
    → (xs ≡ ys) × (r ≡ s)
append-inj [] [] r s l e = (refl, e)
append-inj [] (y ∷ ys) r s l e = absurd (omega arith)
append-inj (x ∷ xs) [] r s l e = absurd (omega arith)
append-inj (x ∷ xs) (y ∷ ys) r s l e = ground (arith, append-inj xs ys r s)

pub length-big_endian : (k n : ℕ) → length (big_endian k n) ≡ k
unfolding big_endian
length-big_endian zero n = refl
length-big_endian (suc k) n =
    omega (
      arith,
      length-append (big_endian k (n / 256)) ((n % 256) ∷ []),
      length-big_endian k (n / 256),
    )

-- The number has no more than k digits.
abbrev pub Fits : ℕ → ℕ → Type 0
Fits zero n = n ≡ 0
Fits (suc k) n = Fits k (n / 256)

big_endian-inj : (k n m : ℕ) → Fits k n → Fits k m → big_endian k n ≡ big_endian k m → n ≡ m
unfolding big_endian
big_endian-inj zero n m p q e = omega arith
big_endian-inj (suc k) n m p q e =
    let (heads, lasts) =
      append-inj (big_endian k (n / 256)) (big_endian k (m / 256)) ((n % 256) ∷ []) ((m % 256) ∷ [])
        (omega (arith, length-big_endian k (n / 256), length-big_endian k (m / 256))) e in
    let ih = big_endian-inj k (n / 256) (m / 256) p q heads in
    let last : n % 256 ≡ m % 256 = cc in omega arith

pub big_endian_4-inj : (n m : ℕ) → n < u32 → m < u32 → big_endian 4 n ≡ big_endian 4 m → n ≡ m
big_endian_4-inj n m p q e = big_endian-inj 4 n m (omega arith) (omega arith) e

pub big_endian_8-inj :
    (n m : ℕ)
    → n < 18446744073709551616
    → m < 18446744073709551616
    → big_endian 8 n ≡ big_endian 8 m
    → n ≡ m
big_endian_8-inj n m p q e = big_endian-inj 8 n m (omega arith) (omega arith) e

-- The length of a field fits its prefix.
abbrev pub Short : Bytes → Type 0
Short v = length v < u32

-- The framed form of a sequence of byte strings.
pub frame : List Bytes → Bytes
frame [] = []
frame (v ∷ vs) = big_endian 4 (length v % u32) ++ (v ++ frame vs)

pub frame-nil : frame [] ≡ []
unfolding frame
frame-nil = refl

pub append_lp-frame :
    (dst v : Bytes) (vs : List Bytes) → append_lp dst v ++ frame vs ≡ dst ++ frame (v ∷ vs)
unfolding append_lp frame
append_lp-frame dst v vs = simp append_assoc

pub frame-inj :
    (vs ws : List Bytes)
    → All Short vs
    → All Short ws
    → length vs ≡ length ws
    → frame vs ≡ frame ws
    → vs ≡ ws
unfolding frame
frame-inj [] [] p q l e = refl
frame-inj [] (w ∷ ws) p q l e = absurd (omega arith)
frame-inj (v ∷ vs) [] p q l e = absurd (omega arith)
frame-inj (v ∷ vs) (w ∷ ws) p q l e =
    let (prefix, rest) =
      append-inj (big_endian 4 (length v % u32)) (big_endian 4 (length w % u32)) (v ++ frame vs)
        (w ++ frame ws)
        (omega (arith, length-big_endian 4 (length v % u32), length-big_endian 4 (length w % u32)))
        e in
    let n = big_endian_4-inj (length v % u32) (length w % u32) (omega arith) (omega arith) prefix in
    let (first, others) = append-inj v w (frame vs) (frame ws) (omega arith) rest in
    let ih = frame-inj vs ws p.1 q.1 (omega arith) others in ground arith
