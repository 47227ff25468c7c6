-- ===== src/Crypto/Tests.antt =====
-- A rotation from one key to two (crypto/keyset.go). The cipher of the tests writes the first byte of
-- the key before the text and checks it.
use native.Mathlib.Decide.{ℕ_discrete}
use tamper.Prelude.{
  ℕ, zero, suc, ℕ_eq, ◌==◌, ◌≡◌, ◌≢◌, refl, subst, ap, inl, Option, none, some, List, [], ◌∷◌, In,
  length, take, drop, if◌then◌else◌, ok, err, arith,
}
use tamper.Prelude.Dict.{lookup, insert}
use tamper.Crypto.KeySet.{
  unknown_key_id, Aead, AesGcm, KekEntry, KeySet, decode_hex, load_keys, new_key_set, seal,
  open_envelope,
}
use tamper.Crypto.KeySet.Rotation.{IsSized, Opens, open_rotated, open_dropped}

program : Unit {0}
unfolding ℕ_discrete lookup insert decode_hex load_keys new_key_set seal open_envelope take drop
program = tt

abbrev first_byte : List ℕ → ℕ
first_byte [] = 0
first_byte (b ∷ bs) = b

abbrev uncover : ℕ → List ℕ → Option (List ℕ)
uncover k [] = none
uncover k (b ∷ bs) = if b == k then some bs else none

abbrev toy : List ℕ → Aead
toy raw = record {
  nonce_size = 2;
  seal = λ nonce text. first_byte raw ∷ text;
  open_sealed = λ nonce text. uncover (first_byte raw) text;
}

abbrev toys : AesGcm
toys raw = some (toy raw)

toys-Opens : Opens toys
toys-Opens raw aead nonce text built sized =
    let same : toy raw ≡ aead = ground arith in
    subst (λ (x : Aead). x.open_sealed nonce (x.seal nonce text) ≡ some text) same
      (opened (first_byte raw))
  where
    opened : (k : ℕ) → uncover k (k ∷ text) ≡ some text
    opened k = ground arith

abbrev sevens : ℕ → List ℕ
sevens zero = []
sevens (suc n) = 7 ∷ sevens n

abbrev random : ℕ → Option (List ℕ)
random n = some (sevens n)

length-sevens : (n : ℕ) → length (sevens n) ≡ n
length-sevens zero = refl
length-sevens (suc n) = ap suc (length-sevens n)

random-IsSized : IsSized random
random-IsSized n bytes h =
    let same : sevens n ≡ bytes = ground arith in subst (λ b. length b ≡ n) same (length-sevens n)

abbrev old_entry : KekEntry
old_entry = record {
  id = 1;
  key = "0000000000000000000000000000000000000000000000000000000000000000";
}

abbrev new_entry : KekEntry
new_entry = record {
  id = 2;
  key = "abababababababababababababababababababababababababababababababab";
}

abbrev repeated : ℕ → ℕ → List ℕ
repeated b zero = []
repeated b (suc n) = b ∷ repeated b n

-- The 32 bytes of a key that repeats one byte.
abbrev key_of : ℕ → List ℕ
key_of b = repeated b 32

abbrev before : KeySet
before = record { keys = (1, toy (key_of 0)) ∷ []; write_key_id = 1 }

abbrev after : KeySet
after = record { keys = (1, toy (key_of 0)) ∷ (2, toy (key_of 171)) ∷ []; write_key_id = 2 }

abbrev retired : KeySet
retired = record { keys = (2, toy (key_of 171)) ∷ []; write_key_id = 2 }

abbrev secret : List ℕ
secret = 1 ∷ 7 ∷ 7 ∷ 0 ∷ 104 ∷ 105 ∷ []

open_rotated_example : open_envelope after secret ≡ ok (104 ∷ 105 ∷ [])
unfolding program
open_rotated_example =
    open_rotated toys random (old_entry ∷ []) (old_entry ∷ new_entry ∷ []) 0 0 old_entry
      (104 ∷ 105 ∷ []) {s = before} {s' = after} {envelope = secret} toys-Opens random-IsSized refl
      refl (inl refl) (inl refl) refl refl

none_of_before : (e : KekEntry) → In e (new_entry ∷ []) → e.id ≢ before.write_key_id
none_of_before e i p = absurd (ground arith)

open_dropped_example : open_envelope retired secret ≡ err unknown_key_id
unfolding program
open_dropped_example =
    open_dropped toys random (old_entry ∷ []) (new_entry ∷ []) 0 0 (104 ∷ 105 ∷ []) {s = before}
      {s' = retired} {envelope = secret} random-IsSized refl refl none_of_before refl
