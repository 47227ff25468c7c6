-- ===== src/Crypto/KeySet/Rotation.antt =====
-- Secrets across a rotation of keys (crypto/keyset.go: `Seal` and `Open`).
use tamper.Prelude.{
  ℕ, ℕ_eq, ◌≡◌, ◌≢◌, refl, sym, subst, inl, inr, Option, some, List, ◌∷◌, ◌++◌, In, length,
  length-append, take, drop, take-append, drop-append, Option-cases, ok, err, arith,
}
use tamper.Prelude.Dict.{lookup}
use tamper.Crypto.KeySet.{
  unknown_key_id, Aead, AesGcm, KekEntry, KeySet, new_key_set, seal, open_envelope,
}
use tamper.Crypto.KeySet.Loading.{new_key_set-loaded, new_key_set-In, of_new_key_set}

-- The source of random bytes gives as many as it is asked for.
abbrev pub IsSized : (ℕ → Option (List ℕ)) → Type 0
IsSized random = (n : ℕ) (bytes : List ℕ) → random n ≡ some bytes → length bytes ≡ n

-- A key opens what it sealed, under the nonce that it sealed it with.
abbrev pub Opens : AesGcm → Type 0
Opens aes_gcm =
    (raw : List ℕ) (aead : Aead) (nonce plaintext : List ℕ)
    → aes_gcm raw ≡ some aead
    → length nonce ≡ aead.nonce_size
    → aead.open_sealed nonce (aead.seal nonce plaintext) ≡ some plaintext

-- What was sealed: the id of the key, a nonce of its size, and the rest.
record IsSealed (s : KeySet) (plaintext envelope : List ℕ) (aead : Aead) : Type 0 where
  nonce : List ℕ
  sized : length nonce ≡ aead.nonce_size
  envelope_is : envelope ≡ s.write_key_id ∷ nonce ++ aead.seal nonce plaintext

seal-IsSealed :
    (random : ℕ → Option (List ℕ)) (s : KeySet) (plaintext : List ℕ) {envelope : List ℕ}
    (aead : Aead)
    → IsSized random
    → lookup s.write_key_id s.keys ≡ some aead
    → seal random s plaintext ≡ ok envelope
    → IsSealed s plaintext envelope aead
unfolding seal
seal-IsSealed random s plaintext {envelope} aead sized there h =
    elim (Option-cases (random aead.nonce_size)) [
      | inl failed ↦ absurd (ground arith)
      | inr (nonce, r) ↦ record {
        nonce = nonce;
        sized = sized aead.nonce_size nonce r;
        envelope_is = ground arith;
      }
    ]

open_lem :
    (s : KeySet) (id : ℕ) (nonce ct plaintext : List ℕ) (aead : Aead)
    → lookup id s.keys ≡ some aead
    → length nonce ≡ aead.nonce_size
    → aead.open_sealed nonce ct ≡ some plaintext
    → open_envelope s (id ∷ nonce ++ ct) ≡ ok plaintext
unfolding open_envelope
open_lem s id nonce ct plaintext aead there sized opened =
    let first : take aead.nonce_size (nonce ++ ct) ≡ nonce =
      subst (λ n. take n (nonce ++ ct) ≡ nonce) sized (take-append nonce ct) in
    let behind : drop aead.nonce_size (nonce ++ ct) ≡ ct =
      subst (λ n. drop n (nonce ++ ct) ≡ ct) sized (drop-append nonce ct) in
    let opened' : aead.open_sealed (take aead.nonce_size (nonce ++ ct))
          (drop aead.nonce_size (nonce ++ ct))
        ≡ some plaintext =
      rw (first, behind) opened in
    ground (arith, length-append nonce ct)

-- After a rotation, a secret that was sealed by the old set is opened by the new one, and is the
-- secret, as long as the new entries hold the entry that the old set wrote with, at any place and
-- whatever the new set writes with.
pub open_rotated :
    (aes_gcm : AesGcm) (random : ℕ → Option (List ℕ)) (old new : List KekEntry) (write write' : ℕ)
    (e : KekEntry) (plaintext : List ℕ) {s s' : KeySet} {envelope : List ℕ}
    → Opens aes_gcm
    → IsSized random
    → new_key_set aes_gcm old write ≡ ok (some s)
    → new_key_set aes_gcm new write' ≡ ok (some s')
    → In e old
    → In e new
    → e.id ≡ s.write_key_id
    → seal random s plaintext ≡ ok envelope
    → open_envelope s' envelope ≡ ok plaintext
open_rotated aes_gcm random old new write write' e plaintext {s} {s'} {envelope} opens sized made
      made' i i' wrote h =
    let (a, k, there) = new_key_set-In aes_gcm old write {s = s} e made i in
    let (a', k', there') = new_key_set-In aes_gcm new write' {s = s'} e made' i' in
    let same_raw : k.raw ≡ k'.raw = ground (arith, k.decoded, k'.decoded) in
    let same : a ≡ a' = ground (arith, same_raw, k.built, k'.built) in
    let w =
      seal-IsSealed random s plaintext {envelope = envelope} a sized
        (subst (λ x. lookup x s.keys ≡ some a) wrote there) h in
    subst (λ x. open_envelope s' x ≡ ok plaintext) (sym w.envelope_is)
      (open_lem s' s.write_key_id w.nonce (a.seal w.nonce plaintext) plaintext a
        (subst (λ x. lookup x s'.keys ≡ some a) wrote
          (subst (λ x. lookup e.id s'.keys ≡ some x) (sym same) there'))
        w.sized (opens k.raw a w.nonce plaintext k.built w.sized))

-- Once no entry has the id that the old set wrote with, a secret that it sealed is refused for
-- that reason, and no other.
pub open_dropped :
    (aes_gcm : AesGcm) (random : ℕ → Option (List ℕ)) (old new : List KekEntry) (write write' : ℕ)
    (plaintext : List ℕ) {s s' : KeySet} {envelope : List ℕ}
    → IsSized random
    → new_key_set aes_gcm old write ≡ ok (some s)
    → new_key_set aes_gcm new write' ≡ ok (some s')
    → ((e : KekEntry) → In e new → e.id ≢ s.write_key_id)
    → seal random s plaintext ≡ ok envelope
    → open_envelope s' envelope ≡ err unknown_key_id
unfolding open_envelope
open_dropped aes_gcm random old new write write' plaintext {s} {s'} {envelope} sized made made' gone
      h =
    let (m, loaded, (a, there)) = new_key_set-loaded aes_gcm old write {s = s} made in
    let w = seal-IsSealed random s plaintext {envelope = envelope} a sized there h in
    elim (Option-cases (lookup s.write_key_id s'.keys)) [
      | inl missing ↦
          subst (λ x. open_envelope s' x ≡ err unknown_key_id) (sym w.envelope_is)
            (rw (open_envelope, missing) refl)
      | inr (b, at) ↦
          let (e, i, p) = of_new_key_set aes_gcm new write' {s = s'} s.write_key_id b made' at in
          absurd (gone e i p)
    ]
