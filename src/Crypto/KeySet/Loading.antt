-- ===== src/Crypto/KeySet/Loading.antt =====
-- What a set of keys that was constructed holds (crypto/keyset.go: `NewKeySet`).
use tamper.Prelude.{
  ℕ, ℕ_eq, ◌==◌, ◌≡◌, ◌≢◌, refl, sym, subst, ◌⊎◌, inl, inr, none, some, List, [], ◌∷◌, In, is_empty,
  if◌then◌else◌, ltb, Option-cases, Bool-cases, ◌≟◌, ok, >>=-eq-ok, arith,
}
use tamper.Prelude.Dict.{Dict, lookup, insert, lookup-insert}
use tamper.Crypto.KeySet.{Aead, AesGcm, KekEntry, KeySet, decode_hex, load_keys, new_key_set}

-- The key of an entry, as the set holds it.
pub record IsKeyOf (aes_gcm : AesGcm) (e : KekEntry) (aead : Aead) : Type 0 where
  pub raw : List ℕ
  pub decoded : decode_hex e.key ≡ some raw
  pub built : aes_gcm raw ≡ some aead

module _ (aes_gcm : AesGcm) where
  -- One round that went on.
  pub record IsRound (keys : Dict ℕ Aead) (max_id : ℕ) (e : KekEntry) (entries : List KekEntry)
      (out : Dict ℕ Aead × ℕ) : Type 0 where
    pub aead : Aead
    pub key_of : IsKeyOf aes_gcm e aead
    pub not_zero : e.id ≢ 0
    pub new : lookup e.id keys ≡ none
    pub rest :
        load_keys aes_gcm (insert e.id aead keys) (if ltb max_id e.id then e.id else max_id) entries
        ≡ ok out

  load_keys-IsRound :
      (keys : Dict ℕ Aead) (max_id : ℕ) (e : KekEntry) (entries : List KekEntry)
      {out : Dict ℕ Aead × ℕ}
      → load_keys aes_gcm keys max_id (e ∷ entries) ≡ ok out
      → IsRound keys max_id e entries out
  unfolding load_keys
  load_keys-IsRound keys max_id e entries {out} h = elim (Option-cases (decode_hex e.key)) [
    | inl d ↦ absurd (ground arith)
    | inr (raw, d) ↦ elim (Option-cases (aes_gcm raw)) [
      | inl b ↦ absurd (ground arith)
      | inr (aead, b) ↦ record {
        aead = aead;
        key_of = record { raw = raw; decoded = d; built = b };
        not_zero = ground arith;
        new = ground arith;
        rest = ground arith;
      }
    ]
  ]

  load_keys_keeps :
      (keys : Dict ℕ Aead) (max_id : ℕ) (entries : List KekEntry) {out : Dict ℕ Aead × ℕ} (k : ℕ)
      (a : Aead)
      → load_keys aes_gcm keys max_id entries ≡ ok out
      → lookup k keys ≡ some a
      → lookup k out.0 ≡ some a
  unfolding load_keys
  load_keys_keeps keys max_id [] k a h l = ground arith
  load_keys_keeps keys max_id (e ∷ entries) {out} k a h l =
      let r = load_keys-IsRound keys max_id e entries {out = out} h in
      load_keys_keeps (insert e.id r.aead keys) _ entries {out = out} k a r.rest
        (ground (arith, r.new, lookup-insert e.id k r.aead keys))

  -- Every entry is in the set under its id, with its own key.
  load_keys-In :
      (keys : Dict ℕ Aead) (max_id : ℕ) (entries : List KekEntry) {out : Dict ℕ Aead × ℕ}
      (e : KekEntry)
      → load_keys aes_gcm keys max_id entries ≡ ok out
      → In e entries
      → (aead : Aead) × IsKeyOf aes_gcm e aead × (lookup e.id out.0 ≡ some aead)
  load_keys-In keys max_id [] e h i = absurd i
  load_keys-In keys max_id (d ∷ entries) {out} e h i =
      let r = load_keys-IsRound keys max_id d entries {out = out} h in
      elim i [
        | inl p ↦
            let kept =
              load_keys_keeps (insert d.id r.aead keys) _ entries {out = out} d.id r.aead r.rest
                (ground (arith, lookup-insert d.id d.id r.aead keys)) in
            subst (λ x. (aead : Aead) × IsKeyOf aes_gcm x aead × (lookup x.id out.0 ≡ some aead))
              (sym p) (r.aead, r.key_of, kept)
        | inr j ↦ load_keys-In (insert d.id r.aead keys) _ entries {out = out} e r.rest j
      ]

  -- Nothing else is in the set.
  of_load_keys :
      (keys : Dict ℕ Aead) (max_id : ℕ) (entries : List KekEntry) {out : Dict ℕ Aead × ℕ} (k : ℕ)
      (a : Aead)
      → load_keys aes_gcm keys max_id entries ≡ ok out
      → lookup k out.0 ≡ some a
      → (lookup k keys ≡ some a) ⊎ ((e : KekEntry) × In e entries × (e.id ≡ k))
  unfolding load_keys
  of_load_keys keys max_id [] k a h l = inl (ground arith)
  of_load_keys keys max_id (e ∷ entries) {out} k a h l =
      let r = load_keys-IsRound keys max_id e entries {out = out} h in
      elim (of_load_keys (insert e.id r.aead keys) _ entries {out = out} k a r.rest l) [
        | inl m ↦ elim (e.id ≟ k) [
          | yes p ↦ inr (e, inl refl, p)
          | no n ↦ inl (ground (arith, lookup-insert e.id k r.aead keys))
        ]
        | inr (d, i, p) ↦ inr (d, inr i, p)
      ]

  -- A set that was constructed was loaded from its entries, and has the key it writes with.
  pub new_key_set-loaded :
      (entries : List KekEntry) (write_key_id : ℕ) {s : KeySet}
      → new_key_set aes_gcm entries write_key_id ≡ ok (some s)
      → (m : ℕ) × (load_keys aes_gcm [] 0 entries ≡ ok (s.keys, m))
        × ((aead : Aead) × (lookup s.write_key_id s.keys ≡ some aead))
  unfolding new_key_set
  new_key_set-loaded entries write_key_id {s} h = elim (Bool-cases (is_empty entries)) [
    | inl y ↦ absurd (ground arith)
    | inr n ↦
        let (loaded, l, rest) = >>=-eq-ok (load_keys aes_gcm [] 0 entries) _ (rw n at h) in
        let id = if write_key_id == 0 then loaded.1 else write_key_id in
        elim (Option-cases (lookup id loaded.0)) [
          | inl missing ↦ absurd (ground arith)
          | inr (aead, there) ↦ (loaded.1, ground arith, (aead, ground arith))
        ]
  ]

  pub new_key_set-In :
      (entries : List KekEntry) (write_key_id : ℕ) {s : KeySet} (e : KekEntry)
      → new_key_set aes_gcm entries write_key_id ≡ ok (some s)
      → In e entries
      → (aead : Aead) × IsKeyOf aes_gcm e aead × (lookup e.id s.keys ≡ some aead)
  new_key_set-In entries write_key_id {s} e h i =
      let (m, l, w) = new_key_set-loaded entries write_key_id {s = s} h in
      load_keys-In [] 0 entries {out = (s.keys, m)} e l i

  pub of_new_key_set :
      (entries : List KekEntry) (write_key_id : ℕ) {s : KeySet} (k : ℕ) (a : Aead)
      → new_key_set aes_gcm entries write_key_id ≡ ok (some s)
      → lookup k s.keys ≡ some a
      → (e : KekEntry) × In e entries × (e.id ≡ k)
  unfolding lookup
  of_new_key_set entries write_key_id {s} k a h l =
      let (m, loaded, w) = new_key_set-loaded entries write_key_id {s = s} h in
      elim (of_load_keys [] 0 entries {out = (s.keys, m)} k a loaded l) [
        | inl none_yet ↦ absurd (ground arith)
        | inr e ↦ e
      ]
