-- ===== src/Crypto/KeySet.antt =====
-- crypto/keyset.go: `KeySet`, secrets sealed under versioned keys. AES-GCM and the source of random
-- bytes are parameters; a byte is a number.
pub mod Loading
pub mod Rotation
use Prim.Native.Char.{code}
use Prim.Native.String.{len}
use tamper.Prelude.{
  ℕ, suc, ◌+◌, ◌-◌, ◌*◌, String, ℕ_eq, Bool, true, false, not, ◌&&◌, ◌==◌, Option, none, some, List,
  [], ◌∷◌, ◌++◌, length, take, drop, is_empty, is_some, if◌then◌else◌, leb, ltb, Result, ok, err,
  ◌>>=◌, ◌>>◌, fail_if,
}
use tamper.Prelude.Dict.{Dict, lookup, insert}

pub data Error : Type 0 where
  key_id_zero duplicate_key_id key_length hex_decode aes_cipher write_key_missing : Error
  unknown_key_id secret_box_open nonce_failed : Error

-- `cipher.AEAD`, with the nil associated data of every call.
pub record Aead : Type 0 where
  pub nonce_size : ℕ
  pub seal : List ℕ → List ℕ → List ℕ
  pub open_sealed : List ℕ → List ℕ → Option (List ℕ)

-- A key of AES-GCM, `none` where the construction fails.
abbrev pub AesGcm : Type 0
AesGcm = List ℕ → Option Aead

pub record KekEntry : Type 0 where
  pub id : ℕ
  pub key : String

pub record KeySet : Type 0 where
  pub keys : Dict ℕ Aead
  pub write_key_id : ℕ

abbrev pub kek_hex_len : ℕ
kek_hex_len = 64

-- The value of a hexadecimal digit.
abbrev pub hex_digit : ℕ → Option ℕ
hex_digit c =
    if leb b'0' c && leb c b'9'
    then some (c - b'0')
    else if leb b'a' c && leb c b'f'
    then some (c - b'a' + 10)
    else if leb b'A' c && leb c b'F'
    then some (c - b'A' + 10)
    else none

-- One byte before those that follow it.
abbrev pub join_byte : Option ℕ → Option ℕ → Option (List ℕ) → Option (List ℕ)
join_byte (some h) (some l) (some bytes) = some ((16 * h + l) ∷ bytes)
join_byte _ _ _ = none

-- `hex.DecodeString`.
unfoldable pub decode_hex : String → Option (List ℕ)
decode_hex String.[] = some []
decode_hex (String.◌∷◌ c String.[]) = none
decode_hex (String.◌∷◌ c (String.◌∷◌ d s)) =
    join_byte (hex_digit (code c)) (hex_digit (code d)) (decode_hex s)

abbrev pub or_error {ℓ} : {A : Type ℓ} → Option A → Error → Result Error A
or_error (some a) e = ok a
or_error none e = err e

-- The loop of `NewKeySet`: the keys so far, and the highest id.
unfoldable pub load_keys : AesGcm → Dict ℕ Aead → ℕ → List KekEntry → Result Error (Dict ℕ Aead × ℕ)
unfolding decode_hex
load_keys aes_gcm keys max_id [] = ok (keys, max_id)
load_keys aes_gcm keys max_id (e ∷ entries) = do
  fail_if (e.id == 0) key_id_zero
  fail_if (is_some (lookup e.id keys)) duplicate_key_id
  fail_if (not (len e.key == kek_hex_len)) key_length
  raw ← or_error (decode_hex e.key) hex_decode
  aead ← or_error (aes_gcm raw) aes_cipher
  load_keys aes_gcm (insert e.id aead keys) (if ltb max_id e.id then e.id else max_id) entries

-- `none` is the nil set of no entries.
unfoldable pub new_key_set : AesGcm → List KekEntry → ℕ → Result Error (Option KeySet)
unfolding load_keys
new_key_set aes_gcm entries write_key_id =
    if is_empty entries
    then ok none
    else load_keys aes_gcm [] 0 entries >>= λ loaded.
        let id = if write_key_id == 0 then loaded.1 else write_key_id in
        if not (is_some (lookup id loaded.0))
        then err write_key_missing
        else ok (some (record { keys = loaded.0; write_key_id = id }))

unfoldable pub has_key_id : KeySet → ℕ → Bool
has_key_id s id = is_some (lookup id s.keys)

-- `random n` is `n` random bytes, `none` where there are none.
unfoldable pub seal : (ℕ → Option (List ℕ)) → KeySet → List ℕ → Result Error (List ℕ)
seal random s plaintext = do
  aead ← or_error (lookup s.write_key_id s.keys) write_key_missing
  nonce ← or_error (random aead.nonce_size) nonce_failed
  ok (s.write_key_id ∷ nonce ++ aead.seal nonce plaintext)

unfoldable pub open_envelope : KeySet → List ℕ → Result Error (List ℕ)
open_envelope s [] = err secret_box_open
open_envelope s (key_id ∷ rest) = do
  aead ← or_error (lookup key_id s.keys) unknown_key_id
  fail_if (ltb (suc (length rest)) (1 + aead.nonce_size)) secret_box_open
  or_error (aead.open_sealed (take aead.nonce_size rest) (drop aead.nonce_size rest))
      secret_box_open
