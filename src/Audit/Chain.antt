-- ===== src/Audit/Chain.antt =====
-- audit/audit.go, audit/audit_sqlite.go and audit/verify_boot.go: the hash of an event, and the two
-- walks that check the chain. SHA-256 is a parameter.
pub mod Linked
pub mod Walks
pub mod Evidence
pub mod Personal
use tamper.Prelude.{
  ℕ, suc, ◌+◌, ℕ_eq, Bool, true, false, not, ◌==◌, ◌&&◌, ◌||◌, Option, none, some, List, [], ◌∷◌,
  ◌++◌, length, if◌then◌else◌, Result, ok, err, ◌>>=◌, ◌>>◌, fail_if,
}
use tamper.Audit.Bytes.{Bytes, bytes_equal}
use tamper.Audit.Event.{
  Event, Actor, Commitments, Error, unknown_version, prev_hash_size, version_refused,
  salt_not_fresh, commitments_stale, canonical_version_4, hash_size, row_salt_size,
  validate_required_fields,
}
use tamper.Audit.Payload.{canonical_payload_v4, type_or_user}
use tamper.Audit.Redaction.{compute_commitments, is_redacted}

-- A row of the table has the columns of an event; reading one fills in the type of its actor.
unfoldable pub from_row : Event → Event
from_row r = record r { actor = record r.actor { actor_type = type_or_user r.actor.actor_type } }

unfoldable pub canonical_payload_for_version : Event → Bytes → ℕ → Result Error Bytes
canonical_payload_for_version e prev_hash version =
    if not (version == canonical_version_4)
    then err unknown_version
    else ok (canonical_payload_v4 e prev_hash)

pub record VerifyResult : Type 0 where
  pub total : ℕ
  pub tamper_found : Bool
  pub first_bad_index : ℕ

abbrev pub tamper_at : ℕ → ℕ → VerifyResult
tamper_at total i = record { total = total; tamper_found = true; first_bad_index = i }

abbrev pub clean : ℕ → VerifyResult
clean total = record { total = total; tamper_found = false; first_bad_index = 0 }

-- Why a row fails the walk at boot.
pub data Reason : Type 0 where
  hash_differs prev_hash_differs version_unknown : Reason

-- The hashes are kept as bytes, not printed in hexadecimal; the time is not printed.
pub record ChainMismatch : Type 0 where
  pub index : ℕ
  pub row_id : Bytes
  pub row_at : ℕ
  pub canonical_version : ℕ
  pub stored_hash : Bytes
  pub recomputed_hash : Option Bytes
  pub prev_hash : Bytes
  pub stored_prev_hash : Bytes
  pub reason : Reason

pub data BootError : Type 0 where
  expired : BootError
  mismatch : ChainMismatch → BootError

abbrev pub new_chain_mismatch : ℕ → Event → Bytes → Option Bytes → Reason → BootError
new_chain_mismatch index e prev recomputed reason = mismatch (record {
  index = index;
  row_id = e.id;
  row_at = e.at;
  canonical_version = e.canonical_version;
  stored_hash = e.hash;
  recomputed_hash = recomputed;
  prev_hash = prev;
  stored_prev_hash = e.prev_hash;
  reason = reason;
})

-- The hash that a row is checked against: for the first row, its own.
abbrev pub baseline : ℕ → Event → Bytes → Bytes
baseline i e prev = if i == 0 then e.prev_hash else prev

unfoldable pub same_commitments : Commitments → Commitments → Bool
same_commitments c d =
    bytes_equal c.actor_email d.actor_email
    && (bytes_equal c.actor_name d.actor_name
        && (bytes_equal c.actor_ip d.actor_ip
            && (bytes_equal c.before d.before && bytes_equal c.after d.after)))

module _ (sha256 : Bytes → Bytes) where
  unfoldable pub hash_chain_link : Bytes → Bytes → Bytes
  hash_chain_link prev_hash payload = sha256 (prev_hash ++ payload)

  unfoldable pub compute_hash : Event → Bytes → Result Error Bytes
  unfolding hash_chain_link same_commitments
  compute_hash e prev_hash = do
    validate_required_fields e
    fail_if (not (length prev_hash == hash_size)) prev_hash_size
    fail_if (not (e.canonical_version == canonical_version_4)) version_refused
    fail_if (not (length e.row_salt == row_salt_size) || is_redacted e.row_salt) salt_not_fresh
    fail_if (not (same_commitments e.commitments (compute_commitments sha256 e.row_salt e)))
        commitments_stale
    ok (hash_chain_link prev_hash (canonical_payload_v4 e prev_hash))

  -- The loop of `walkChain` from row i on, after a row with the hash `prev`.
  unfoldable pub walk_rows : ℕ → ℕ → Bytes → List Event → VerifyResult
  unfolding from_row canonical_payload_for_version hash_chain_link
  walk_rows total i prev [] = clean total
  walk_rows total i prev (r ∷ rows) =
      let e = from_row r in
      let prev = baseline i e prev in
      if not (bytes_equal e.prev_hash prev)
      then tamper_at total i
      else elim (canonical_payload_for_version e prev e.canonical_version) [
        | err _ ↦ tamper_at total i
        | ok payload ↦
            if not (bytes_equal e.hash (hash_chain_link prev payload))
            then tamper_at total i
            else walk_rows total (suc i) e.hash rows
      ]

  unfoldable pub walk_chain : List Event → VerifyResult
  unfolding walk_rows
  walk_chain rows = walk_rows (length rows) 0 [] rows

  -- The loop of `verifyChainPostMigrationStore`; `late i` is whether the context has ended when
  -- row i is reached.
  unfoldable pub boot_rows : (ℕ → Bool) → ℕ → Bytes → List Event → Result BootError ℕ
  unfolding from_row canonical_payload_for_version hash_chain_link
  boot_rows late i prev [] = ok i
  boot_rows late i prev (r ∷ rows) =
      let e = from_row r in
      let prev = baseline i e prev in
      if late i
      then err expired
      else if not (bytes_equal e.prev_hash prev)
      then err (new_chain_mismatch i e prev none prev_hash_differs)
      else elim (canonical_payload_for_version e prev e.canonical_version) [
        | err _ ↦ err (new_chain_mismatch i e prev none version_unknown)
        | ok payload ↦
            let recomputed = hash_chain_link prev payload in
            if not (bytes_equal recomputed e.hash)
            then err (new_chain_mismatch i e prev (some recomputed) hash_differs)
            else boot_rows late (suc i) recomputed rows
      ]

  unfoldable pub verify_chain_post_migration : Bool → (ℕ → Bool) → List Event → Result BootError ℕ
  unfolding boot_rows
  verify_chain_post_migration late_before late rows =
      if late_before then err expired else boot_rows late 0 [] rows
