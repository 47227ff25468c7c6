-- ===== src/Audit/Redaction.antt =====
-- audit/redaction.go: commitments to the personal data of an event, and its erasure. SHA-256 is a
-- parameter.
use tamper.Prelude.{
  ℕ_eq, String, Bool, true, false, not, ◌==◌, List, [], ◌∷◌, ◌++◌, if◌then◌else◌, Result, ok, err,
}
use tamper.Audit.Bytes.{Bytes, bytes_of, append_lp, bytes_equal}
use tamper.Audit.Event.{Event, Commitments, Error, commitment_mismatch, canonical_version_4}

unfoldable pub is_redacted : Bytes → Bool
is_redacted [] = true
is_redacted (b ∷ salt) = if not (b == 0) then false else is_redacted salt

-- The salt becomes zeroes of the same length.
unfoldable pub zeroed : Bytes → Bytes
zeroed [] = []
zeroed (b ∷ salt) = 0 ∷ zeroed salt

unfoldable pub redact : Event → Event
unfolding zeroed
redact e = record e {
  actor = record e.actor { email = []; name = []; ip = [] };
  before = [];
  after = [];
  row_salt = zeroed e.row_salt;
}

module _ (sha256 : Bytes → Bytes) where
  unfoldable pub commit : Bytes → String → Bytes → Bytes
  unfolding append_lp
  commit salt field value = sha256 (salt ++ append_lp (append_lp [] (bytes_of field)) value)

  unfoldable pub compute_commitments : Bytes → Event → Commitments
  unfolding commit
  compute_commitments salt e = record {
    actor_email = commit salt "actor.email" e.actor.email;
    actor_name = commit salt "actor.name" e.actor.name;
    actor_ip = commit salt "actor.ip" e.actor.ip;
    before = commit salt "before" e.before;
    after = commit salt "after" e.after;
  }

  -- The loop of `VerifyCommitments` over the fields.
  unfoldable pub compare_fields : Bytes → List (String × Bytes × Bytes) → Result Error Bool
  compare_fields id [] = ok true
  compare_fields id ((field, stored, got) ∷ rest) =
      if not (bytes_equal stored got)
      then err (commitment_mismatch id field)
      else compare_fields id rest

  unfoldable pub verify_commitments : Event → Result Error Bool
  unfolding compute_commitments is_redacted compare_fields
  verify_commitments e =
      let want = compute_commitments e.row_salt e in
      if not (e.canonical_version == canonical_version_4)
      then ok false
      else if is_redacted e.row_salt
      then ok false
      else compare_fields e.id (
          ("actor.email", e.commitments.actor_email, want.actor_email)
          ∷ ("actor.name", e.commitments.actor_name, want.actor_name)
          ∷ ("actor.ip", e.commitments.actor_ip, want.actor_ip)
          ∷ ("before", e.commitments.before, want.before)
          ∷ ("after", e.commitments.after, want.after)
          ∷ [])
