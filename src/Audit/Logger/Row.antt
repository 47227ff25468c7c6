-- ===== src/Audit/Logger/Row.antt =====
-- What `Log` answers, and that `ComputeHash` and `VerifyCommitments` agree with it.
use tamper.Prelude.{
  inl, inr, ℕ, ◌≡◌, refl, true, false, Option, Option-cases, none, some, [], ◌∷◌, ◌++◌, length,
  Bool-cases, Result, ok, err, arith,
}
use tamper.Audit.Bytes.{Bytes, bytes_equal_iff}
use tamper.Audit.Event.{
  Event, Error, hash_size, row_salt_size, canonical_version_4, validate_required_fields,
}
use tamper.Audit.Redaction.{compute_commitments, verify_commitments, is_redacted}
use tamper.Audit.Chain.{compute_hash, same_commitments}
use tamper.Audit.Logger.Append.{payload-chained}
use tamper.Audit.Logger.{
  Table, Logger, prepare, with_email, append_event, append_prepared, chained, log, watermark, bump,
  latest_hash_from, has_id,
}

-- An event that passed the checks of `Log`.
record IsChecked (e : Event) : Type 0 where
  version : e.canonical_version ≡ canonical_version_4
  required : validate_required_fields e ≡ ok tt

prepare-IsChecked :
    (look_up : Option (Bytes → Option Bytes)) (e e' : Event)
    → prepare look_up e ≡ ok e'
    → IsChecked e'
unfolding prepare with_email validate_required_fields
prepare-IsChecked none e e' h = ground arith
prepare-IsChecked (some f) e e' h = ground (arith, Option-cases (f e.actor.user_id))

same_commitments_refl : (c : _) → same_commitments c c ≡ true
unfolding same_commitments
same_commitments_refl c = ground (
  arith,
  bytes_equal_iff c.actor_email c.actor_email,
  bytes_equal_iff c.actor_name c.actor_name,
  bytes_equal_iff c.actor_ip c.actor_ip,
  bytes_equal_iff c.before c.before,
  bytes_equal_iff c.after c.after,
)

bumped-IsChecked :
    (mark : ℕ) (e : Event) → IsChecked e → IsChecked (record e { at = bump mark e.at })
unfolding validate_required_fields bump
bumped-IsChecked mark e c = ground arith

module _ (sha256 : Bytes → Bytes) where
  -- What the row on the end of the table is to the rest of the package.
  pub record IsLogged (l' : Logger) (db : Table) (row : Event) : Type 0 where
    pub new_id : has_id row.id db ≡ false
    pub prev_hash : row.prev_hash ≡ latest_hash_from db
    pub mark : l'.last_at ≡ row.at
    pub recomputed : compute_hash sha256 row row.prev_hash ≡ ok row.hash
    pub committed : verify_commitments sha256 row ≡ ok true

  -- An error leaves the table as it was; a success puts one row on its end.
  abbrev pub Answered : Table → Result Error Event × Logger × Table → Type 0
  Answered db (err why, l', db') = db' ≡ db
  Answered db (ok row, l', db') = (db' ≡ db ++ row ∷ []) × IsLogged l' db row

  chained-compute_hash :
      (salt prev : Bytes) (e : Event)
      → length salt ≡ row_salt_size
      → is_redacted salt ≡ false
      → length prev ≡ hash_size
      → IsChecked e
      → compute_hash sha256 (chained sha256 salt prev e) prev ≡ ok (chained sha256 salt prev e).hash
  unfolding compute_hash chained compute_commitments validate_required_fields
  chained-compute_hash salt prev e l r p c = ground (
    arith,
    c.required,
    same_commitments_refl (compute_commitments sha256 salt e),
    payload-chained sha256 salt prev e,
  )

  chained-committed :
      (salt prev : Bytes) (e : Event)
      → is_redacted salt ≡ false
      → IsChecked e
      → verify_commitments sha256 (chained sha256 salt prev e) ≡ ok true
  unfolding verify_commitments chained compute_commitments
  chained-committed salt prev e r c =
      let made = compute_commitments sha256 salt e in
      ground (
        arith,
        bytes_equal_iff made.actor_email made.actor_email,
        bytes_equal_iff made.actor_name made.actor_name,
        bytes_equal_iff made.actor_ip made.actor_ip,
        bytes_equal_iff made.before made.before,
        bytes_equal_iff made.after made.after,
      )

  logged :
      (salt prev : Bytes) (e : Event) (l : Logger) (db : Table)
      → has_id e.id db ≡ false
      → prev ≡ latest_hash_from db
      → length salt ≡ row_salt_size
      → is_redacted salt ≡ false
      → length prev ≡ hash_size
      → IsChecked e
      → IsLogged (record l { last_at = e.at }) db (chained sha256 salt prev e)
  unfolding chained
  logged salt prev e l db new at_end n f h c = record {
    new_id = new;
    prev_hash = at_end;
    mark = refl;
    recomputed = chained-compute_hash salt prev e n f h c;
    committed = chained-committed salt prev e f c;
  }

  append_event-Answered :
      (salt : Bytes) (l : Logger) (db : Table) (e : Event)
      → length salt ≡ row_salt_size
      → is_redacted salt ≡ false
      → length (latest_hash_from db) ≡ hash_size
      → IsChecked e
      → Answered db (append_event sha256 (some salt) l db e)
  unfolding append_event
  append_event-Answered salt l db e n f h c =
      let timed = record e { at = bump (watermark l db) e.at } in
      let prev = latest_hash_from db in
      let checked = bumped-IsChecked (watermark l db) e c in
      elim (Bool-cases (has_id e.id db)) [
        | inl taken ↦ rw taken refl
        | inr new ↦ rw new (refl, logged salt prev timed l db new refl n f h checked)
      ]

  append_prepared-Answered :
      (salt : Bytes) (l : Logger) (db : Table) (r : Result Error Event)
      → length salt ≡ row_salt_size
      → is_redacted salt ≡ false
      → length (latest_hash_from db) ≡ hash_size
      → ((e : Event) → r ≡ ok e → IsChecked e)
      → Answered db (append_prepared sha256 (some salt) l db r)
  unfolding append_prepared
  append_prepared-Answered salt l db (err why) n f h c = refl
  append_prepared-Answered salt l db (ok e) n f h c =
      append_event-Answered salt l db e n f h (c e refl)

  -- With a salt of 32 bytes that are not all zero, and a newest hash of 32 bytes, a `Log` that fails
  -- leaves the table as it was; one that succeeds puts one row on its end, with an id that was not
  -- there, that follows the newest hash and is the logger's new watermark, and `ComputeHash` and
  -- `VerifyCommitments` confirm the row.
  pub log-Answered :
      (salt : Bytes) (l : Logger) (db : Table) (e : Event)
      → length salt ≡ row_salt_size
      → is_redacted salt ≡ false
      → length (latest_hash_from db) ≡ hash_size
      → Answered db (log sha256 (some salt) l db e)
  unfolding log
  log-Answered salt l db e n f h =
      append_prepared-Answered salt l db (prepare l.email_lookup e) n f h
        (λ e' y. prepare-IsChecked l.email_lookup e e' y)
