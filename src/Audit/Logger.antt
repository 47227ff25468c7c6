-- ===== src/Audit/Logger.antt =====
-- audit/audit_sqlite.go and audit/redaction.go: `SQLiteLogger` over the table of events, with the
-- queries of audit/internal/sqlitestore/queries. A call is one step: it runs under the lock and, where it
-- writes, in one immediate transaction. The database fails only where an id is taken.
pub mod Order
pub mod Append
pub mod History
pub mod Erasure
pub mod Row
use tamper.Prelude.{
  ℕ, suc, ◌+◌, ℕ_eq, Bool, true, false, not, ◌==◌, ◌&&◌, ◌||◌, Option, none, some, List, [], ◌∷◌,
  ◌++◌, length, keep, is_empty, if◌then◌else◌, ltb, Result, ok, err, ◌>>=◌, ◌>>◌, fail_if,
}
use tamper.Prelude.Sorting.{sort_by}
use tamper.Audit.Bytes.{Bytes, Bytes_eq, bytes_lt}
use tamper.Audit.Event.{
  Event, Actor, Error, random_failed, insert_failed, version_refused, canonical_version_4,
  actor_type_user, validate_required_fields,
}
use tamper.Audit.Payload.{canonical_payload_v4, type_or_user}
use tamper.Audit.Redaction.{compute_commitments}
use tamper.Audit.Chain.{hash_chain_link, walk_chain, VerifyResult}

abbrev pub Table : Type 0
Table = List Event

pub record Logger : Type 0 where
  pub last_at : ℕ
  pub email_lookup : Option (Bytes → Option Bytes)

-- `ORDER BY at ASC, canonical_version ASC, id ASC`.
unfoldable pub row_before : Event → Event → Bool
row_before a b =
    if ltb a.at b.at
    then true
    else if ltb b.at a.at
    then false
    else if ltb a.canonical_version b.canonical_version
    then true
    else if ltb b.canonical_version a.canonical_version
    then false
    else bytes_lt a.id b.id

unfoldable pub list_events_for_verify : Table → List Event
list_events_for_verify db = sort_by row_before db

-- `ORDER BY at DESC, canonical_version DESC, id DESC LIMIT 1`.
unfoldable pub latest : Table → Option Event
latest [] = none
latest (r ∷ db) = elim (latest db) [
  | none ↦ some r
  | some newest ↦ if row_before newest r then some r else some newest
]

abbrev pub genesis : Bytes
genesis =
    0 ∷ 0 ∷ 0 ∷ 0 ∷ 0 ∷ 0 ∷ 0 ∷ 0 ∷ 0 ∷ 0 ∷ 0 ∷ 0 ∷ 0 ∷ 0 ∷ 0 ∷ 0 ∷ 0 ∷ 0 ∷ 0 ∷ 0 ∷ 0 ∷ 0 ∷ 0 ∷ 0
    ∷ 0 ∷ 0 ∷ 0 ∷ 0 ∷ 0 ∷ 0 ∷ 0 ∷ 0 ∷ []

unfoldable pub latest_hash_from : Table → Bytes
latest_hash_from db = elim (latest db) [
  | none ↦ genesis
  | some r ↦ if is_empty r.hash then genesis else r.hash
]

-- The later of the logger's own watermark and the table's.
unfoldable pub watermark : Logger → Table → ℕ
watermark l db = elim (latest db) [
  | none ↦ l.last_at
  | some r ↦ if ltb l.last_at r.at then r.at else l.last_at
]

-- A time that is not after the watermark becomes the nanosecond after it.
unfoldable pub bump : ℕ → ℕ → ℕ
bump mark at = if not (mark == 0) && not (ltb mark at) then mark + 1 else at

unfoldable pub with_email : Option (Bytes → Option Bytes) → Event → Event
with_email none e = e
with_email (some look_up) e =
    if e.actor.actor_type == actor_type_user
      && (is_empty e.actor.email && not (is_empty e.actor.user_id))
    then elim (look_up e.actor.user_id) [
      | none ↦ e
      | some email ↦ record e { actor = record e.actor { email = email } }
    ]
    else e

-- What `Log` does before it takes the lock.
unfoldable pub prepare : Option (Bytes → Option Bytes) → Event → Result Error Event
unfolding with_email
prepare look_up e = do
  validate_required_fields e
  fail_if (not (e.canonical_version == 0) && not (e.canonical_version == canonical_version_4))
      version_refused
  ok (
      with_email look_up (record e {
        actor = record e.actor { actor_type = type_or_user e.actor.actor_type };
        canonical_version = canonical_version_4;
      }))

unfoldable pub has_id : Bytes → Table → Bool
has_id id [] = false
has_id id (r ∷ db) = if r.id == id then true else has_id id db

module _ (sha256 : Bytes → Bytes) where
  -- The row that is inserted.
  unfoldable pub chained : Bytes → Bytes → Event → Event
  chained salt prev e =
      let committed = record e {
        row_salt = salt;
        commitments = compute_commitments sha256 salt e;
      } in
      record committed {
        prev_hash = prev;
        hash = hash_chain_link sha256 prev (canonical_payload_v4 committed prev);
      }

  -- `none` for the salt is a source of random bytes that fails.
  unfoldable pub append_event :
      Option Bytes → Logger → Table → Event → Result Error Event × Logger × Table
  unfolding chained watermark bump latest_hash_from has_id
  append_event none l db e = (err random_failed, l, db)
  append_event (some salt) l db e =
      let timed = record e { at = bump (watermark l db) e.at } in
      let row = chained salt (latest_hash_from db) timed in
      let l' = record l { last_at = row.at } in
      if has_id row.id db then (err insert_failed, l', db) else (ok row, l', db ++ row ∷ [])

  unfoldable pub append_prepared :
      Option Bytes → Logger → Table → Result Error Event → Result Error Event × Logger × Table
  append_prepared salt l db (err why) = (err why, l, db)
  append_prepared salt l db (ok e) = append_event salt l db e

  unfoldable pub log : Option Bytes → Logger → Table → Event → Result Error Event × Logger × Table
  unfolding append_prepared prepare append_event
  log salt l db e = append_prepared salt l db (prepare l.email_lookup e)

  unfoldable pub verify : Table → VerifyResult
  unfolding list_events_for_verify
  verify db = walk_chain sha256 (list_events_for_verify db)

-- `NewSQLiteLogger` on a table that could be opened: the versions that are not 4 refuse it.
unfoldable pub new_sqlite_logger : Option (Bytes → Option Bytes) → Table → Result Error Logger
new_sqlite_logger look_up db =
    if not (is_empty (keep (λ r. not (r.canonical_version == canonical_version_4)) db))
    then err version_refused
    else ok
        (record { last_at = elim (latest db) [ none ↦ 0 | some r ↦ r.at ]; email_lookup = look_up })

unfoldable pub prune_older_than : ℕ → Table → ℕ × Table
prune_older_than cutoff db =
    (length (keep (λ r. ltb r.at cutoff) db), keep (λ r. not (ltb r.at cutoff)) db)

unfoldable pub delete_event_by_id : Bytes → Table → Table
delete_event_by_id id db = keep (λ r. not (r.id == id)) db

-- The statement of `RedactEventPII`, on one row.
unfoldable pub redact_row : Bytes → Event → Event
redact_row id r =
    if r.id == id && r.canonical_version == canonical_version_4
    then record r {
      actor = record r.actor { email = []; name = []; ip = [] };
      before = [];
      after = [];
      row_salt = [];
    }
    else r

unfoldable pub redact_rows : Bytes → Table → Table
unfolding redact_row
redact_rows id [] = []
redact_rows id (r ∷ db) = redact_row id r ∷ redact_rows id db

unfoldable pub redact_event : Bytes → Table → Bool × Table
unfolding has_id redact_rows
redact_event id db = if has_id id db then (true, redact_rows id db) else (false, db)
