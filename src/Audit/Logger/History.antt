-- ===== src/Audit/Logger/History.antt =====
-- What every history of a log comes to, with any number of loggers on one table.
use tamper.Prelude.{
  ℕ, ◌<◌, ◌≤◌, ◌≡◌, refl, sym, subst, not, Option, Option-cases, none, some, List, [], ◌∷◌, ◌++◌,
  length, keep, if◌then◌else◌, ltb, ◌==◌, ℕ_eq, Result, ok, err, arith, inl, inr, Bool-cases,
}
use tamper.Audit.Bytes.{Bytes}
use tamper.Audit.Event.{Event, Error, hash_size, canonical_version_4, validate_required_fields}
use tamper.Audit.Chain.{clean}
use tamper.Audit.Chain.Linked.{Follows, Linked, Intact}
use tamper.Audit.Chain.Walks.{walk_chain-Intact}
use tamper.Audit.Logger.{
  Table, Logger, prepare, with_email, append_event, append_prepared, chained, log, watermark, bump,
  latest_hash_from, has_id, redact_event, prune_older_than, new_sqlite_logger, verify,
}
use tamper.Audit.Logger.Order.{
  Ordered, Ordered-append, Ordered-keep, end_of, bump-end_of, list_events_for_verify-Ordered,
}
use tamper.Audit.Logger.Append.{chained-Follows, Intact-append, latest_hash_from-final_hash}
use tamper.Audit.Logger.Erasure.{redact_event-Ordered, redact_event-Intact}

-- The rows stand in the order of their times, and form a chain.
record IsSound (sha256 : Bytes → Bytes) (db : Table) : Type 0 where
  ordered : Ordered 0 db
  intact : Intact sha256 db

-- The loggers share the table; a call names the one that makes it. `restart` opens it anew.
pub data Call : Type 0 where
  logged : ℕ → Option Bytes → Event → Call
  erased : Bytes → Call
  pruned : ℕ → Call
  restart : ℕ → Option (Bytes → Option Bytes) → Call

pub record System : Type 0 where
  pub db : Table
  pub loggers : ℕ → Logger

abbrev pub with_logger : ℕ → Logger → (ℕ → Logger) → ℕ → Logger
with_logger i l loggers j = if j == i then l else loggers j

abbrev pub opened : ℕ → Result Error Logger → (ℕ → Logger) → ℕ → Logger
opened i (ok l) loggers = with_logger i l loggers
opened i (err why) loggers = loggers

-- What an event needs before it is chained.
record IsPrepared (e : Event) : Type 0 where
  version : e.canonical_version ≡ canonical_version_4
  timed : 0 < e.at

prepare-IsPrepared :
    (look_up : Option (Bytes → Option Bytes)) (e e' : Event)
    → prepare look_up e ≡ ok e'
    → IsPrepared e'
unfolding prepare with_email validate_required_fields
prepare-IsPrepared none e e' h = ground arith
prepare-IsPrepared (some f) e e' h = ground (arith, Option-cases (f e.actor.user_id))

keep_later :
    (cutoff t : ℕ) (db : Table)
    → cutoff ≤ t
    → Ordered t db
    → keep (λ r. not (ltb r.at cutoff)) db ≡ db
unfolding keep
keep_later cutoff t [] h o = refl
keep_later cutoff t (r ∷ db) h o = ground (arith, keep_later cutoff r.at db)

Linked-Intact :
    (sha256 : Bytes → Bytes) (p : Bytes) (db : Table) → Linked sha256 p db → Intact sha256 db
Linked-Intact sha256 p [] l = tt
Linked-Intact sha256 p (r ∷ db) l = (subst (λ q. Follows sha256 q r) (sym l.0.prev_hash) l.0, l.1)

-- Pruning takes rows from the front.
pruned-Intact :
    (sha256 : Bytes → Bytes) (cutoff t : ℕ) (db : Table)
    → Ordered t db
    → Intact sha256 db
    → Intact sha256 (keep (λ r. not (ltb r.at cutoff)) db)
unfolding keep
pruned-Intact sha256 cutoff t [] o i = tt
pruned-Intact sha256 cutoff t (r ∷ db) o i = elim (Bool-cases (ltb r.at cutoff)) [
  | inl old ↦ rw old (pruned-Intact sha256 cutoff r.at db o.1 (Linked-Intact sha256 r.hash db i.1))
  | inr kept ↦ rw (kept, keep_later cutoff r.at db (ground arith) o.1) i
]

chained-at :
    (sha256 : Bytes → Bytes) (salt p : Bytes) (e : Event) → (chained sha256 salt p e).at ≡ e.at
unfolding chained
chained-at sha256 salt p e = refl

module _ (sha256 : Bytes → Bytes) where
  unfoldable pub step : Call → System → System
  unfolding log redact_event prune_older_than new_sqlite_logger
  step (logged i salt e) s =
      let (_, l, db) = log sha256 salt (s.loggers i) s.db e in
      record { db = db; loggers = with_logger i l s.loggers }
  step (erased id) s = record s { db = (redact_event id s.db).1 }
  step (pruned cutoff) s = record s { db = (prune_older_than cutoff s.db).1 }
  step (restart i look_up) s = record s {
    loggers = opened i (new_sqlite_logger look_up s.db) s.loggers;
  }

  unfoldable pub run : List Call → System → System
  unfolding step
  run [] s = s
  run (c ∷ calls) s = run calls (step c s)

  module _ (size : (x : Bytes) → length (sha256 x) ≡ hash_size) where
    appended-IsSound :
        (salt : Bytes) (db : Table) (e : Event)
        → e.canonical_version ≡ canonical_version_4
        → end_of 0 db < e.at
        → IsSound sha256 db
        → IsSound sha256 (db ++ chained sha256 salt (latest_hash_from db) e ∷ [])
    appended-IsSound salt db e v h s =
        let row = chained sha256 salt (latest_hash_from db) e in
        record {
          ordered =
              Ordered-append 0 db row s.ordered (
                subst (◌<◌ (end_of 0 db)) (sym (chained-at sha256 salt (latest_hash_from db) e)) h);
          intact = Intact-append sha256 db row s.intact (
              subst (λ prev. Follows sha256 prev row)
                (latest_hash_from-final_hash sha256 size db s.ordered s.intact)
                (chained-Follows sha256 salt (latest_hash_from db) e v));
        }

    append_event-IsSound :
        (salt : Option Bytes) (l : Logger) (db : Table) (e : Event)
        → IsPrepared e
        → IsSound sha256 db
        → IsSound sha256 (append_event sha256 salt l db e).2
    unfolding append_event
    append_event-IsSound none l db e p s = s
    append_event-IsSound (some salt) l db e p s = elim (Bool-cases (has_id e.id db)) [
      | inl y ↦ rw y s
      | inr n ↦ rw n (
          appended-IsSound salt db (record e { at = bump (watermark l db) e.at }) p.version
            (bump-end_of l db e.at p.timed s.ordered) s)
    ]

    append_prepared-IsSound :
        (salt : Option Bytes) (l : Logger) (db : Table) (r : Result Error Event)
        → ((e : Event) → r ≡ ok e → IsPrepared e)
        → IsSound sha256 db
        → IsSound sha256 (append_prepared sha256 salt l db r).2
    unfolding append_prepared
    append_prepared-IsSound salt l db (err why) p s = s
    append_prepared-IsSound salt l db (ok e) p s = append_event-IsSound salt l db e (p e refl) s

    log-IsSound :
        (salt : Option Bytes) (l : Logger) (db : Table) (e : Event)
        → IsSound sha256 db
        → IsSound sha256 (log sha256 salt l db e).2
    unfolding log
    log-IsSound salt l db e s =
        append_prepared-IsSound salt l db (prepare l.email_lookup e)
          (λ e' y. prepare-IsPrepared l.email_lookup e e' y) s

    step-IsSound : (c : Call) (s : System) → IsSound sha256 s.db → IsSound sha256 (step c s).db
    unfolding step prune_older_than
    step-IsSound (logged i salt e) s h = log-IsSound salt (s.loggers i) s.db e h
    step-IsSound (erased id) s h = record {
      ordered = redact_event-Ordered id 0 s.db h.ordered;
      intact = redact_event-Intact sha256 id s.db h.intact;
    }
    step-IsSound (pruned cutoff) s h = record {
      ordered = Ordered-keep (λ r. not (ltb r.at cutoff)) 0 s.db h.ordered;
      intact = pruned-Intact sha256 cutoff 0 s.db h.ordered h.intact;
    }
    step-IsSound (restart i look_up) s h = h

    run-IsSound :
        (calls : List Call) (s : System) → IsSound sha256 s.db → IsSound sha256 (run calls s).db
    unfolding run
    run-IsSound [] s h = h
    run-IsSound (c ∷ calls) s h = run-IsSound calls (step c s) (step-IsSound c s h)

    -- After any history on an empty table, of appends by any loggers, with any times, salts and
    -- e-mail look-ups, of erasures, prunings and restarts, `Verify` finds every row of the log in
    -- place: hashes have 32 bytes.
    pub run-verify :
        (calls : List Call) (loggers : ℕ → Logger)
        → let db = (run calls (record { db = []; loggers = loggers })).db in
          verify sha256 db ≡ clean (length db)
    unfolding verify
    run-verify calls loggers =
        let s = run calls (record { db = []; loggers = loggers }) in
        let h =
          run-IsSound calls (record { db = []; loggers = loggers })
            (record { ordered = tt; intact = tt }) in
        rw (list_events_for_verify-Ordered 0 s.db h.ordered)
          ((walk_chain-Intact sha256 s.db).1 h.intact)
