-- ===== src/Audit/Tests.antt =====
-- A log of two events, the erasure of one, and a row that was rewritten.
use Prim.Native.Nat.{◌%◌}
use native.Mathlib.Decide.{ℕ_discrete}
use tamper.Prelude.{
  ℕ, ◌+◌, ◌*◌, ◌≡◌, refl, ◌⊎◌, true, false, none, some, List, [], ◌∷◌, ◌++◌, length, All, In, ok,
  arith,
}
use tamper.Prelude.Sorting.{sort_by}
use tamper.Audit.Bytes.{
  Bytes, Bytes-dec, bytes_of, bytes_equal, same_bytes, bytes_lt, append_lp, big_endian,
}
use tamper.Audit.Event.{Event, hash_size, canonical_version_4, validate_required_fields, unix_nano}
use tamper.Audit.Payload.{canonical_payload_v4}
use tamper.Audit.Payload.Content.{content, IsBounded}
use tamper.Audit.Payload.Injective.{canonical_payload_v4-inj}
use tamper.Audit.Redaction.{is_redacted, verify_commitments, compute_commitments, compare_fields}
use tamper.Audit.Chain.{
  walk_chain, walk_rows, verify_chain_post_migration, clean, tamper_at, compute_hash,
}
use tamper.Audit.Chain.Linked.{Collision, Intact, final_hash}
use tamper.Audit.Chain.Walks.{walk_chain-Verdict, as_result, verify_chain_post_migration-walk_chain}
use tamper.Audit.Chain.Evidence.{SameRecord, Rooted, walk_chain-evidence}
use tamper.Audit.Chain.Personal.{SamePerson, verify_commitments-binding}
use tamper.Audit.Logger.{
  Table, Logger, log, verify, latest_hash_from, latest, list_events_for_verify, row_before,
  redact_event, has_id, prepare, with_email, append_event, append_prepared, chained, watermark,
  bump, redact_rows, redact_row,
}
use tamper.Audit.Logger.Erasure.{IsErased, redact_event_lem}
use tamper.Audit.Logger.History.{Call, logged, erased, System, run, step, run-verify}
use tamper.Audit.Logger.Row.{Answered, log-Answered}

-- Any digest of 32 bytes serves: a checksum, and its length.
sum_bytes : Bytes → ℕ
sum_bytes [] = 0
sum_bytes (b ∷ bs) = (sum_bytes bs * 31 + b + 1) % 65521

abbrev digest : Bytes → Bytes
digest x =
    sum_bytes x
    ∷ 1
    ∷ 1
    ∷ 1
    ∷ 1
    ∷ 1
    ∷ 1
    ∷ 1
    ∷ 1
    ∷ 1
    ∷ 1
    ∷ 1
    ∷ 1
    ∷ 1
    ∷ 1
    ∷ 1
    ∷ 1
    ∷ 1
    ∷ 1
    ∷ 1
    ∷ 1
    ∷ 1
    ∷ 1
    ∷ 1
    ∷ 1
    ∷ 1
    ∷ 1
    ∷ 1
    ∷ 1
    ∷ 1
    ∷ 1
    ∷ 1
    ∷ []

digest_size : (x : Bytes) → length (digest x) ≡ hash_size
digest_size x = refl

program : Unit {0}
unfolding sum_bytes ℕ_discrete Bytes-dec sort_by bytes_equal same_bytes bytes_lt append_lp
    big_endian validate_required_fields unix_nano canonical_payload_v4 is_redacted
    verify_commitments compute_commitments compare_fields walk_chain walk_rows
    verify_chain_post_migration compute_hash log verify latest_hash_from latest
    list_events_for_verify row_before redact_event has_id prepare with_email append_event
    append_prepared chained watermark bump redact_rows redact_row run step content
program = tt

abbrev salt : Bytes
salt = digest []

abbrev event : Event
event = record {
  id = bytes_of "e1";
  at = 63000000000000000000;
  actor = record {
    actor_type = [];
    user_id = bytes_of "u1";
    email = bytes_of "a@b.c";
    name = [];
    ip = bytes_of "10.0.0.1";
    home_tenant = bytes_of "acme";
  };
  action = bytes_of "project.create";
  resource_type = bytes_of "project";
  resource_id = bytes_of "p1";
  request_id = [];
  cluster_id = [];
  before = [];
  after = bytes_of "{}";
  prev_hash = [];
  hash = [];
  canonical_version = 0;
  tenant_id = bytes_of "acme";
  row_salt = [];
  commitments = record {
    actor_email = [];
    actor_name = [];
    actor_ip = [];
    before = [];
    after = [];
  };
}

abbrev logger : Logger
logger = record { last_at = 0; email_lookup = none }

abbrev history : List Call
history =
    logged 0 (some salt) event
    ∷ logged 1 (some salt) (record event { id = bytes_of "e2" })
    ∷ logged 0 none event
    ∷ erased (bytes_of "e1")
    ∷ []

abbrev system : System
system = record { db = []; loggers = λ _. logger }

abbrev table : Table
table = (run digest history system).db

two_rows : verify digest table ≡ clean 2
unfolding program
two_rows = refl

run-verify_example : verify digest table ≡ clean (length table)
run-verify_example = run-verify digest digest_size history (λ _. logger)

-- The table before the erasure.
abbrev written : Table
written =
    (run digest
      (logged 0 (some salt) event ∷ logged 1 (some salt) (record event { id = bytes_of "e2" }) ∷ [])
      system).db

-- The event as it is given, and as it is stored.
abbrev stored : Event
stored = record event {
  actor = record event.actor { actor_type = bytes_of "user" };
  cluster_id = bytes_of "c1";
}

event-IsBounded : IsBounded event
event-IsBounded = ground arith

stored-IsBounded : IsBounded stored
stored-IsBounded = ground arith

same_payload : canonical_payload_v4 event salt ≡ canonical_payload_v4 stored salt
unfolding program
same_payload = refl

canonical_payload_v4-inj_example : (content event ≡ content stored) × (salt ≡ salt)
canonical_payload_v4-inj_example =
    canonical_payload_v4-inj event stored salt salt event-IsBounded stored-IsBounded (omega arith)
      (omega arith) same_payload

-- The first row is altered, and the walk stops there.
abbrev altered : Table
altered = record event { canonical_version = 4 } ∷ []

altered_found : walk_chain digest altered ≡ tamper_at 1 0
unfolding program
altered_found = refl

walk_chain-Verdict_example :
    ((walk_chain digest altered ≡ clean (length altered)) × Intact digest altered)
    ⊎ ((before : List Event) × (r : Event) × (after : List Event) × (altered ≡ before ++ r ∷ after)
        × (walk_chain digest altered ≡ tamper_at (length altered) (length before))
        × Intact digest before
        × (¬ Intact digest (before ++ r ∷ [])))
walk_chain-Verdict_example = walk_chain-Verdict digest altered

verify_chain_post_migration-walk_chain_example :
    as_result (length altered) (verify_chain_post_migration digest false (λ _. false) altered)
    ≡ some (walk_chain digest altered)
verify_chain_post_migration-walk_chain_example =
    verify_chain_post_migration-walk_chain digest altered

table_passes : walk_chain digest table ≡ clean (length table)
unfolding program
table_passes = refl

written_passes : walk_chain digest written ≡ clean (length written)
unfolding program
written_passes = refl

table_starts : Rooted table
unfolding program
table_starts = refl

written_starts : Rooted written
unfolding program
written_starts = refl

table-IsBounded : All IsBounded table
unfolding program
table-IsBounded = (ground arith, (ground arith, tt))

written-IsBounded : All IsBounded written
unfolding program
written-IsBounded = (ground arith, (ground arith, tt))

same_length : length table ≡ length written
unfolding program
same_length = refl

same_end : final_hash [] table ≡ final_hash [] written
unfolding program
same_end = refl

walk_chain-evidence_example : SameRecord table written ⊎ Collision digest
walk_chain-evidence_example =
    walk_chain-evidence digest table written digest_size table_passes written_passes table_starts
      written_starts table-IsBounded written-IsBounded same_length same_end

-- The row of the event, and the same row under another cluster.
abbrev row : Event
row = chained digest salt salt (record event { canonical_version = 4 })

abbrev moved : Event
moved = record row { cluster_id = bytes_of "c1" }

row_checked : verify_commitments digest row ≡ ok true
unfolding program
row_checked = refl

moved_checked : verify_commitments digest moved ≡ ok true
unfolding program
moved_checked = refl

same_commitments : row.commitments ≡ moved.commitments
unfolding program
same_commitments = refl

verify_commitments-binding_example : SamePerson row moved ⊎ Collision digest
verify_commitments-binding_example =
    verify_commitments-binding digest row moved row_checked moved_checked same_commitments refl

redact_event_lem_example :
    (verify digest (redact_event (bytes_of "e1") written).1 ≡ verify digest written)
    × ((r : Event)
        → In r (redact_event (bytes_of "e1") written).1
        → r.id ≡ bytes_of "e1"
        → r.canonical_version ≡ canonical_version_4
        → IsErased r)
    × ((redact_event (bytes_of "e1") written).0 ≡ has_id (bytes_of "e1") written)
redact_event_lem_example = redact_event_lem digest (bytes_of "e1") written

salt_fresh : is_redacted salt ≡ false
unfolding program
salt_fresh = refl

newest_size : length (latest_hash_from written) ≡ hash_size
unfolding program
newest_size = refl

log-Answered_example :
    Answered digest written
      (log digest (some salt) logger written (record event { id = bytes_of "e3" }))
log-Answered_example =
    log-Answered digest salt logger written (record event { id = bytes_of "e3" }) refl salt_fresh
      newest_size
