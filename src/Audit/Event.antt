-- ===== src/Audit/Event.antt =====
-- audit/audit.go: the events of the log, and what every event must carry. Strings are bytes; an
-- absent JSON snapshot is the empty one. A time is the nanoseconds since Go's zero time, so `zero`
-- is what `IsZero` reports.
use Prim.Native.Nat.{◌%◌}
use tamper.Prelude.{String, ℕ, ◌+◌, ◌-◌, ◌*◌, ◌==◌, ℕ_eq, is_empty, Result, ◌>>◌, fail_if}
use tamper.Audit.Bytes.{Bytes, bytes_of, u64}

pub data Error : Type 0 where
  id_required at_required action_required : Error
  version_refused unknown_version random_failed insert_failed : Error
  prev_hash_size salt_not_fresh commitments_stale : Error
  commitment_mismatch : Bytes → String → Error

abbrev pub hash_size : ℕ
hash_size = 32

abbrev pub row_salt_size : ℕ
row_salt_size = 32

abbrev pub canonical_version_4 : ℕ
canonical_version_4 = 4

abbrev pub actor_type_user : Bytes
actor_type_user = bytes_of "user"

pub record Actor : Type 0 where
  pub actor_type : Bytes
  pub user_id : Bytes
  pub email : Bytes
  pub name : Bytes
  pub ip : Bytes
  pub home_tenant : Bytes

pub record Commitments : Type 0 where
  pub actor_email : Bytes
  pub actor_name : Bytes
  pub actor_ip : Bytes
  pub before : Bytes
  pub after : Bytes

pub record Event : Type 0 where
  pub id : Bytes
  pub at : ℕ
  pub actor : Actor
  pub action : Bytes
  pub resource_type : Bytes
  pub resource_id : Bytes
  pub request_id : Bytes
  pub cluster_id : Bytes
  pub before : Bytes
  pub after : Bytes
  pub prev_hash : Bytes
  pub hash : Bytes
  pub canonical_version : ℕ
  pub tenant_id : Bytes
  pub row_salt : Bytes
  pub commitments : Commitments

unfoldable pub validate_required_fields : Event → Result Error (Unit {0})
validate_required_fields e = do
  fail_if (is_empty e.id) id_required
  fail_if (e.at == 0) at_required
  fail_if (is_empty e.action) action_required

-- Nanoseconds from Go's zero time to the Unix epoch.
abbrev pub unix_epoch : ℕ
unix_epoch = 62135596800000000000

-- `t.UnixNano()`, as the bit pattern of the `int64`.
unfoldable pub unix_nano : ℕ → ℕ
unix_nano t = (t + 4 * u64 - unix_epoch) % u64
