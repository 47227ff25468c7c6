-- ===== src/Audit/Payload/Content.antt =====
-- What an event's hash is about.
use tamper.Prelude.{ℕ, ◌+◌, ◌<◌, ◌≤◌}
use tamper.Audit.Bytes.{Bytes}
use tamper.Audit.Bytes.Framing.{Short}
use tamper.Audit.Event.{Event, Commitments, unix_epoch}
use tamper.Audit.Payload.{type_or_user}

-- The fields of an event that the chain protects: all but the personal data, the salt and the
-- cluster.
pub record Content : Type 0 where
  pub id : Bytes
  pub at : ℕ
  pub actor_type : Bytes
  pub user_id : Bytes
  pub home_tenant : Bytes
  pub action : Bytes
  pub resource_type : Bytes
  pub resource_id : Bytes
  pub request_id : Bytes
  pub tenant_id : Bytes
  pub commitments : Commitments

unfoldable pub content : Event → Content
content e = record {
  id = e.id;
  at = e.at;
  actor_type = type_or_user e.actor.actor_type;
  user_id = e.actor.user_id;
  home_tenant = e.actor.home_tenant;
  action = e.action;
  resource_type = e.resource_type;
  resource_id = e.resource_id;
  request_id = e.request_id;
  tenant_id = e.tenant_id;
  commitments = e.commitments;
}

-- Every field is shorter than 4 GiB, and the time lies in the 584 years that its nanoseconds count.
pub record IsBounded (e : Event) : Type 0 where
  pub id : Short e.id
  pub actor_type : Short (type_or_user e.actor.actor_type)
  pub user_id : Short e.actor.user_id
  pub home_tenant : Short e.actor.home_tenant
  pub action : Short e.action
  pub resource_type : Short e.resource_type
  pub resource_id : Short e.resource_id
  pub request_id : Short e.request_id
  pub tenant_id : Short e.tenant_id
  pub actor_email : Short e.commitments.actor_email
  pub actor_name : Short e.commitments.actor_name
  pub actor_ip : Short e.commitments.actor_ip
  pub before : Short e.commitments.before
  pub after : Short e.commitments.after
  pub since : unix_epoch ≤ e.at + 9223372036854775808
  pub until : e.at < unix_epoch + 9223372036854775808
