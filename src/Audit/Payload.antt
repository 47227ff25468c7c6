-- ===== src/Audit/Payload.antt =====
-- audit/canonical_v4.go: the bytes that are hashed for an event. The personal data stands in them
-- as commitments.
pub mod Content
pub mod Injective
use tamper.Prelude.{if◌then◌else◌, is_empty, []}
use tamper.Audit.Bytes.{Bytes, append_string_field, append_bytes_field, append_int64_field}
use tamper.Audit.Event.{Event, Actor, actor_type_user, unix_nano}

-- `if t == "" { t = ActorTypeUser }`.
abbrev pub type_or_user : Bytes → Bytes
type_or_user t = if is_empty t then actor_type_user else t

unfoldable pub canonical_payload_v4 : Event → Bytes → Bytes
unfolding append_string_field append_bytes_field append_int64_field unix_nano
canonical_payload_v4 e prev_hash =
    let buf = append_string_field [] "id" e.id in
    let buf = append_int64_field buf "at" (unix_nano e.at) in
    let buf = append_string_field buf "actor.user_id" e.actor.user_id in
    let buf = append_bytes_field buf "actor.email" e.commitments.actor_email in
    let buf = append_bytes_field buf "actor.name" e.commitments.actor_name in
    let buf = append_bytes_field buf "actor.ip" e.commitments.actor_ip in
    let buf = append_string_field buf "actor.type" (type_or_user e.actor.actor_type) in
    let buf = append_string_field buf "action" e.action in
    let buf = append_string_field buf "resource_type" e.resource_type in
    let buf = append_string_field buf "resource_id" e.resource_id in
    let buf = append_string_field buf "request_id" e.request_id in
    let buf = append_string_field buf "tenant_id" e.tenant_id in
    let buf = append_string_field buf "actor.tenant_id" e.actor.home_tenant in
    let buf = append_bytes_field buf "before" e.commitments.before in
    let buf = append_bytes_field buf "after" e.commitments.after in
    append_bytes_field buf "prev_hash" prev_hash
