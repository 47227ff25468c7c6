-- ===== src/Audit/Payload/Injective.antt =====
-- The payload determines what it encodes: no two events that differ in a protected field have the
-- same bytes.
use Prim.Native.Nat.{◌%◌}
use tamper.Prelude.{ℕ, ◌+◌, ◌<◌, ◌≤◌, ◌≡◌, refl, sym, ap, ◌∙◌, List, [], ◌∷◌, ◌++◌, All, arith}
use mathlib.Core.List.{append-nil}
use tamper.Audit.Bytes.{Bytes, bytes_of, append_lp, append_string_field, big_endian, u64}
use tamper.Audit.Bytes.Framing.{
  Short, frame, frame-inj, frame-nil, append_lp-frame, length-big_endian, big_endian_8-inj,
}
use tamper.Audit.Event.{Event, unix_epoch, unix_nano}
use tamper.Audit.Payload.{canonical_payload_v4, type_or_user}
use tamper.Audit.Payload.Content.{content, IsBounded}

string_field-frame :
    (dst v : Bytes) (name : _) (vs : List Bytes)
    → append_string_field dst name v ++ frame vs ≡ dst ++ frame (bytes_of name ∷ v ∷ vs)
unfolding append_string_field
string_field-frame dst v name vs =
    append_lp-frame (append_lp dst (bytes_of name)) v vs
    ∙ append_lp-frame dst (bytes_of name) (v ∷ vs)

abbrev last : List Bytes → Bytes
last [] = []
last (v ∷ []) = v
last (v ∷ w ∷ vs) = last (w ∷ vs)

-- The values of the payload, with their names.
abbrev values : Event → Bytes → List Bytes
values e prev_hash =
    bytes_of "id"
    ∷ e.id
    ∷ bytes_of "at"
    ∷ big_endian 8 (unix_nano e.at % u64)
    ∷ bytes_of "actor.user_id"
    ∷ e.actor.user_id
    ∷ bytes_of "actor.email"
    ∷ e.commitments.actor_email
    ∷ bytes_of "actor.name"
    ∷ e.commitments.actor_name
    ∷ bytes_of "actor.ip"
    ∷ e.commitments.actor_ip
    ∷ bytes_of "actor.type"
    ∷ type_or_user e.actor.actor_type
    ∷ bytes_of "action"
    ∷ e.action
    ∷ bytes_of "resource_type"
    ∷ e.resource_type
    ∷ bytes_of "resource_id"
    ∷ e.resource_id
    ∷ bytes_of "request_id"
    ∷ e.request_id
    ∷ bytes_of "tenant_id"
    ∷ e.tenant_id
    ∷ bytes_of "actor.tenant_id"
    ∷ e.actor.home_tenant
    ∷ bytes_of "before"
    ∷ e.commitments.before
    ∷ bytes_of "after"
    ∷ e.commitments.after
    ∷ bytes_of "prev_hash"
    ∷ prev_hash
    ∷ []

payload_before_nothing :
    (e : Event) (prev_hash : Bytes)
    → canonical_payload_v4 e prev_hash ++ frame [] ≡ frame (values e prev_hash)
unfolding canonical_payload_v4
payload_before_nothing e p = simp string_field-frame

pub payload-frame :
    (e : Event) (prev_hash : Bytes) → canonical_payload_v4 e prev_hash ≡ frame (values e prev_hash)
payload-frame e p =
    sym (append-nil _)
    ∙ sym (ap (λ end. canonical_payload_v4 e p ++ end) frame-nil)
    ∙ payload_before_nothing e p

unix_nano-inj :
    (s t : ℕ)
    → unix_epoch ≤ s + 9223372036854775808
    → s < unix_epoch + 9223372036854775808
    → unix_epoch ≤ t + 9223372036854775808
    → t < unix_epoch + 9223372036854775808
    → unix_nano s % u64 ≡ unix_nano t % u64
    → s ≡ t
unfolding unix_nano
unix_nano-inj s t a b c d e = omega arith

values-Short : (e : Event) (p : Bytes) → IsBounded e → Short p → All Short (values e p)
values-Short e p b q = ground (arith, length-big_endian 8 (unix_nano e.at % u64))

-- Two events whose payloads are the same bytes agree in every protected field and in the hash they
-- follow, where fields are shorter than 4 GiB and times lie in the range of UnixNano.
pub canonical_payload_v4-inj :
    (e f : Event) (p q : Bytes)
    → IsBounded e
    → IsBounded f
    → Short p
    → Short q
    → canonical_payload_v4 e p ≡ canonical_payload_v4 f q
    → (content e ≡ content f) × (p ≡ q)
unfolding content
canonical_payload_v4-inj e f p q b c short_p short_q same =
    let same_values =
      frame-inj (values e p) (values f q) (values-Short e p b short_p) (values-Short f q c short_q)
        refl (sym (payload-frame e p) ∙ same ∙ payload-frame f q) in
    let clock : big_endian 8 (unix_nano e.at % u64) ≡ big_endian 8 (unix_nano f.at % u64) = cc in
    let at_same = unix_nano-inj e.at f.at b.since b.until c.since c.until (
      big_endian_8-inj (unix_nano e.at % u64) (unix_nano f.at % u64) (omega arith) (omega arith)
        clock) in
    (cc, ap last same_values)
