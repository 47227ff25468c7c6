-- ===== src/Audit/Chain/Personal.antt =====
-- The commitments bind the personal data that stands beside them.
use Prim.Native.Nat.{◌%◌}
use tamper.Prelude.{
  ◌≡◌, ◌∙◌, sym, ◌⊎◌, inl, inr, String, true, [], ◌++◌, length, length-append, ◌≟◌, ok, arith,
}
use tamper.Audit.Bytes.{Bytes, Bytes_eq, bytes_of, append_lp, big_endian, bytes_equal_iff, u32}
use tamper.Audit.Bytes.Framing.{append-inj, length-big_endian}
use tamper.Audit.Event.{Event}
use tamper.Audit.Redaction.{commit, compute_commitments, verify_commitments}
use tamper.Audit.Chain.Linked.{Collision}

-- The same personal data and the same salt.
pub record SamePerson (e f : Event) : Type 0 where
  salt : e.row_salt ≡ f.row_salt
  email : e.actor.email ≡ f.actor.email
  name : e.actor.name ≡ f.actor.name
  ip : e.actor.ip ≡ f.actor.ip
  before : e.before ≡ f.before
  after : e.after ≡ f.after

append_lp-inj : (dst v w : Bytes) → append_lp dst v ≡ append_lp dst w → v ≡ w
unfolding append_lp
append_lp-inj dst v w e =
    let a = big_endian 4 (length v % u32) in
    let b = big_endian 4 (length w % u32) in
    (append-inj (dst ++ a) (dst ++ b) v w
      (omega (
        arith,
        length-append dst a,
        length-append dst b,
        length-big_endian 4 (length v % u32),
        length-big_endian 4 (length w % u32),
      ))
      e).1

module _ (sha256 : Bytes → Bytes) where
  commit-inj :
      (s t : Bytes) (field : String) (v w : Bytes)
      → length s ≡ length t
      → commit sha256 s field v ≡ commit sha256 t field w
      → ((s ≡ t) × (v ≡ w)) ⊎ Collision sha256
  unfolding commit
  commit-inj s t field v w l e =
      let head = append_lp [] (bytes_of field) in
      elim ((s ++ append_lp head v) ≟ (t ++ append_lp head w)) [
        | yes same ↦
            let (salts, rest) = append-inj s t (append_lp head v) (append_lp head w) l same in
            inl (salts, append_lp-inj head v w rest)
        | no differ ↦ inr (s ++ append_lp head v, t ++ append_lp head w, differ, e)
      ]

  -- What a check that passes says.
  verify_commitments-eq :
      (e : Event)
      → verify_commitments sha256 e ≡ ok true
      → e.commitments ≡ compute_commitments sha256 e.row_salt e
  unfolding verify_commitments
  verify_commitments-eq e h = ground (
    arith,
    bytes_equal_iff e.commitments.actor_email
        (commit sha256 e.row_salt "actor.email" e.actor.email),
    bytes_equal_iff e.commitments.actor_name (commit sha256 e.row_salt "actor.name" e.actor.name),
    bytes_equal_iff e.commitments.actor_ip (commit sha256 e.row_salt "actor.ip" e.actor.ip),
    bytes_equal_iff e.commitments.before (commit sha256 e.row_salt "before" e.before),
    bytes_equal_iff e.commitments.after (commit sha256 e.row_salt "after" e.after),
  )

  field-inj :
      (e f : Event) (name : String) (v w c d : Bytes)
      → length e.row_salt ≡ length f.row_salt
      → c ≡ commit sha256 e.row_salt name v
      → d ≡ commit sha256 f.row_salt name w
      → c ≡ d
      → ((e.row_salt ≡ f.row_salt) × (v ≡ w)) ⊎ Collision sha256
  field-inj e f name v w c d l p q same =
      commit-inj e.row_salt f.row_salt name v w l (sym p ∙ same ∙ q)

  -- Two rows with the same commitments that both pass `VerifyCommitments`, with salts of one
  -- length, hold the same personal data and the same salt, or else a collision of SHA-256 has been
  -- found.
  pub verify_commitments-binding :
      (e f : Event)
      → verify_commitments sha256 e ≡ ok true
      → verify_commitments sha256 f ≡ ok true
      → e.commitments ≡ f.commitments
      → length e.row_salt ≡ length f.row_salt
      → SamePerson e f ⊎ Collision sha256
  unfolding compute_commitments
  verify_commitments-binding e f p q same l =
      let a = verify_commitments-eq e p in
      let b = verify_commitments-eq f q in
      ground (
        arith,
        field-inj e f "actor.email" e.actor.email f.actor.email e.commitments.actor_email
            f.commitments.actor_email,
        field-inj e f "actor.name" e.actor.name f.actor.name e.commitments.actor_name
            f.commitments.actor_name,
        field-inj e f "actor.ip" e.actor.ip f.actor.ip e.commitments.actor_ip
            f.commitments.actor_ip,
        field-inj e f "before" e.before f.before e.commitments.before f.commitments.before,
        field-inj e f "after" e.after f.after e.commitments.after f.commitments.after,
      )
