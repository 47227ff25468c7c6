-- ===== src/Audit/Logger/Append.antt =====
-- A row that `Log` writes continues the chain.
use tamper.Prelude.{◌≡◌, refl, ap, sym, subst, ◌∙◌, some, [], ◌∷◌, ◌++◌, length, arith}
use tamper.Audit.Bytes.{Bytes}
use tamper.Audit.Event.{Event, hash_size, canonical_version_4}
use tamper.Audit.Payload.{canonical_payload_v4, type_or_user}
use tamper.Audit.Redaction.{compute_commitments}
use tamper.Audit.Chain.{from_row, hash_chain_link}
use tamper.Audit.Chain.Linked.{Follows, Linked, Intact, final_hash}
use tamper.Audit.Chain.Evidence.{hash_length}
use tamper.Audit.Logger.{Table, latest_hash_from, chained, genesis}
use tamper.Audit.Logger.Order.{Ordered, last_row, latest-Ordered}

type_or_user_idem : (t : Bytes) → type_or_user (type_or_user t) ≡ type_or_user t
type_or_user_idem t = ground arith

-- Reading a row back changes nothing that is hashed.
pub payload-from_row :
    (e : Event) (p : Bytes) → canonical_payload_v4 (from_row e) p ≡ canonical_payload_v4 e p
unfolding canonical_payload_v4 from_row
payload-from_row e p = rw (type_or_user_idem e.actor.actor_type)

module _ (sha256 : Bytes → Bytes) where
  pub payload-chained :
      (salt prev : Bytes) (e : Event)
      → canonical_payload_v4 (chained sha256 salt prev e) prev
        ≡ canonical_payload_v4
            (record e { row_salt = salt; commitments = compute_commitments sha256 salt e })
            prev
  unfolding canonical_payload_v4 chained
  payload-chained salt prev e = refl

  pub chained-Follows :
      (salt prev : Bytes) (e : Event)
      → e.canonical_version ≡ canonical_version_4
      → Follows sha256 prev (chained sha256 salt prev e)
  unfolding chained
  chained-Follows salt prev e v = record {
    prev_hash = refl;
    version = v;
    hash =
        ap (hash_chain_link sha256 prev)
          (sym (payload-from_row (chained sha256 salt prev e) prev ∙ payload-chained salt prev e));
  }

  Linked-append :
      (p : Bytes) (db : Table) (r : Event)
      → Linked sha256 p db
      → Follows sha256 (final_hash p db) r
      → Linked sha256 p (db ++ r ∷ [])
  Linked-append p [] r l f = (f, tt)
  Linked-append p (s ∷ db) r l f = (l.0, Linked-append s.hash db r l.1 f)

  pub Intact-append :
      (db : Table) (r : Event)
      → Intact sha256 db
      → Follows sha256 (final_hash genesis db) r
      → Intact sha256 (db ++ r ∷ [])
  Intact-append [] r l f = (
    record {
      prev_hash = refl;
      version = f.version;
      hash =
          subst (λ p. r.hash ≡ hash_chain_link sha256 p (canonical_payload_v4 (from_row r) p))
            (sym f.prev_hash) f.hash;
    },
    tt,
  )
  Intact-append (s ∷ db) r l f = Linked-append s.prev_hash (s ∷ db) r l f

  last_hash :
      ((x : Bytes) → length (sha256 x) ≡ hash_size)
      → (p : Bytes) (r : Event) (db : Table) → Linked sha256 p (r ∷ db)
      → (s : Event) × (last_row (r ∷ db) ≡ some s)
        × (s.hash ≡ final_hash p (r ∷ db))
        × (length s.hash ≡ hash_size)
  last_hash size p r [] l = (r, refl, refl, hash_length sha256 size p r l.0)
  last_hash size p r (s ∷ db) l = last_hash size r.hash s db l.1

  -- The hash that `Log` reads is the one that the chain ends in.
  pub latest_hash_from-final_hash :
      ((x : Bytes) → length (sha256 x) ≡ hash_size)
      → (db : Table) → Ordered 0 db
      → Intact sha256 db
      → latest_hash_from db ≡ final_hash genesis db
  unfolding latest_hash_from
  latest_hash_from-final_hash size [] o i = ground (arith, latest-Ordered 0 [] o)
  latest_hash_from-final_hash size (r ∷ db) o i =
      let (s, at_end, same, long) = last_hash size r.prev_hash r db i in
      ground (arith, latest-Ordered 0 (r ∷ db) o)
