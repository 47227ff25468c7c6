-- ===== src/Audit/Logger/Erasure.antt =====
-- Erasing the personal data of an event leaves the chain as it is.
use tamper.Prelude.{
  ℕ, zero, suc, ◌<◌, ◌≡◌, refl, ap, sym, subst, ◌∙◌, true, false-ne-true, List, [], ◌∷◌, length,
  ◌==◌, ℕ_eq, ◌&&◌, arith, In, inl, inr, Bool-cases,
}
use tamper.Prelude.Sorting.{sort_by, place}
use tamper.Audit.Redaction.{is_redacted}
use tamper.Audit.Bytes.{Bytes, Bytes_eq}
use tamper.Audit.Event.{Event, canonical_version_4}
use tamper.Audit.Payload.{canonical_payload_v4}
use tamper.Audit.Chain.{from_row, walk_rows, walk_chain}
use tamper.Audit.Chain.Linked.{Intact}
use tamper.Audit.Chain.Walks.{walk_chain-Intact}
use tamper.Audit.Logger.Order.{Ordered}
use tamper.Audit.Logger.{
  Table, row_before, list_events_for_verify, has_id, redact_row, redact_rows, redact_event, verify,
}

-- What the chain and the order of the rows are about.
record SameChain (r s : Event) : Type 0 where
  at : r.at ≡ s.at
  id : r.id ≡ s.id
  prev_hash : r.prev_hash ≡ s.prev_hash
  hash : r.hash ≡ s.hash
  version : r.canonical_version ≡ s.canonical_version
  payload : (p : Bytes) → canonical_payload_v4 (from_row r) p ≡ canonical_payload_v4 (from_row s) p

redact_row-SameChain : (id : Bytes) (r : Event) → SameChain (redact_row id r) r
unfolding redact_row canonical_payload_v4 from_row
redact_row-SameChain id r =
    elim (Bool-cases (r.id == id && r.canonical_version == canonical_version_4)) [
      | inl y ↦ rw y (record {
        at = refl;
        id = refl;
        prev_hash = refl;
        hash = refl;
        version = refl;
        payload = λ p. refl;
      })
      | inr n ↦ rw n (record {
        at = refl;
        id = refl;
        prev_hash = refl;
        hash = refl;
        version = refl;
        payload = λ p. refl;
      })
    ]

row_before-redact :
    (id : Bytes) (r s : Event) → row_before (redact_row id r) (redact_row id s) ≡ row_before r s
unfolding row_before
row_before-redact id r s =
    let a = redact_row-SameChain id r in
    let b = redact_row-SameChain id s in rw (a.at, b.at, a.version, b.version, a.id, b.id)

place-redact :
    (id : Bytes) (r : Event) (db : Table)
    → place row_before (redact_row id r) (redact_rows id db)
      ≡ redact_rows id (place row_before r db)
unfolding place redact_rows
place-redact id r [] = refl
place-redact id r (s ∷ db) = elim (Bool-cases (row_before s r)) [
  | inl y ↦ rw (row_before-redact id s r, y) (ap (◌∷◌ (redact_row id s)) (place-redact id r db))
  | inr n ↦ rw (row_before-redact id s r, n)
]

list-redact :
    (id : Bytes) (db : Table)
    → list_events_for_verify (redact_rows id db) ≡ redact_rows id (list_events_for_verify db)
unfolding list_events_for_verify sort_by redact_rows
list-redact id [] = refl
list-redact id (r ∷ db) = rw (list-redact id db) (place-redact id r (list_events_for_verify db))

pub length-redact : (id : Bytes) (rows : List Event) → length (redact_rows id rows) ≡ length rows
unfolding redact_rows
length-redact id [] = refl
length-redact id (r ∷ rows) = ap suc (length-redact id rows)

module _ (sha256 : Bytes → Bytes) where
  walk_rows-SameChain :
      (total i : ℕ) (prev : Bytes) (r s : Event) (rows others : List Event)
      → SameChain r s
      → walk_rows sha256 total (suc i) s.hash rows ≡ walk_rows sha256 total (suc i) s.hash others
      → walk_rows sha256 total i prev (r ∷ rows) ≡ walk_rows sha256 total i prev (s ∷ others)
  unfolding walk_rows
  walk_rows-SameChain total zero prev r s rows others c h = ground (arith, c.payload s.prev_hash)
  walk_rows-SameChain total (suc i) prev r s rows others c h = ground (arith, c.payload prev)

  walk_rows-redact :
      (id : Bytes) (total i : ℕ) (prev : Bytes) (rows : List Event)
      → walk_rows sha256 total i prev (redact_rows id rows) ≡ walk_rows sha256 total i prev rows
  unfolding redact_rows
  walk_rows-redact id total i prev [] = refl
  walk_rows-redact id total i prev (r ∷ rows) =
      walk_rows-SameChain total i prev (redact_row id r) r (redact_rows id rows) rows
        (redact_row-SameChain id r) (walk_rows-redact id total (suc i) r.hash rows)

  redact_rows-verify :
      (id : Bytes) (db : Table) → verify sha256 (redact_rows id db) ≡ verify sha256 db
  unfolding verify walk_chain
  redact_rows-verify id db =
      let rows = list_events_for_verify db in
      rw (list-redact id db, length-redact id rows) (walk_rows-redact id (length rows) 0 [] rows)

  -- An erasure changes no verdict of `Verify`, on an intact log or on another.
  pub redact_event-verify :
      (id : Bytes) (db : Table) → verify sha256 (redact_event id db).1 ≡ verify sha256 db
  unfolding redact_event
  redact_event-verify id db = elim (Bool-cases (has_id id db)) [
    | inl y ↦ rw y (redact_rows-verify id db)
    | inr n ↦ rw n
  ]

redact_rows-Ordered :
    (id : Bytes) (t : ℕ) (db : Table) → Ordered t db → Ordered t (redact_rows id db)
unfolding redact_rows
redact_rows-Ordered id t [] o = tt
redact_rows-Ordered id t (r ∷ db) o =
    let c = redact_row-SameChain id r in
    (
      subst (◌<◌ t) (sym c.at) o.0,
      subst (λ u. Ordered u (redact_rows id db)) (sym c.at) (redact_rows-Ordered id r.at db o.1),
    )

redact_rows-Intact :
    (sha256 : Bytes → Bytes) (id : Bytes) (db : Table)
    → Intact sha256 db
    → Intact sha256 (redact_rows id db)
unfolding walk_chain
redact_rows-Intact sha256 id db i = (walk_chain-Intact sha256 (redact_rows id db)).0 (
    rw (length-redact id db)
      (walk_rows-redact sha256 id (length db) 0 [] db ∙ (walk_chain-Intact sha256 db).1 i))

pub redact_event-Ordered :
    (id : Bytes) (t : ℕ) (db : Table) → Ordered t db → Ordered t (redact_event id db).1
unfolding redact_event
redact_event-Ordered id t db o = elim (Bool-cases (has_id id db)) [
  | inl y ↦ rw y (redact_rows-Ordered id t db o)
  | inr n ↦ rw n o
]

pub redact_event-Intact :
    (sha256 : Bytes → Bytes) (id : Bytes) (db : Table)
    → Intact sha256 db
    → Intact sha256 (redact_event id db).1
unfolding redact_event
redact_event-Intact sha256 id db i = elim (Bool-cases (has_id id db)) [
  | inl y ↦ rw y (redact_rows-Intact sha256 id db i)
  | inr n ↦ rw n i
]

-- Nothing of the personal data is left, and the commitments to it cannot be checked any more.
pub record IsErased (r : Event) : Type 0 where
  pub email : r.actor.email ≡ []
  pub name : r.actor.name ≡ []
  pub ip : r.actor.ip ≡ []
  pub before : r.before ≡ []
  pub after : r.after ≡ []
  pub redacted : is_redacted r.row_salt ≡ true

redact_row-IsErased :
    (id : Bytes) (r : Event)
    → r.id ≡ id
    → r.canonical_version ≡ canonical_version_4
    → IsErased (redact_row id r)
unfolding redact_row is_redacted
redact_row-IsErased id r a b = ground arith

redact_rows-IsErased :
    (id : Bytes) (r : Event) (db : Table)
    → In r (redact_rows id db)
    → r.id ≡ id
    → r.canonical_version ≡ canonical_version_4
    → IsErased r
unfolding redact_rows
redact_rows-IsErased id r [] m a b = absurd m
redact_rows-IsErased id r (s ∷ db) (inl e) a b =
    let c = redact_row-SameChain id s in
    subst IsErased (sym e) (
      redact_row-IsErased id s (sym c.id ∙ sym (ap (λ (x : Event). x.id) e) ∙ a)
        (sym c.version ∙ sym (ap (λ (x : Event). x.canonical_version) e) ∙ b))
redact_rows-IsErased id r (s ∷ db) (inr m) a b = redact_rows-IsErased id r db m a b

has_id-In : (id : Bytes) (r : Event) (db : Table) → In r db → r.id ≡ id → has_id id db ≡ true
unfolding has_id
has_id-In id r [] m a = absurd m
has_id-In id r (s ∷ db) (inl e) a = ground arith
has_id-In id r (s ∷ db) (inr m) a = ground (arith, has_id-In id r db m a)

-- An erasure changes no verdict of `Verify`, on an intact log or on a broken one, and afterwards
-- no row at version 4 with this id has personal data left; whether the id was there is the answer.
pub redact_event_lem :
    (sha256 : Bytes → Bytes) (id : Bytes) (db : Table)
    → (verify sha256 (redact_event id db).1 ≡ verify sha256 db)
      × ((r : Event)
          → In r (redact_event id db).1
          → r.id ≡ id
          → r.canonical_version ≡ canonical_version_4
          → IsErased r)
      × ((redact_event id db).0 ≡ has_id id db)
unfolding redact_event
redact_event_lem sha256 id db = elim (Bool-cases (has_id id db)) [
  | inl y ↦
      (redact_event-verify sha256 id db, rw y (λ r m a b. redact_rows-IsErased id r db m a b), rw y)
  | inr n ↦ (
    redact_event-verify sha256 id db,
    rw n (λ r m a b. absurd (false-ne-true (sym n ∙ has_id-In id r db m a))),
    rw n,
  )
]
