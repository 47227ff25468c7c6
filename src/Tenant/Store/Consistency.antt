-- ===== src/Tenant/Store/Consistency.antt =====
-- The in-memory store of tenants under any history of writes: its slug index names rows that are
-- there and hold the slug.
use tamper.Prelude.{
  String, String_eq, ◌==◌, ◌≟◌, ◌≡◌, ◌≢◌, ◌⊎◌, inl, inr, sym, subst, Option-cases, Option, none,
  some, if◌then◌else◌, ok, arith,
}
use tamper.Prelude.Dict.{lookup, insert, lookup-insert, lookup-delete}
use tamper.Tenant.Ident.{TenantId, to_string}
use tamper.Tenant.Store.{
  Status, Descriptor, MemStore, empty_store, retire, seed, create, set_status, check_status,
  check_writable_id,
}

pub record IsConsistent (m : MemStore) : Type 0 where
  pub named :
      (s id : String)
      → lookup s m.slug_to_id ≡ some id
      → (d : Descriptor) × (lookup id m.rows ≡ some d) × (d.slug ≡ s)
  pub keyed : (id : String) (d : Descriptor) → lookup id m.rows ≡ some d → d.id ≡ id

pub empty-IsConsistent : IsConsistent empty_store
unfolding lookup
empty-IsConsistent = record {
  named = λ s id h. absurd (ground arith);
  keyed = λ id d h. absurd (ground arith);
}

module _ (d : Descriptor) (m : MemStore) (c : IsConsistent m) where
  -- Retiring only removes: what is left was there.
  retired-kept :
      (prev : Option Descriptor) (s id : String)
      → lookup s (retire prev d m.slug_to_id) ≡ some id
      → lookup s m.slug_to_id ≡ some id
  unfolding retire
  retired-kept none s id h = h
  retired-kept (some prev) s id h = ground (arith, lookup-delete prev.slug s m.slug_to_id)

  -- No slug but the new one is left to the tenant.
  retired-other :
      (s id : String)
      → lookup s (retire (lookup d.id m.rows) d m.slug_to_id) ≡ some id
      → s ≢ d.slug
      → id ≢ d.id
  unfolding retire
  retired-other s id h n p =
      let old = retired-kept (lookup d.id m.rows) s id h in
      let (e, row, slug) = c.named s id old in ground (arith, lookup-delete e.slug s m.slug_to_id)

  seed-named :
      (s id : String)
      → lookup s (seed d m).slug_to_id ≡ some id
      → (e : Descriptor) × (lookup id (seed d m).rows ≡ some e) × (e.slug ≡ s)
  unfolding seed
  seed-named s id h =
      let slugs = retire (lookup d.id m.rows) d m.slug_to_id in
      elim (s ≟ d.slug) [
        | yes p ↦ (
          d,
          ground (arith, lookup-insert d.slug s d.id slugs, lookup-insert d.id id d m.rows),
          sym p,
        )
        | no p ↦
            let h' : lookup s slugs ≡ some id = ground (arith, lookup-insert d.slug s d.id slugs) in
            let old = retired-kept (lookup d.id m.rows) s id h' in
            let other = retired-other s id h' p in
            let (e, row, slug) = c.named s id old in
            (e, ground (arith, lookup-insert d.id id d m.rows), slug)
      ]

  pub seed-IsConsistent : IsConsistent (seed d m)
  unfolding seed
  seed-IsConsistent = record {
    named = seed-named;
    keyed = λ id e h. ground (arith, lookup-insert d.id id d m.rows, c.keyed id e);
  }

-- What a creation that succeeds has found, and what it writes.
pub record Created (d : Descriptor) (m m' : MemStore) : Type 0 where
  pub id_given : d.id ≢ ""
  pub status_known : check_status d.status ≡ ok tt
  pub id_free : lookup d.id m.rows ≡ none
  pub slug_free : d.slug ≢ "" → lookup d.slug m.slug_to_id ≡ none
  pub rows_after : m'.rows ≡ insert d.id d m.rows
  pub slugs_after :
      m'.slug_to_id ≡ (if d.slug == "" then m.slug_to_id else insert d.slug d.id m.slug_to_id)

pub create-Created :
    (d : Descriptor) (m : MemStore) {m' : MemStore} → create d m ≡ ok m' → Created d m m'
unfolding create
create-Created d m h = ground arith

module _ (d : Descriptor) (m : MemStore) {m' : MemStore} (c : IsConsistent m)
    (w : Created d m m') where
  create-named :
      (s id : String)
      → lookup s m'.slug_to_id ≡ some id
      → (e : Descriptor) × (lookup id m'.rows ≡ some e) × (e.slug ≡ s)
  create-named s id h = elim (create_slug_cases s id h) [
    | inl (p, q) ↦ (d, ground (arith, w.rows_after, lookup-insert d.id id d m.rows), p)
    | inr old ↦
        let (e, row, slug) = c.named s id old in
        (e, ground (arith, w.rows_after, w.id_free, lookup-insert d.id id d m.rows), slug)
  ]
    where
      create_slug_cases :
          (s id : String)
          → lookup s m'.slug_to_id ≡ some id
          → ((d.slug ≡ s) × (id ≡ d.id)) ⊎ (lookup s m.slug_to_id ≡ some id)
      create_slug_cases s id h =
          ground (arith, w.slugs_after, lookup-insert d.slug s d.id m.slug_to_id)

  pub create-IsConsistent : IsConsistent m'
  create-IsConsistent = record {
    named = create-named;
    keyed = λ id e h. ground (arith, w.rows_after, lookup-insert d.id id d m.rows, c.keyed id e);
  }

-- What a change of status that succeeds has found, and what it writes.
pub record Moved (id : TenantId) (status : Status) (m m' : MemStore) : Type 0 where
  pub old : Descriptor
  pub row : lookup (to_string id) m.rows ≡ some old
  pub id_writable : check_writable_id id ≡ ok tt
  pub status_known : check_status status ≡ ok tt
  pub rows_after : m'.rows ≡ insert (to_string id) (record old { status = status }) m.rows
  pub slugs_after : m'.slug_to_id ≡ m.slug_to_id

pub set_status-Moved :
    (id : TenantId) (status : Status) (m : MemStore) {m' : MemStore}
    → set_status id status m ≡ ok m'
    → Moved id status m m'
unfolding set_status
set_status-Moved id status m h = elim (Option-cases (lookup (to_string id) m.rows)) [
  | inl missing ↦ absurd (ground arith)
  | inr (old, row) ↦ record {
    old = old;
    row = row;
    id_writable = ground arith;
    status_known = ground arith;
    rows_after = ground arith;
    slugs_after = ground arith;
  }
]

module _ (id : TenantId) (status : Status) (m : MemStore) {m' : MemStore} (c : IsConsistent m)
    (w : Moved id status m m') where
  moved-named :
      (s i : String)
      → lookup s m'.slug_to_id ≡ some i
      → (e : Descriptor) × (lookup i m'.rows ≡ some e) × (e.slug ≡ s)
  moved-named s i h =
      let (e, row, slug) = c.named s i (subst (λ t. lookup s t ≡ some i) w.slugs_after h) in
      elim (i ≟ to_string id) [
        | yes p ↦ (
          record w.old { status = status },
          ground (
            arith,
            w.rows_after,
            lookup-insert (to_string id) i (record w.old { status = status }) m.rows,
          ),
          ground (arith, w.row),
        )
        | no p ↦ (
          e,
          ground (
            arith,
            w.rows_after,
            lookup-insert (to_string id) i (record w.old { status = status }) m.rows,
          ),
          slug,
        )
      ]

  pub moved-IsConsistent : IsConsistent m'
  moved-IsConsistent = record {
    named = moved-named;
    keyed = λ i e h. ground (
      arith,
      w.rows_after,
      w.row,
      lookup-insert (to_string id) i (record w.old { status = status }) m.rows,
      c.keyed i e,
      c.keyed (to_string id) w.old,
    );
  }
