-- ===== src/Tenant/Store/History.antt =====
-- The in-memory store of tenants under any sequence of its writes (tenant/memstore.go).
use tamper.Prelude.{
  String, String_eq, ◌==◌, ◌≡◌, ◌≢◌, inl, inr, Option-cases, Result-cases, List, [], ◌∷◌,
  if◌then◌else◌, Result, ok, err, arith,
}
use tamper.Prelude.Dict.{lookup}
use tamper.Tenant.Ident.{TenantId}
use tamper.Tenant.Errors.{Error, not_found}
use tamper.Tenant.Store.{
  Status, Descriptor, MemStore, empty_store, seed, by_id, by_slug, create, set_status,
}
use tamper.Tenant.Store.Consistency.{
  IsConsistent, empty-IsConsistent, seed-IsConsistent, create-IsConsistent, moved-IsConsistent,
  create-Created, set_status-Moved,
}

-- The writes of the store.
pub data Write : Type 0 where
  seeded : Descriptor → Write
  created : Descriptor → Write
  status_set : TenantId → Status → Write

-- A write that is refused leaves the store as it was.
abbrev pub after : MemStore → Result Error MemStore → MemStore
after m (ok m') = m'
after m (err e) = m

unfoldable pub apply : Write → MemStore → MemStore
apply (seeded d) m = seed d m
apply (created d) m = after m (create d m)
apply (status_set id status) m = after m (set_status id status m)

unfoldable pub run : List Write → MemStore → MemStore
run [] m = m
run (w ∷ ws) m = run ws (apply w m)

apply-IsConsistent : (w : Write) (m : MemStore) → IsConsistent m → IsConsistent (apply w m)
unfolding apply
apply-IsConsistent (seeded d) m c = seed-IsConsistent d m c
apply-IsConsistent (created d) m c = elim (Result-cases (create d m)) [
  | inl (m', e) ↦ rw e (create-IsConsistent d m c (create-Created d m e))
  | inr (x, e) ↦ rw e c
]
apply-IsConsistent (status_set id status) m c = elim (Result-cases (set_status id status m)) [
  | inl (m', e) ↦ rw e (moved-IsConsistent id status m c (set_status-Moved id status m e))
  | inr (x, e) ↦ rw e c
]

run-IsConsistent : (ws : List Write) (m : MemStore) → IsConsistent m → IsConsistent (run ws m)
unfolding run
run-IsConsistent [] m c = c
run-IsConsistent (w ∷ ws) m c = run-IsConsistent ws (apply w m) (apply-IsConsistent w m c)

by_slug_of-IsConsistent :
    (m : MemStore) (slug : String) {d : Descriptor}
    → IsConsistent m
    → by_slug m slug ≡ ok d
    → (slug ≢ "") × (d.slug ≡ slug) × (by_id m d.id ≡ (if d.id == "" then err not_found else ok d))
unfolding by_slug by_id
by_slug_of-IsConsistent m slug {d} c h = elim (Option-cases (lookup slug m.slug_to_id)) [
  | inl missing ↦ absurd (ground arith)
  | inr (i, at) ↦
      let (e, row, named) = c.named slug i at in
      let same : d ≡ e = ground arith in
      (ground arith, ground arith, ground (arith, c.keyed i e row))
]

-- After any history of writes, a tenant found by a slug holds that slug, which is not empty, and
-- is the row that its own identifier finds, unless that identifier is empty, which finds nothing.
pub run-by_slug :
    (ws : List Write) (slug : String) {d : Descriptor}
    → by_slug (run ws empty_store) slug ≡ ok d
    → (slug ≢ "")
      × (d.slug ≡ slug)
      × (by_id (run ws empty_store) d.id ≡ (if d.id == "" then err not_found else ok d))
run-by_slug ws slug h =
    by_slug_of-IsConsistent (run ws empty_store) slug
      (run-IsConsistent ws empty_store empty-IsConsistent) h
