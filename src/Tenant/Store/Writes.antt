-- ===== src/Tenant/Store/Writes.antt =====
-- What the two fallible writes of the in-memory store of tenants do (tenant/memstore.go).
use tamper.Prelude.{String, String_eq, ◌==◌, ◌≡◌, ◌≢◌, none, if◌then◌else◌, ok, err, arith}
use tamper.Prelude.Dict.{lookup, insert, lookup-insert}
use tamper.Tenant.Ident.{TenantId, to_string, valid, is_single}
use tamper.Tenant.Errors.{conflict}
use tamper.Tenant.Store.{
  Status, Descriptor, MemStore, by_id, create, set_status, check_status, check_writable_id,
}
use tamper.Tenant.Store.Consistency.{create-Created, set_status-Moved}

-- A creation that meets its conditions succeeds.
create_of_conditions :
    (d : Descriptor) (m : MemStore)
    → d.id ≢ ""
    → check_status d.status ≡ ok tt
    → lookup d.id m.rows ≡ none
    → (d.slug ≢ "" → lookup d.slug m.slug_to_id ≡ none)
    → (m' : MemStore) × (create d m ≡ ok m')
unfolding create
create_of_conditions d m i s f g = (
  record {
    rows = insert d.id d m.rows;
    slug_to_id = if d.slug == "" then m.slug_to_id else insert d.slug d.id m.slug_to_id;
  },
  ground arith,
)

-- After a creation, the new row is found, every other row is as it was, and the same creation
-- is refused as a conflict.
pub create_effect :
    (d : Descriptor) (m : MemStore) {m' : MemStore} (id : String)
    → create d m ≡ ok m'
    → (by_id m' id ≡ (if id == d.id then ok d else by_id m id)) × (create d m' ≡ err conflict)
unfolding by_id create
create_effect d m id h =
    let w = create-Created d m h in
    (
      ground (arith, w.rows_after, w.id_given, lookup-insert d.id id d m.rows),
      ground (arith, w.rows_after, w.id_given, w.status_known, lookup-insert d.id d.id d m.rows),
    )

writable-given : (id : TenantId) → check_writable_id id ≡ ok tt → to_string id ≢ ""
unfolding check_writable_id valid is_single to_string
writable-given id h e = ground arith

-- A change of status writes the status of that tenant and nothing else: its other fields, every
-- other row and every slug are as they were, and the same change succeeds again.
pub set_status_effect :
    (id : TenantId) (status : Status) (m : MemStore) {m' : MemStore} (j : String)
    → set_status id status m ≡ ok m'
    → (old : Descriptor) × (by_id m (to_string id) ≡ ok old)
      × (by_id m' j
          ≡ (if j == to_string id then ok (record old { status = status }) else by_id m j))
      × (m'.slug_to_id ≡ m.slug_to_id)
unfolding by_id
set_status_effect id status m j h =
    let w = set_status-Moved id status m h in
    let given = writable-given id w.id_writable in
    let row = record w.old { status = status } in
    (
      w.old,
      ground (arith, w.row),
      ground (arith, w.rows_after, lookup-insert (to_string id) j row m.rows),
      w.slugs_after,
    )
