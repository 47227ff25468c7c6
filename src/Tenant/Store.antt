-- ===== src/Tenant/Store.antt =====
-- tenant/tenant.go, tenant/store.go, tenant/memstore.go and the checks of tenant/admin.go: the
-- descriptor of a tenant, the read port, and the in-memory store with its write port. The mutex
-- makes each method one step; a map is a list of entries (Prelude/Dict.antt).

pub mod Consistency
pub mod History
pub mod Writes
use tamper.Prelude.{
  String, String_eq, Bool, not, ◌&&◌, ◌||◌, ◌==◌, Option, none, some, List, [], ◌∷◌, if◌then◌else◌,
  is_some, Result, ok, err, ◌>>=◌, ◌>>◌, fail_if,
}
use tamper.Prelude.Dict.{Dict, lookup, insert, delete}
use tamper.Prelude.Sorting.{sort_by, string_lt}
use tamper.Tenant.Ident.{TenantId, valid, is_single, to_string}
use tamper.Tenant.Errors.{Error, not_found, conflict, invalid_descriptor, single_tenant}

-- A status is the text that the application stores.
abbrev pub Status : Type 0
Status = String

abbrev pub status_active : Status
status_active = "active"

abbrev pub status_suspended : Status
status_suspended = "suspended"

abbrev pub status_pending : Status
status_pending = "pending"

pub record Descriptor : Type 0 where
  pub id : String
  pub slug : String
  pub parent_id : String
  pub status : Status

-- The read port.
pub record Store : Type 0 where
  pub by_id : String → Result Error Descriptor
  pub by_slug : String → Result Error Descriptor

pub record MemStore : Type 0 where
  pub rows : Dict String Descriptor
  pub slug_to_id : Dict String String

abbrev pub empty_store : MemStore
empty_store = record { rows = []; slug_to_id = [] }

-- `m.byID[id]`, with the zero descriptor for a missing key.
abbrev pub row_or_zero : Option Descriptor → Descriptor
row_or_zero (some d) = d
row_or_zero none = record { id = ""; slug = ""; parent_id = ""; status = "" }

-- `m.slugToID[slug] == id`, with the empty text for a missing key.
abbrev pub names : Option String → String → Bool
names (some i) id = i == id
names none id = "" == id

-- The slug that a renamed tenant gives up, if it still holds it.
unfoldable pub retire : Option Descriptor → Descriptor → Dict String String → Dict String String
retire none d slugs = slugs
retire (some prev) d slugs =
    if not (prev.slug == d.slug) && names (lookup prev.slug slugs) d.id
    then delete prev.slug slugs
    else slugs

unfoldable pub seed : Descriptor → MemStore → MemStore
unfolding retire
seed d m = record {
  rows = insert d.id d m.rows;
  slug_to_id = insert d.slug d.id (retire (lookup d.id m.rows) d m.slug_to_id);
}

-- A row that has to be there.
abbrev pub found : Option Descriptor → Result Error Descriptor
found (some d) = ok d
found none = err not_found

unfoldable pub by_id : MemStore → String → Result Error Descriptor
by_id m id = if id == "" then err not_found else found (lookup id m.rows)

unfoldable pub by_slug : MemStore → String → Result Error Descriptor
by_slug m slug = if slug == "" then err not_found else elim (lookup slug m.slug_to_id) [
  | none ↦ err not_found
  | some id ↦ ok (row_or_zero (lookup id m.rows))
]

abbrev pub mem_as_store : MemStore → Store
mem_as_store m = record { by_id = by_id m; by_slug = by_slug m }

-- The rows of an iteration over the map.
unfoldable pub row_values : Dict String Descriptor → List Descriptor
row_values [] = []
row_values ((i, d) ∷ m) = d ∷ row_values m

unfoldable pub list : MemStore → List Descriptor
list m = sort_by (λ d e. string_lt d.id e.id) (row_values m.rows)

unfoldable pub check_status : Status → Result Error (Unit {0})
check_status s =
    if s == status_active || s == status_suspended || s == status_pending
    then ok tt
    else err invalid_descriptor

unfoldable pub check_writable_id : TenantId → Result Error (Unit {0})
check_writable_id id =
    if not (valid id)
    then err invalid_descriptor
    else if is_single id
    then err single_tenant
    else ok tt

-- A refused call leaves the store as it was, so only a success carries a store.
unfoldable pub create : Descriptor → MemStore → Result Error MemStore
unfolding check_status
create d m = do
  fail_if (d.id == "") single_tenant
  check_status d.status
  fail_if (is_some (lookup d.id m.rows)) conflict
  fail_if (not (d.slug == "") && is_some (lookup d.slug m.slug_to_id)) conflict
  ok (record {
    rows = insert d.id d m.rows;
    slug_to_id = if d.slug == "" then m.slug_to_id else insert d.slug d.id m.slug_to_id;
  })

unfoldable pub set_status : TenantId → Status → MemStore → Result Error MemStore
unfolding check_status check_writable_id
set_status id status m = do
  check_writable_id id
  check_status status
  d ← found (lookup (to_string id) m.rows)
  ok (record m { rows = insert (to_string id) (record d { status = status }) m.rows })
