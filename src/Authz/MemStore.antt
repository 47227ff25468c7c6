-- ===== src/Authz/MemStore.antt =====
-- authz/memstore.go: the in-memory store of bindings. The mutex makes each method one step.
pub mod Grants
use tamper.Prelude.{
  String, String_eq, Bool, not, ◌&&◌, ◌==◌, List, [], ◌∷◌, ◌++◌, contains, keep, if◌then◌else◌,
  Result, ok, err, ◌>>=◌, ◌>>◌,
}
use tamper.Tenant.Ident.{TenantId, TenantId_eq}
use tamper.Authz.Types.{
  Error, Subject, Subject_eq, Resource, Resource_eq, Binding, Binding_eq, gate, scope_gate,
  BindingStore,
}

pub record MemStore : Type 0 where
  pub bindings : List Binding

abbrev pub no_bindings : MemStore
no_bindings = record { bindings = [] }

unfoldable pub grant : Binding → MemStore → Result Error MemStore
grant b m = do
  gate b.tenant b.subject
  ok (if contains b m.bindings then m else record { bindings = m.bindings ++ b ∷ [] })

-- A seed that is refused panics in the source; here it is the error of the refusal.
unfoldable pub seeded : MemStore → List Binding → Result Error MemStore
seeded m [] = ok m
seeded m (b ∷ bs) = do m' ← grant b m; seeded m' bs

unfoldable pub new_mem_store : List Binding → Result Error MemStore
unfolding seeded
new_mem_store bs = seeded no_bindings bs

unfoldable pub revoke : Binding → MemStore → Result Error MemStore
revoke b m = do
  gate b.tenant b.subject
  ok (record { bindings = keep (λ existing. not (existing == b)) m.bindings })

unfoldable pub bindings_for : MemStore → TenantId → Subject → Resource → Result Error (List Binding)
bindings_for m tenant_id sub res = do
  gate tenant_id sub
  ok (keep (λ b. b.tenant == tenant_id && b.subject == sub && b.resource == res) m.bindings)

unfoldable pub bindings_for_subject :
    MemStore → TenantId → Subject → String → Result Error (List Binding)
bindings_for_subject m tenant_id sub resource_type = do
  gate tenant_id sub
  ok (
      keep
        (λ b.
          b.tenant == tenant_id
          && b.subject == sub
          && b.resource.kind == resource_type
          && not (b.resource.id == ""))
        m.bindings)

unfoldable pub bindings_on_resource : MemStore → TenantId → Resource → Result Error (List Binding)
bindings_on_resource m tenant_id res = do
  scope_gate tenant_id
  ok (keep (λ b. b.tenant == tenant_id && b.resource == res) m.bindings)

abbrev pub mem_as_store : MemStore → BindingStore
mem_as_store m = record {
  bindings_for = bindings_for m;
  bindings_for_subject = bindings_for_subject m;
  bindings_on_resource = bindings_on_resource m;
}
