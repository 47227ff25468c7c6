-- ===== src/Authz/Types.antt =====
-- authz/authz.go and authz/store.go: the questions, the decisions and the bindings. The text of a
-- decision's reason is left out: it must not be used for control flow.
use tamper.Prelude.{
  String, String_eq, String-dec, Bool, not, Eq, dec_pair, dec_via, ◌≡◌, List, if◌then◌else◌, Result,
  ok, err, ◌>>◌, arith,
}
use tamper.Tenant.Ident.{TenantId, TenantId-dec, valid}

pub data Error : Type 0 where
  tenant_required : Error
  unknown_action : Error
  invalid_policy : Error
  -- a store that failed
  store_failure : Error

pub record Subject : Type 0 where
  pub tenant : TenantId
  pub kind : String
  pub id : String

pub record Resource : Type 0 where
  pub kind : String
  pub id : String

-- `Resource{Type: t}`: the resource of a check on the whole type.
abbrev pub singleton : String → Resource
singleton t = record { kind = t; id = "" }

abbrev pub Action : Type 0
Action = String

abbrev pub Role : Type 0
Role = String

pub record Decision : Type 0 where
  pub allowed : Bool

pub record CheckRequest : Type 0 where
  pub subject : Subject
  pub action : Action
  pub resource : Resource

-- One effective grant of a role; `tenant` is the scope that it lives in.
pub record Binding : Type 0 where
  pub tenant : TenantId
  pub subject : Subject
  pub resource : Resource
  pub role : Role

pub Subject-fields :
    (a b : Subject)
    → ◌≡◌ {A = TenantId × (String × String)} (a.tenant, (a.kind, a.id)) (b.tenant, (b.kind, b.id))
    → a ≡ b
Subject-fields a b e = ground arith

unfoldable pub Subject-dec : Discrete Subject
unfolding dec_via dec_pair TenantId-dec String-dec
Subject-dec =
    dec_via (λ a. (a.tenant, (a.kind, a.id))) Subject-fields
      (dec_pair TenantId-dec (dec_pair String-dec String-dec))

instance abbrev pub Subject_eq : Eq Subject
Subject_eq = record { dec = Subject-dec }

pub Resource-fields :
    (a b : Resource) → ◌≡◌ {A = String × String} (a.kind, a.id) (b.kind, b.id) → a ≡ b
Resource-fields a b e = ground arith

unfoldable pub Resource-dec : Discrete Resource
unfolding dec_via dec_pair String-dec
Resource-dec = dec_via (λ a. (a.kind, a.id)) Resource-fields (dec_pair String-dec String-dec)

instance abbrev pub Resource_eq : Eq Resource
Resource_eq = record { dec = Resource-dec }

pub Binding-fields :
    (a b : Binding)
    → ◌≡◌ {A = TenantId × (Subject × (Resource × Role))}
        (a.tenant, (a.subject, (a.resource, a.role)))
        (b.tenant, (b.subject, (b.resource, b.role)))
    → a ≡ b
Binding-fields a b e = ground arith

unfoldable pub Binding-dec : Discrete Binding
unfolding dec_via dec_pair TenantId-dec Subject-dec Resource-dec String-dec
Binding-dec =
    dec_via (λ a. (a.tenant, (a.subject, (a.resource, a.role)))) Binding-fields
      (dec_pair TenantId-dec (dec_pair Subject-dec (dec_pair Resource-dec String-dec)))

instance abbrev pub Binding_eq : Eq Binding
Binding_eq = record { dec = Binding-dec }

-- A question has to name a scope.
unfoldable pub scope_gate : TenantId → Result Error (Unit {0})
scope_gate tenant_id = if not (valid tenant_id) then err tenant_required else ok tt

-- A question has to name a scope, and a subject with a home tenant.
unfoldable pub gate : TenantId → Subject → Result Error (Unit {0})
unfolding scope_gate
gate tenant_id sub = do
  scope_gate tenant_id
  if not (valid sub.tenant) then err tenant_required else ok tt

-- The port of the store of effective bindings.
pub record BindingStore : Type 0 where
  pub bindings_for : TenantId → Subject → Resource → Result Error (List Binding)
  pub bindings_for_subject : TenantId → Subject → String → Result Error (List Binding)
  pub bindings_on_resource : TenantId → Resource → Result Error (List Binding)
