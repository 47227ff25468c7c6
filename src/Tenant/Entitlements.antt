-- ===== src/Tenant/Entitlements.antt =====
-- tenant/entitlements.go and tenant/entitlement_inherit.go: what a tenant has purchased, and how
-- it is widened by what its ancestors purchased.
pub mod Union
pub mod Inheriting
use tamper.Prelude.{Bool, true, not, ◌&&◌, ◌||◌, List, [], ◌∷◌, if◌then◌else◌, Result, ok, ◌>>=◌}
use tamper.Prelude.Int.{ℤ, pos, int_lt, int_is_zero, int_le_zero}
use tamper.Tenant.Ident.{TenantId}
use tamper.Tenant.Errors.{Error}
use tamper.Tenant.Store.{Store}
use tamper.Tenant.Hierarchy.{ancestors}

pub record Entitlements : Type 0 where
  pub sso_enabled : Bool
  pub scim_enabled : Bool
  pub max_idp_connections : ℤ

unfoldable pub is_zero : Entitlements → Bool
is_zero e = not e.sso_enabled && not e.scim_enabled && int_is_zero e.max_idp_connections

unfoldable pub union_max_idp_connections : Entitlements → Entitlements → ℤ
unfolding is_zero
union_max_idp_connections e other =
    if is_zero e
    then other.max_idp_connections
    else if is_zero other
    then e.max_idp_connections
    else if int_le_zero e.max_idp_connections || int_le_zero other.max_idp_connections
    then pos 0
    else if int_lt other.max_idp_connections e.max_idp_connections
    then e.max_idp_connections
    else other.max_idp_connections

unfoldable pub union : Entitlements → Entitlements → Entitlements
unfolding union_max_idp_connections
union e other = record {
  sso_enabled = e.sso_enabled || other.sso_enabled;
  scim_enabled = e.scim_enabled || other.scim_enabled;
  max_idp_connections = union_max_idp_connections e other;
}

unfoldable pub allows_another_idp : Entitlements → ℤ → Bool
allows_another_idp e current =
    if int_le_zero e.max_idp_connections then true else int_lt current e.max_idp_connections

-- The plan lookup port.
abbrev pub EntitlementStore : Type 0
EntitlementStore = TenantId → Result Error Entitlements

-- The loop over the ancestors.
unfoldable pub widen : EntitlementStore → Entitlements → List TenantId → Result Error Entitlements
widen inner effective [] = ok effective
widen inner effective (a ∷ chain) = do
  inherited ← inner a
  widen inner (union effective inherited) chain

-- `inheriting.ForTenant`.
unfoldable pub for_tenant : EntitlementStore → Store → EntitlementStore
unfolding widen
for_tenant inner s id = do own ← inner id; chain ← ancestors s id; widen inner own chain
