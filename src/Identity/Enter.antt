-- ===== src/Identity/Enter.antt =====
-- identity/membership.go: `EnterTenant` against the list of `EnterableTenants`.
use tamper.Prelude.{
  subst, sym, ◌≡◌, ◌≢◌, ◌↔◌, ◌≟◌, String, String_eq, some, List, [], ◌∷◌, In, true, false,
  In-of_contains, contains_of_In, ok, arith,
}
use tamper.Prelude.Dict.{lookup}
use tamper.Tenant.Ident.{TenantId, TenantId_eq, to_string, from_stored, valid, is_single}
use tamper.Identity.Types.{User}
use tamper.Prelude.Sorting.{sort_by, sort_by-SameMembers}
use tamper.Identity.MemStore.{MemStore, is_member, members_of, user_by_id}
use tamper.Identity.Core.{tenant_gate, access_only, Core, TokenService}
use tamper.Identity.Membership.{
  text_before, enterable_tenants, AccessClaims, entered, lacks_context, not_enterable, enter_tenant,
  select_tenants,
}

-- A member tenant that is not the home tenant, and neither tenant is the single one.
abbrev IsOpen : TenantId → TenantId → List TenantId → Type 0
IsOpen home t members = In t members × (valid t ≡ true) × (is_single t ≡ false) × (t ≢ home)

select_tenants-IsOpen :
    (home t : TenantId) (seen ts : List TenantId)
    → ¬ In t seen
    → In t (select_tenants home seen ts) ↔ IsOpen home t ts
unfolding select_tenants
select_tenants-IsOpen home t seen [] n = ground arith
select_tenants-IsOpen home t seen (u ∷ ts) n = elim (t ≟ u) [
  | yes same ↦
      ground (
        arith,
        In-of_contains u seen,
        contains_of_In u seen,
        select_tenants-IsOpen home t seen ts n,
      )
  | no other ↦ ground (
    arith,
    In-of_contains u seen,
    select_tenants-IsOpen home t seen ts n,
    select_tenants-IsOpen home t (u ∷ seen) ts,
  )
]

-- The claims of a session of the user in its own tenant.
pub record IsOwn (user : User) (claims : AccessClaims) : Type 0 where
  pub subject : claims.subject ≢ ""
  pub home : claims.tenant_id ≡ user.tenant_id
  pub own : claims.home_tenant_id ≡ ""
  pub authenticated : claims.auth_time ≢ 0
  pub context : claims.acr ≢ ""

from_stored-v : (x : String) → to_string (from_stored x) ≡ x
unfolding from_stored to_string
from_stored-v x = ground arith

not_enterable_iff :
    (t : TenantId) (user : User) (claims : AccessClaims)
    → is_single (from_stored user.tenant_id) ≡ false
    → claims.tenant_id ≡ user.tenant_id
    → (not_enterable t claims user ≡ false)
      ↔ ((is_single t ≡ false) × (t ≢ from_stored user.tenant_id))
unfolding not_enterable
not_enterable_iff t user claims pooled home = ground (arith, from_stored-v user.tenant_id)

is_member-In :
    (user_id : String) (t : TenantId) (s : MemStore)
    → (is_member user_id t s ≡ true) ↔ In t (members_of user_id s)
unfolding is_member
is_member-In user_id t s =
    (In-of_contains t (members_of user_id s), contains_of_In t (members_of user_id s))

set_gate : (t : TenantId) → (tenant_gate t ≡ ok tt) ↔ (valid t ≡ true)
unfolding tenant_gate
set_gate t = ground arith

own_session :
    {user : User} {claims : AccessClaims}
    → IsOwn user claims
    → (entered claims ≡ false) × (lacks_context (some claims) ≡ false)
unfolding entered lacks_context
own_session own = ground arith

user_found :
    (id : String) (user : User) (s : MemStore)
    → lookup id s.users_by_id ≡ some user
    → user_by_id id s ≡ ok user
unfolding user_by_id
user_found id user s row = ground arith

module _ (c : Core) (s : MemStore) (service : TokenService) (claims : AccessClaims)
    (user : User) where
  -- Entering, where the token service issues what it is asked for.
  enter_tenant-IsOpen :
      (t : TenantId) (access : String)
      → c.memberships_on ≡ true
      → c.jwt ≡ some service
      → lookup claims.subject s.users_by_id ≡ some user
      → user.active ≡ true
      → is_single (from_stored user.tenant_id) ≡ false
      → IsOwn user claims
      → service.issue_access_entered claims.subject t
          (from_stored user.tenant_id)
          claims.auth_time
          claims.acr
          c.enter_ttl
        ≡ some access
      → ((enter_tenant c (some claims) t s).0 ≡ ok (access_only access))
        ↔ IsOpen (from_stored user.tenant_id) t (members_of claims.subject s)
  unfolding enter_tenant
  enter_tenant-IsOpen t access on jwt row active pooled own issues = ground (
    arith,
    own_session own,
    user_found claims.subject user s row,
    set_gate t,
    not_enterable_iff t user claims pooled own.home,
    is_member-In claims.subject t s,
  )

  listed :
      (tenants : List TenantId)
      → lookup claims.subject s.users_by_id ≡ some user
      → is_single (from_stored user.tenant_id) ≡ false
      → enterable_tenants c claims.subject s ≡ ok tenants
      → tenants
        ≡ sort_by text_before
            (select_tenants (from_stored user.tenant_id) [] (members_of claims.subject s))
  unfolding enterable_tenants
  listed tenants row pooled h = ground (arith, user_found claims.subject user s row)

  -- Of an active user whose home tenant is not the single one, the tenants that are listed are
  -- exactly those that a session of its own tenant may enter, where the token service issues what
  -- it is asked for.
  pub enterable_tenants-enter_tenant :
      (tenants : List TenantId) (t : TenantId) (access : String)
      → c.memberships_on ≡ true
      → c.jwt ≡ some service
      → lookup claims.subject s.users_by_id ≡ some user
      → user.active ≡ true
      → is_single (from_stored user.tenant_id) ≡ false
      → IsOwn user claims
      → service.issue_access_entered claims.subject t
          (from_stored user.tenant_id)
          claims.auth_time
          claims.acr
          c.enter_ttl
        ≡ some access
      → enterable_tenants c claims.subject s ≡ ok tenants
      → In t tenants ↔ ((enter_tenant c (some claims) t s).0 ≡ ok (access_only access))
  enterable_tenants-enter_tenant tenants t access on jwt row active pooled own issues h =
      let home = from_stored user.tenant_id in
      let members = members_of claims.subject s in
      let may = enter_tenant-IsOpen t access on jwt row active pooled own issues in
      let chosen = select_tenants-IsOpen home t [] members (λ x. x) in
      let sorted = sort_by-SameMembers text_before (select_tenants home [] members) t in
      let same = listed tenants row pooled h in
      (
        λ m. may.1 (chosen.0 (sorted.0 (subst (In t) same m))),
        λ e. subst (In t) (sym same) (sorted.1 (chosen.1 (may.0 e))),
      )
