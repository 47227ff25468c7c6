-- ===== src/Tenant/Tests.antt =====
-- A hierarchy of three tenants, and the package `tenant` on it.
mod Domains
use Prim.Native.String.{◌++◌}
use tamper.Prelude.{
  ◌==◌, All, if◌then◌else◌, ℕ, String, String-dec, ℕ_eq, String_eq, contains, any_char, has_prefix,
  has_suffix, Bool, true, false, ◌≡◌, ◌≢◌, refl, sym, ap, ◌∙◌, inl, inr, none, some, List, [], ◌∷◌,
  Result, ok, err, ◌>>=◌, ◌>>◌, arith,
}
use native.Mathlib.Decide.{ℕ_discrete}
use tamper.Prelude.Int.{pos}
use tamper.Prelude.Dict.{lookup, insert, delete}
use tamper.Tenant.Ident.{
  TenantId, TenantId-dec, TenantId_eq, single, new, valid, is_single, to_string, from_stored, unset,
}
use tamper.Tenant.Errors.{Error, not_found, conflict, hierarchy_cycle, hierarchy_dangling}
use tamper.Tenant.Store.{
  Descriptor, Store, MemStore, empty_store, seed, by_id, by_slug, list, create, set_status,
  mem_as_store, status_active, status_suspended,
}
use tamper.Tenant.Store.History.{Write, seeded, created, status_set, apply, run, run-by_slug}
use tamper.Tenant.Store.Writes.{create_effect, set_status_effect}
use tamper.Tenant.Hierarchy.{ancestors}
use tamper.Tenant.Hierarchy.Verdict.{IsChain, Verdict, ancestors-Verdict, ancestors-IsChain}
use tamper.Tenant.Entitlements.{Entitlements, is_zero, union, EntitlementStore, for_tenant}
use tamper.Tenant.Entitlements.Union.{IsSound, nothing, negative, union_comm, union-negative}
use tamper.Tenant.Entitlements.Inheriting.{Granted, for_tenant-Granted}
use tamper.Tenant.Inherited.{
  Inheritance, lend, inherited, HaveNothing, Answer, inherited_own, inherited-Answer,
  inherited_walk_error,
}
use tamper.Tenant.Domain.{
  DomainRecord, DomainStore, require_normalised_domain, is_public_email_domain, resolve_domain,
  is_proper_subdomain, bound_provider_id,
}
use tamper.Tenant.Domain.Resolve.{
  IsNormalised, require_normalised_domain-IsNormalised, resolve_domain_ok, resolve_domain_hides,
  is_proper_subdomain_iff,
}
use tamper.Tenant.DomainInherit.{
  DomainAuthority, eligible, better, pick, search_chain, inherited_domain_authority,
}
use tamper.Tenant.DomainInherit.Basis.{Basis, inherited_domain_authority-Basis}
use tamper.Tenant.Ident.{from_stored_roundtrip, new_denies_empty}

pub program : Unit {0}
unfolding new valid is_single to_string from_stored seed by_id by_slug list create set_status run
    ancestors is_zero union for_tenant lend inherited is_public_email_domain resolve_domain
    require_normalised_domain is_proper_subdomain search_chain inherited_domain_authority
    bound_provider_id pick better eligible String-dec TenantId-dec lookup insert delete contains
    apply any_char has_prefix has_suffix ℕ_discrete
program = tt

abbrev node : String → String → Descriptor
node id parent = record { id = id; slug = id; parent_id = parent; status = status_active }

abbrev writes : List Write
writes =
    created (node "acme" "")
    ∷ created (node "lab" "acme")
    ∷ seeded (node "bench" "lab")
    ∷ status_set (new "lab") status_suspended
    ∷ created (node "lab" "")
    ∷ []

abbrev pub tenants : MemStore
tenants = run writes empty_store

abbrev pub acme : TenantId
acme = record { v = "acme"; set = true }

abbrev pub lab : TenantId
lab = record { v = "lab"; set = true }

abbrev pub bench : TenantId
bench = record { v = "bench"; set = true }

abbrev suspended_lab : Descriptor
suspended_lab = record (node "lab" "acme") { status = status_suspended }

-- A hierarchy whose two tenants are each other's parent, and a child of an unknown one.
abbrev pub loop : MemStore
loop = seed (node "a" "b") (seed (node "b" "a") (seed (node "c" "gone") empty_store))

walks :
    (ancestors (mem_as_store tenants) bench ≡ ok (lab ∷ acme ∷ []))
    × (ancestors (mem_as_store tenants) single ≡ ok [])
    × (ancestors (mem_as_store loop) (new "a") ≡ err hierarchy_cycle)
    × (ancestors (mem_as_store loop) (new "c") ≡ err (hierarchy_dangling not_found))
unfolding program
walks = (refl, refl, refl, refl)

run-by_slug_example :
    (◌≢◌ {A = String} "lab" "")
    × (◌≡◌ {A = String} "lab" "lab")
    × (by_id tenants "lab" ≡ ok suspended_lab)
unfolding program
run-by_slug_example = run-by_slug writes "lab" {d = suspended_lab} refl

ancestors-Verdict_example :
    Verdict (mem_as_store loop) (new "a") (ancestors (mem_as_store loop) (new "a"))
unfolding program
ancestors-Verdict_example = ancestors-Verdict (mem_as_store loop) (new "a") refl refl

-- The lab bought single sign-on for two providers, the company user provisioning for five, and
-- the bench nothing.
abbrev plans : EntitlementStore
plans i =
    if i == lab
    then ok (record { sso_enabled = true; scim_enabled = false; max_idp_connections = pos 2 })
    else if i == acme
    then ok (record { sso_enabled = false; scim_enabled = true; max_idp_connections = pos 5 })
    else ok nothing

plans-IsSound : (i : TenantId) (r : Entitlements) → plans i ≡ ok r → IsSound r
plans-IsSound i r h = ground arith

abbrev both : Entitlements
both = record { sso_enabled = true; scim_enabled = true; max_idp_connections = pos 5 }

for_tenant-Granted_example :
    (chain : List TenantId) × (ancestors (mem_as_store tenants) bench ≡ ok chain)
    × All (Granted plans both) (bench ∷ chain)
unfolding program
for_tenant-Granted_example =
    for_tenant-Granted plans plans-IsSound (mem_as_store tenants) bench {g = both} refl

abbrev two_idps : Entitlements
two_idps = record both { max_idp_connections = pos 2 }
