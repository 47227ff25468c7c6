-- ===== src/Tenant/Tests/Domains.antt =====
-- Domains and items that the three tenants inherit.
use tamper.Prelude.{
  In, All, ◌⊎◌, ◌==◌, if◌then◌else◌, ℕ, String, ℕ_eq, String_eq, true, false, ◌≡◌, refl, ◌↔◌, List,
  [], ◌∷◌, Result, ok, err, arith,
}
use tamper.Tenant.Ident.{to_string, TenantId, TenantId_eq}
use tamper.Tenant.Errors.{Error, not_found}
use tamper.Tenant.Store.{mem_as_store}
use tamper.Tenant.Hierarchy.{ancestors}
use tamper.Tenant.Inherited.{Inheritance, Answer, inherited-Answer}
use tamper.Tenant.Domain.{
  DomainRecord, DomainStore, require_normalised_domain, is_public_email_domain, resolve_domain,
}
use tamper.Tenant.Domain.Resolve.{
  IsNormalised, require_normalised_domain-IsNormalised, resolve_domain_ok,
}
use tamper.Tenant.DomainInherit.{DomainAuthority}
use tamper.Tenant.DomainInherit.Basis.{
  Basis, inherited_domain_authority-Basis, PassedOver, inherited_domain_authority_refused,
}
use tamper.Tenant.Tests.{program, acme, lab, bench, tenants}

-- The company's and the lab's claims.
abbrev claim_of_acme : DomainRecord
claim_of_acme = record {
  tenant_id = "acme";
  domain = "acme.com";
  verified = true;
  provider_id = "okta";
}

abbrev claim_of_lab : DomainRecord
claim_of_lab = record {
  tenant_id = "lab";
  domain = "labs.acme.com";
  verified = false;
  provider_id = "evil";
}

abbrev claims : DomainStore
claims = record {
  by_domain = λ d.
      if d == "acme.com"
      then ok claim_of_acme
      else if d == "labs.acme.com"
      then ok claim_of_lab
      else err not_found;
  list_for_tenant = λ i.
      if i == "acme"
      then ok (claim_of_acme ∷ [])
      else if i == "lab"
      then ok (claim_of_lab ∷ [])
      else ok [];
}

abbrev from_acme : DomainAuthority
from_acme = record { ancestor_id = acme; domain = "acme.com"; provider_id = "okta" }

inherited_domain_authority-Basis_example :
    (require_normalised_domain "x.labs.acme.com" ≡ ok tt)
    × (is_public_email_domain "x.labs.acme.com" ≡ false)
    × ((chain : List TenantId) × (ancestors (mem_as_store tenants) bench ≡ ok chain)
        × Basis claims "x.labs.acme.com" chain from_acme)
unfolding program
inherited_domain_authority-Basis_example =
    inherited_domain_authority-Basis (mem_as_store tenants) claims bench "x.labs.acme.com"
      {auth = from_acme} refl

resolve_domain_ok_example : (resolve_domain claims "acme.com" ≡ ok claim_of_acme) ↔ (
    IsNormalised "acme.com"
    × (is_public_email_domain "acme.com" ≡ false)
    × (claims.by_domain "acme.com" ≡ ok claim_of_acme)
    × (claim_of_acme.verified ≡ true))
resolve_domain_ok_example = resolve_domain_ok claims "acme.com" claim_of_acme

-- A vertical tab is let through.
vertical_tab : require_normalised_domain "a\u{b}b.com" ≡ ok tt
unfolding program
vertical_tab = refl

lab-IsNormalised : IsNormalised "labs.acme.com"
unfolding program
lab-IsNormalised = (require_normalised_domain-IsNormalised "labs.acme.com").0 refl

claims-miss : (d : String) (y : Error) → claims.by_domain d ≡ err y → y ≡ not_found
claims-miss d y h = ground arith

-- Only the company has an item, which it lends.
abbrev items : TenantId → Result Error (List ℕ)
items i = if i == acme then ok (7 ∷ []) else ok []

abbrev switches : Inheritance
switches i = ok (i == acme)

inherited-Answer_example : Answer items switches (lab ∷ acme ∷ []) (7 ∷ [])
unfolding program
inherited-Answer_example =
    inherited-Answer items (mem_as_store tenants) switches bench (lab ∷ acme ∷ []) {items = 7 ∷ []}
      refl refl refl

inherited_domain_authority_refused_example :
    ((not_found ≡ not_found) × All (PassedOver claims "x.org") (lab ∷ acme ∷ []))
    ⊎ ((a : TenantId) × In a (lab ∷ acme ∷ [])
        × (claims.list_for_tenant (to_string a) ≡ err not_found))
unfolding program
inherited_domain_authority_refused_example =
    inherited_domain_authority_refused (mem_as_store tenants) claims bench "x.org" (lab ∷ acme ∷ [])
      {x = not_found} refl refl refl refl
