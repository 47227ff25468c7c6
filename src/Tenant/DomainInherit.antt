-- ===== src/Tenant/DomainInherit.antt =====
-- tenant/domain_inherit.go: a domain claimed under a domain that an ancestor has verified.
pub mod Authority
pub mod Basis
use Prim.Native.String.{len}
use tamper.Prelude.{
  String, String_eq, Bool, false, not, ◌&&◌, ◌||◌, ◌==◌, List, [], ◌∷◌, if◌then◌else◌, ltb, Result,
  ok, err, ◌>>=◌, ◌>>◌, fail_if,
}
use tamper.Tenant.Ident.{TenantId, to_string}
use tamper.Tenant.Errors.{Error, not_found}
use tamper.Tenant.Store.{Store}
use tamper.Tenant.Hierarchy.{ancestors}
use tamper.Tenant.Domain.{
  DomainRecord, DomainStore, bound_provider_id, require_normalised_domain, is_public_email_domain,
  is_proper_subdomain,
}

pub record DomainAuthority : Type 0 where
  pub ancestor_id : TenantId
  pub domain : String
  pub provider_id : String

abbrev pub no_claim : DomainRecord
no_claim = record { tenant_id = ""; domain = ""; verified = false; provider_id = "" }

-- A claim that the loop does not pass over.
unfoldable pub eligible : String → DomainRecord → Bool
eligible domain claim = not (
    not claim.verified
    || is_public_email_domain claim.domain
    || not (is_proper_subdomain domain claim.domain))

-- The better of the best claim so far and the next: a longer domain, if the claim is eligible.
unfoldable pub better : String → DomainRecord → DomainRecord → DomainRecord
unfolding eligible
better domain best claim =
    if eligible domain claim && ltb (len best.domain) (len claim.domain) then claim else best

-- The loop over one ancestor's claims.
unfoldable pub pick : String → DomainRecord → List DomainRecord → DomainRecord
unfolding better
pick domain best [] = best
pick domain best (claim ∷ claims) = pick domain (better domain best claim) claims

-- The loop over the ancestors.
unfoldable pub search_chain : DomainStore → String → List TenantId → Result Error DomainAuthority
unfolding pick
search_chain domains domain [] = err not_found
search_chain domains domain (ancestor ∷ chain) =
    let rest = search_chain domains domain chain in
    domains.list_for_tenant (to_string ancestor) >>= λ claims.
    let best = pick domain no_claim claims in
    if best.domain == ""
    then rest
    else ok (record {
      ancestor_id = ancestor;
      domain = best.domain;
      provider_id = bound_provider_id best;
    })

unfoldable pub inherited_domain_authority :
    Store → DomainStore → TenantId → String → Result Error DomainAuthority
unfolding search_chain
inherited_domain_authority s domains tenant_id domain = do
  require_normalised_domain domain
  fail_if (is_public_email_domain domain) not_found
  chain ← ancestors s tenant_id
  search_chain domains domain chain
