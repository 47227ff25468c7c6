-- ===== src/Tenant/DomainInherit/Basis.antt =====
-- What an inherited authority over a domain rests on (tenant/domain_inherit.go).
use Prim.Native.String.{len}
use tamper.Prelude.{
  ℕ, ◌≤◌, String, String_eq, true, false, ◌≟◌, ◌≡◌, ◌≢◌, refl, ap, subst, inl, inr, List, [], ◌∷◌,
  ◌++◌, In, All, ok, err, Result-cases, ◌⊎◌, fail_if, >>=-eq-ok, arith,
}
use tamper.Tenant.Ident.{TenantId, to_string}
use tamper.Tenant.Errors.{Error, not_found}
use tamper.Tenant.Store.{Store}
use tamper.Tenant.Hierarchy.{ancestors}
use tamper.Tenant.Domain.{
  DomainRecord, DomainStore, bound_provider_id, require_normalised_domain, is_public_email_domain,
}
use tamper.Tenant.DomainInherit.{
  DomainAuthority, no_claim, eligible, pick, search_chain, inherited_domain_authority,
}
use tamper.Tenant.DomainInherit.Authority.{
  Confers, Confers-eligible, eligible-Confers, pick-In, pick-longest, nothing_eligible,
}

-- The ancestor's claims were read, and none of them confers authority over the domain.
abbrev pub PassedOver : DomainStore → String → TenantId → Type 0
PassedOver domains domain a =
    (cs : List DomainRecord) × (domains.list_for_tenant (to_string a) ≡ ok cs)
    × All (λ c. ¬ Confers domain c) cs

-- What an authority rests on: an ancestor in the chain, before which no ancestor has a claim
-- that confers, and of whose claims one confers whose domain is the longest of those that do.
pub record Basis (domains : DomainStore) (domain : String) (chain : List TenantId)
    (auth : DomainAuthority) : Type 0 where
  pub before : List TenantId
  pub behind : List TenantId
  pub split : chain ≡ before ++ auth.ancestor_id ∷ behind
  pub passed : All (PassedOver domains domain) before
  pub claims : List DomainRecord
  pub read : domains.list_for_tenant (to_string auth.ancestor_id) ≡ ok claims
  pub claim : DomainRecord
  pub held : In claim claims
  pub confers : Confers domain claim
  pub longest : All (λ c. Confers domain c → len c.domain ≤ len claim.domain) claims
  pub on_domain : auth.domain ≡ claim.domain
  pub on_provider : auth.provider_id ≡ claim.provider_id

module _ (domains : DomainStore) (domain : String) where
  longest-Confers :
      (n : ℕ) (cs : List DomainRecord)
      → All (λ c. eligible domain c ≡ true → len c.domain ≤ n) cs
      → All (λ c. Confers domain c → len c.domain ≤ n) cs
  longest-Confers n [] h = tt
  longest-Confers n (c ∷ cs) h = (λ w. h.0 (Confers-eligible domain c w), longest-Confers n cs h.1)

  bound_of_proven : (r : DomainRecord) → r.verified ≡ true → bound_provider_id r ≡ r.provider_id
  unfolding bound_provider_id
  bound_of_proven r h = ground arith

  -- The choice among the claims of one ancestor.
  Basis-here :
      (a : TenantId) (chain : List TenantId) (claims : List DomainRecord)
      → domains.list_for_tenant (to_string a) ≡ ok claims
      → (pick domain no_claim claims).domain ≢ ""
      → let best = pick domain no_claim claims in
        Basis domains domain
          (a ∷ chain)
          (record { ancestor_id = a; domain = best.domain; provider_id = bound_provider_id best })
  Basis-here a chain claims read n = elim (pick-In domain no_claim claims) [
    | inl e ↦ absurd (n (ap (λ (r : DomainRecord). r.domain) e))
    | inr m ↦
        let w = eligible-Confers domain (pick domain no_claim claims) m.1 in
        record {
          before = [];
          behind = chain;
          split = refl;
          passed = tt;
          claims = claims;
          read = read;
          claim = pick domain no_claim claims;
          held = m.0;
          confers = w;
          longest = longest-Confers _ claims (pick-longest domain no_claim claims).1;
          on_domain = refl;
          on_provider = bound_of_proven (pick domain no_claim claims) w.proven;
        }
  ]

  Basis-behind :
      (a : TenantId) (chain : List TenantId) {auth : DomainAuthority}
      → PassedOver domains domain a
      → Basis domains domain chain auth
      → Basis domains domain (a ∷ chain) auth
  Basis-behind a chain p b = record {
    before = a ∷ b.before;
    behind = b.behind;
    split = ap (◌∷◌ a) b.split;
    passed = (p, b.passed);
    claims = b.claims;
    read = b.read;
    claim = b.claim;
    held = b.held;
    confers = b.confers;
    longest = b.longest;
    on_domain = b.on_domain;
    on_provider = b.on_provider;
  }

  search_chain-Basis :
      (chain : List TenantId) {auth : DomainAuthority}
      → search_chain domains domain chain ≡ ok auth
      → Basis domains domain chain auth
  unfolding search_chain
  search_chain-Basis [] h = absurd (ground arith)
  search_chain-Basis (a ∷ chain) {auth} h =
      let (claims, read, rest) = >>=-eq-ok (domains.list_for_tenant (to_string a)) _ h in
      elim ((pick domain no_claim claims).domain ≟ "") [
        | yes p ↦
            Basis-behind a chain (claims, read, nothing_eligible domain claims p)
              (search_chain-Basis chain (ground arith))
        | no n ↦
            subst (Basis domains domain (a ∷ chain)) (ground arith)
              (Basis-here a chain claims read n)
      ]

  -- Where the search over a chain finds nothing, there was nothing, or the store failed.
  search_chain_err :
      (chain : List TenantId) {x : Error}
      → search_chain domains domain chain ≡ err x
      → ((x ≡ not_found) × All (PassedOver domains domain) chain)
        ⊎ ((a : TenantId) × In a chain × (domains.list_for_tenant (to_string a) ≡ err x))
  unfolding search_chain
  search_chain_err [] h = inl (ground arith, tt)
  search_chain_err (a ∷ chain) {x} h = elim (Result-cases (domains.list_for_tenant (to_string a))) [
    | inr (y, failed) ↦
        let same : y ≡ x = ground arith in
        inr (a, inl refl, subst (λ z. domains.list_for_tenant (to_string a) ≡ err z) same failed)
    | inl (claims, read) ↦ elim ((pick domain no_claim claims).domain ≟ "") [
      | no n ↦ absurd (ground arith)
      | yes p ↦ elim (search_chain_err chain {x = x} (ground arith)) [
        | inl (e, all) ↦ inl (e, ((claims, read, nothing_eligible domain claims p), all))
        | inr (b, i, failed) ↦ inr (b, inr i, failed)
      ]
    ]
  ]

-- Where a domain may be claimed by inherited authority, `RequireNormalisedDomain` lets it through, it is no
-- public email domain, and the authority rests on an ancestor's claim: the claim is verified, is
-- for no public email domain, and the domain is a strict subdomain of it; no nearer ancestor has
-- a claim that confers; no conferring claim of that ancestor is on a longer domain; and the
-- authority's domain and provider are the claim's.
pub inherited_domain_authority-Basis :
    (s : Store) (domains : DomainStore) (id : TenantId) (domain : String) {auth : DomainAuthority}
    → inherited_domain_authority s domains id domain ≡ ok auth
    → (require_normalised_domain domain ≡ ok tt)
      × (is_public_email_domain domain ≡ false)
      × ((chain : List TenantId) × (ancestors s id ≡ ok chain) × Basis domains domain chain auth)
unfolding inherited_domain_authority
inherited_domain_authority-Basis s domains id domain h =
    let (u, normalised, h1) = >>=-eq-ok (require_normalised_domain domain) _ h in
    let (v, not_public, h2) = >>=-eq-ok (fail_if (is_public_email_domain domain) not_found) _ h1 in
    let (chain, walked, last) = >>=-eq-ok (ancestors s id) (search_chain domains domain) h2 in
    (ground arith, ground arith, (chain, walked, search_chain-Basis domains domain chain last))

-- Where a domain that RequireNormalisedDomain lets through and that is no public email domain has
-- no inherited authority, although the chain of ancestors was read, there is none and no ancestor
-- has a claim that confers it, or the answer is the store's error for the claims of an ancestor.
pub inherited_domain_authority_refused :
    (s : Store) (domains : DomainStore) (id : TenantId) (domain : String) (chain : List TenantId)
    {x : Error}
    → require_normalised_domain domain ≡ ok tt
    → is_public_email_domain domain ≡ false
    → ancestors s id ≡ ok chain
    → inherited_domain_authority s domains id domain ≡ err x
    → ((x ≡ not_found) × All (PassedOver domains domain) chain)
      ⊎ ((a : TenantId) × In a chain × (domains.list_for_tenant (to_string a) ≡ err x))
unfolding inherited_domain_authority
inherited_domain_authority_refused s domains id domain chain {x} normalised not_public walked h =
    search_chain_err domains domain chain {x = x} (rw (normalised, not_public, walked) at h)
