-- ===== src/Tenant/DomainInherit/Authority.antt =====
-- Whose proof an inherited authority rests on (tenant/domain_inherit.go).
use Prim.Native.String.{len}
use tamper.Prelude.{
  ◌≤◌, String, String_eq, true, false, ◌≡◌, refl, sym, ◌∙◌, ap, subst, ◌⊎◌, inl, inr, List, [], ◌∷◌,
  In, All, eq_nil_of_len, arith,
}
use tamper.Tenant.Domain.{DomainRecord, is_public_email_domain, is_proper_subdomain}
use tamper.Tenant.Domain.Resolve.{is_proper_subdomain_iff}
use tamper.Tenant.DomainInherit.{no_claim, eligible, better, pick}

-- The claim confers authority over a domain: it is verified, it is for no public email domain,
-- and the domain is a strict subdomain of the one claimed.
pub record Confers (domain : String) (claim : DomainRecord) : Type 0 where
  pub proven : claim.verified ≡ true
  pub not_public : is_public_email_domain claim.domain ≡ false
  pub above : is_proper_subdomain domain claim.domain ≡ true

pub eligible-Confers :
    (domain : String) (claim : DomainRecord) → eligible domain claim ≡ true → Confers domain claim
unfolding eligible
eligible-Confers domain claim h = ground arith

pub Confers-eligible :
    (domain : String) (claim : DomainRecord) → Confers domain claim → eligible domain claim ≡ true
unfolding eligible
Confers-eligible domain claim h = ground arith

module _ (domain : String) where
  better_cases :
      (best c : DomainRecord)
      → (better domain best c ≡ best) ⊎ ((better domain best c ≡ c) × (eligible domain c ≡ true))
  unfolding better
  better_cases best c = ground arith

  better-longest :
      (best c : DomainRecord)
      → (len best.domain ≤ len (better domain best c).domain)
        × (eligible domain c ≡ true → len c.domain ≤ len (better domain best c).domain)
  unfolding better
  better-longest best c = ground arith

  pub pick-In :
      (best : DomainRecord) (claims : List DomainRecord)
      → (pick domain best claims ≡ best)
        ⊎ (In (pick domain best claims) claims × (eligible domain (pick domain best claims) ≡ true))
  unfolding pick
  pick-In best [] = inl refl
  pick-In best (c ∷ cs) = elim (pick-In (better domain best c) cs) [
    | inl e ↦ elim (better_cases best c) [
      | inl p ↦ inl (e ∙ p)
      | inr p ↦ let at = e ∙ p.0 in inr (inl at, subst (λ r. eligible domain r ≡ true) (sym at) p.1)
    ]
    | inr m ↦ inr (inr m.0, m.1)
  ]

  pub pick-longest :
      (best : DomainRecord) (claims : List DomainRecord)
      → (len best.domain ≤ len (pick domain best claims).domain)
        × All
            (λ c. eligible domain c ≡ true → len c.domain ≤ len (pick domain best claims).domain)
            claims
  unfolding pick
  pick-longest best [] = (omega arith, tt)
  pick-longest best (c ∷ cs) =
      let ih = pick-longest (better domain best c) cs in
      let here = better-longest best c in (omega arith, (λ h. omega (arith, here.1 h), ih.1))

  -- Without a choice there was nothing to choose from.
  pub nothing_eligible :
      (claims : List DomainRecord)
      → (pick domain no_claim claims).domain ≡ ""
      → All (λ c. ¬ Confers domain c) claims
  nothing_eligible claims e = all_below claims (pick-longest no_claim claims).1
    where
      all_below :
          (cs : List DomainRecord)
          → All
              (λ c.
                eligible domain c ≡ true → len c.domain ≤ len (pick domain no_claim claims).domain)
              cs
          → All (λ c. ¬ Confers domain c) cs
      all_below [] h = tt
      all_below (c ∷ cs) h = (
        λ w.
            let short = h.0 (Confers-eligible domain c w) in
            (((is_proper_subdomain_iff domain c.domain).0 w.above).0
              (eq_nil_of_len c.domain (omega (arith, ap len e)))),
        all_below cs h.1,
      )
