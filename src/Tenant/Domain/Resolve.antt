-- ===== src/Tenant/Domain/Resolve.antt =====
-- Home-realm discovery believes verified claims only (tenant/domain.go).
use Prim.Native.Char.{code}
use Prim.Native.String.{◌++◌, len}
use text.Mathlib.TextPositions.{len-append}
use tamper.Prelude.{
  ℕ, ◌≤◌, ◌⊎◌, any_char, ◌<◌, ap, sym, subst, String, String_eq, true, false, ◌≡◌, ◌≢◌, ◌↔◌,
  has_prefix, has_suffix, EveryChar, append-of_has_suffix, has_suffix-append, ok, err, arith,
}
use tamper.Tenant.Errors.{Error, not_found}
use tamper.Tenant.Domain.{
  DomainRecord, DomainStore, is_space, is_upper, is_not_ascii, require_normalised_domain,
  is_public_email_domain, resolve_domain, is_proper_subdomain,
}

-- A character of a domain: ASCII, no upper-case letter, and none of space, tab, line feed and carriage
-- return; other white space, such as the vertical tab, is one too.
abbrev pub IsPlain : ℕ → Type 0
IsPlain c = (c ≤ 127) × ((c < b'A') ⊎ (b'Z' < c)) × (c ≢ 32) × (c ≢ 9) × (c ≢ 10) × (c ≢ 13)

-- The form that `RequireNormalisedDomain` lets through: not empty, no leading `@`, and plain characters
-- only.
pub record IsNormalised (domain : String) : Type 0 where
  pub not_empty : domain ≢ ""
  pub no_at : has_prefix domain "@" ≡ false
  pub plain : EveryChar IsPlain domain

IsPlain-code :
    (c : ℕ) → ((is_space c ≡ false) × (is_upper c ≡ false) × (is_not_ascii c ≡ false)) ↔ IsPlain c
IsPlain-code c = (λ h. ground arith, λ h. ground arith)

IsPlain-characters :
    (s : String)
    → ((any_char is_space s ≡ false)
        × (any_char is_upper s ≡ false)
        × (any_char is_not_ascii s ≡ false))
      ↔ EveryChar IsPlain s
unfolding any_char
IsPlain-characters String.[] = ground arith
IsPlain-characters (String.◌∷◌ c s) = ground (arith, IsPlain-code (code c), IsPlain-characters s)

pub require_normalised_domain-IsNormalised :
    (domain : String) → (require_normalised_domain domain ≡ ok tt) ↔ IsNormalised domain
unfolding require_normalised_domain
require_normalised_domain-IsNormalised domain = (
  λ h. record {
    not_empty = ground arith;
    no_at = ground arith;
    plain = (IsPlain-characters domain).0 (ground arith);
  },
  λ n. ground (arith, n.not_empty, n.no_at, (IsPlain-characters domain).1 n.plain),
)

-- A domain resolves to a record exactly when it is not empty, has no leading @, is ASCII with no
-- upper-case letter and none of space, tab, line feed and carriage return, and is no public email
-- domain, and the record is the store's claim of it and is verified.
pub resolve_domain_ok :
    (s : DomainStore) (domain : String) (r : DomainRecord)
    → (resolve_domain s domain ≡ ok r) ↔ (
        IsNormalised domain
        × (is_public_email_domain domain ≡ false)
        × (s.by_domain domain ≡ ok r)
        × (r.verified ≡ true))
unfolding resolve_domain
resolve_domain_ok s domain r = (
  λ h. (
    (require_normalised_domain-IsNormalised domain).0 (ground arith),
    ground arith,
    ground arith,
    ground arith,
  ),
  λ h. ground (arith, (require_normalised_domain-IsNormalised domain).1 h.0),
)

-- A domain that is let through but does not resolve gives the same answer whether it is public,
-- claimed but unverified, or not claimed at all, where the store's only error is a miss.
pub resolve_domain_hides :
    (s : DomainStore) (domain : String) {x : Error}
    → IsNormalised domain
    → ((d : String) (y : Error) → s.by_domain d ≡ err y → y ≡ not_found)
    → resolve_domain s domain ≡ err x
    → x ≡ not_found
unfolding resolve_domain
resolve_domain_hides s domain {x} n miss h =
    ground (arith, (require_normalised_domain-IsNormalised domain).1 n, miss domain x)

len-subdomain : (child parent p : String) → child ≡ p ++ ("." ++ parent) → len parent < len child
len-subdomain child parent p e =
    omega (arith, ap len e, len-append p ("." ++ parent), len-append "." parent)

is_proper_subdomain_of :
    (child parent : String)
    → parent ≢ ""
    → len parent < len child
    → has_suffix child ("." ++ parent) ≡ true
    → is_proper_subdomain child parent ≡ true
unfolding is_proper_subdomain
is_proper_subdomain_of child parent n l h =
    let other : child ≢ parent = λ e. absurd (omega (arith, ap len e)) in
    let some_text : child ≢ "" = λ e. absurd (omega (arith, ap len e)) in ground arith

-- A domain is a strict subdomain of another exactly when the other is not empty and the domain
-- is something, a dot, and the other.
pub is_proper_subdomain_iff :
    (child parent : String)
    → (is_proper_subdomain child parent ≡ true)
      ↔ ((parent ≢ "") × ((p : String) × (child ≡ p ++ ("." ++ parent))))
unfolding is_proper_subdomain
is_proper_subdomain_iff child parent = (
  λ h. (ground arith, append-of_has_suffix child ("." ++ parent) (ground arith)),
  λ h.
      let (n, (p, e)) = h in
      is_proper_subdomain_of child parent n (len-subdomain child parent p e) (
        subst (λ c. has_suffix c ("." ++ parent) ≡ true) (sym e)
          (has_suffix-append p ("." ++ parent))),
)
