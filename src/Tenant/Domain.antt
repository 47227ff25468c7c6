-- ===== src/Tenant/Domain.antt =====
-- tenant/domain.go: which tenant, and which identity provider, owns an email domain.
pub mod Resolve
use Prim.Native.String.{◌++◌}
use tamper.Prelude.{
  ℕ, String, String_eq, ℕ_eq, Bool, true, false, not, ◌&&◌, ◌||◌, ◌==◌, List, [], ◌∷◌, contains,
  if◌then◌else◌, leb, ltb, any_char, has_prefix, has_suffix, Result, ok, err, ◌>>=◌, ◌>>◌, fail_if,
}
use tamper.Tenant.Errors.{Error, not_found, domain_not_normalised}

pub record DomainRecord : Type 0 where
  pub tenant_id : String
  pub domain : String
  pub verified : Bool
  pub provider_id : String

unfoldable pub bound_provider_id : DomainRecord → String
bound_provider_id d = if not d.verified then "" else d.provider_id

-- The port of the application's table of domains.
pub record DomainStore : Type 0 where
  pub by_domain : String → Result Error DomainRecord
  pub list_for_tenant : String → Result Error (List DomainRecord)

-- One of `" \t\r\n"`.
abbrev pub is_space : ℕ → Bool
is_space c = c == 32 || c == 9 || c == 13 || c == 10

-- A character that `strings.ToLower` changes, of those up to 127. One above 127 is refused
-- further down, by the same sentinel error.
abbrev pub is_upper : ℕ → Bool
is_upper c = leb b'A' c && leb c b'Z'

abbrev pub is_not_ascii : ℕ → Bool
is_not_ascii c = ltb 127 c

unfoldable pub require_normalised_domain : String → Result Error (Unit {0})
require_normalised_domain domain = do
  fail_if (domain == "") domain_not_normalised
  fail_if (has_prefix domain "@") domain_not_normalised
  fail_if (any_char is_space domain) domain_not_normalised
  fail_if (any_char is_upper domain) domain_not_normalised
  fail_if (any_char is_not_ascii domain) domain_not_normalised
  ok tt

public_email_domains : List String
public_email_domains =
    "gmail.com" ∷ "googlemail.com" ∷ "outlook.com" ∷ "hotmail.com" ∷ "hotmail.co.uk" ∷ "live.com"
    ∷ "msn.com" ∷ "yahoo.com" ∷ "yahoo.co.uk" ∷ "ymail.com" ∷ "rocketmail.com" ∷ "icloud.com"
    ∷ "me.com" ∷ "mac.com" ∷ "proton.me" ∷ "protonmail.com" ∷ "tutanota.com" ∷ "fastmail.com"
    ∷ "hushmail.com" ∷ "aol.com" ∷ "gmx.com" ∷ "gmx.net" ∷ "mail.com" ∷ "mail.ru" ∷ "yandex.com"
    ∷ "yandex.ru" ∷ "zoho.com" ∷ "qq.com" ∷ "163.com" ∷ "126.com" ∷ "naver.com" ∷ "mailinator.com"
    ∷ "guerrillamail.com" ∷ "10minutemail.com" ∷ "yopmail.com" ∷ "trashmail.com" ∷ "sharklasers.com"
    ∷ []

unfoldable pub is_public_email_domain : String → Bool
unfolding public_email_domains
is_public_email_domain domain = contains domain public_email_domains

unfoldable pub resolve_domain : DomainStore → String → Result Error DomainRecord
resolve_domain s email_domain = do
  require_normalised_domain email_domain
  fail_if (is_public_email_domain email_domain) not_found
  rec ← s.by_domain email_domain
  fail_if (not rec.verified) not_found
  ok rec

-- A strict subdomain: the dot is part of what has to match.
unfoldable pub is_proper_subdomain : String → String → Bool
is_proper_subdomain child parent =
    if child == "" || parent == ""
    then false
    else not (child == parent) && has_suffix child ("." ++ parent)
