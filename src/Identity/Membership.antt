-- ===== src/Identity/Membership.antt =====
-- identity/membership.go: entering another tenant, and the tenants that may be entered.
use tamper.Prelude.{
  ℕ, ◌==◌, ℕ_eq, String_eq, Bool, true, not, ◌&&◌, ◌||◌, String, Option, none, some, List, [], ◌∷◌,
  is_empty, if◌then◌else◌, contains, Result, ok, err,
}
use tamper.Prelude.Sorting.{sort_by, string_lt}
use tamper.Tenant.Ident.{TenantId, TenantId_eq, valid, is_single, to_string, from_stored}
use tamper.Identity.Types.{
  Error, user_inactive, not_found, no_token_service, auth_context_required, no_membership_store,
  issue_failed, User, Tokens,
}
use tamper.Identity.MemStore.{MemStore, Answer, user_by_id, is_member, members_of}
use tamper.Identity.Action.{pure, asks, reads, given, some_or, refuse_if, ◌>>=◌, ◌>>◌}
use tamper.Identity.Core.{Core, tenant_gate, access_only}

-- The claims of an access token that the package reads; `home_tenant_id` and `actor_id` are empty
-- in a token of its own tenant.
pub record AccessClaims : Type 0 where
  pub subject : String
  pub tenant_id : String
  pub home_tenant_id : String
  pub actor_id : String
  pub auth_time : ℕ
  pub acr : String

unfoldable pub entered : AccessClaims → Bool
entered a = not (a.home_tenant_id == "") && a.actor_id == ""

unfoldable pub lacks_context : Option AccessClaims → Bool
lacks_context none = true
lacks_context (some a) = a.subject == "" || (a.auth_time == 0 || a.acr == "")

unfoldable pub not_enterable : TenantId → AccessClaims → User → Bool
unfolding from_stored is_single to_string
not_enterable target session user =
    let home = from_stored user.tenant_id in
    not (session.tenant_id == to_string home)
    || (is_single home || (is_single target || home == target))

abbrev pub text_before : TenantId → TenantId → Bool
text_before t u = string_lt (to_string t) (to_string u)

-- The loop of `EnterableTenants`, with the tenants already seen.
unfoldable pub select_tenants : TenantId → List TenantId → List TenantId → List TenantId
unfolding valid is_single contains
select_tenants home seen [] = []
select_tenants home seen (t ∷ ts) =
    let skipped = select_tenants home seen ts in
    let taken = t ∷ select_tenants home (t ∷ seen) ts in
    if not (valid t) || (is_single t || t == home)
    then skipped
    else if contains t seen
    then skipped
    else taken

module _ (c : Core) where
  unfoldable pub enter_tenant : Option AccessClaims → TenantId → Answer Tokens
  enter_tenant session target = do
    refuse_if (not c.memberships_on) no_membership_store
    service ← some_or no_token_service c.jwt
    given (tenant_gate target)
    refuse_if (lacks_context session) auth_context_required
    claims ← some_or auth_context_required session
    refuse_if (entered claims) not_found
    user ← asks (user_by_id claims.subject)
    refuse_if (not_enterable target claims user) not_found
    member ← reads (is_member claims.subject target)
    refuse_if (not member) not_found
    refuse_if (not user.active) user_inactive
    access ← some_or issue_failed (
        service.issue_access_entered claims.subject target (from_stored user.tenant_id)
          claims.auth_time claims.acr c.enter_ttl)
    pure (access_only access)

  unfoldable pub enterable_tenants : String → MemStore → Result Error (List TenantId)
  enterable_tenants user_id s =
      if not c.memberships_on then err no_membership_store else elim (user_by_id user_id s) [
        | err _ ↦ err not_found
        | ok user ↦
            let home = from_stored user.tenant_id in
            let out = select_tenants home [] (members_of user_id s) in
            if is_single home
            then ok []
            else if not user.active && not (is_empty out)
            then err user_inactive
            else ok (sort_by text_before out)
      ]
