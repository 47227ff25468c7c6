-- ===== src/Identity/Core.antt =====
-- identity/core.go, identity/tenantcheck.go and identity/throttle.go: `Core`. The token service, the hash of a refresh token, the
-- password hash, the limiter and the policy on second factors are parameters, and hooks are left out.
use Prim.Native.Char.{code}
use Prim.Native.String.{len}
use Prim.Native.Nat.{◌/◌}
use tamper.Prelude.{
  ℕ, ◌+◌, ◌==◌, ℕ_eq, String_eq, Bool, true, false, not, ◌||◌, String, Option, none, some, List, [],
  ◌∷◌, if◌then◌else◌, ltb, any_char, Result, ok, err,
}
use tamper.Tenant.Ident.{TenantId, TenantId_eq, valid, to_string, from_stored}
use tamper.Identity.Types.{
  Error, invalid_credentials, totp_required, invalid_session, user_inactive, invalid_email,
  password_policy, not_found, no_token_service, tenant_required, auth_context_required,
  user_id_required, throttled, issue_failed, mint_failed, hash_failed, User, NewUser,
  RefreshSession, revoked, Tokens,
}
use tamper.Identity.MemStore.{
  MemStore, Answer, stored_user, create_user, user_by_id, user_by_email, create_refresh_session,
  refresh_session_by_hash, revoke_refresh_session, revoke_all_refresh_sessions_for_user,
  revoke_all_refresh_sessions_for_tenant,
}
use tamper.Identity.Action.{
  pure, raise, any_error, asks, given, some_or, missing_as, refuse_if, writes, refuse_after, ◌>>=◌,
  ◌>>◌,
}

-- Nanoseconds of a second.
abbrev pub second : ℕ
second = 1000000000

-- What `Core` uses of `crypto.JWTService`: `none` is an error.
pub record TokenService : Type 0 where
  pub issue_access : String → TenantId → ℕ → String → List String → Option String
  pub issue_access_entered : String → TenantId → TenantId → ℕ → String → ℕ → Option String

-- identity/secondfactor.go: `grace_until` is 0 where there is no grace.
pub record SecondFactorRequirement : Type 0 where
  pub at_login : Bool
  pub grace_until : ℕ

-- `SecondFactorPolicy`: `none` is an error.
abbrev pub SecondFactorPolicy : Type 0
SecondFactorPolicy = TenantId → String → Option SecondFactorRequirement

-- `login_key` is there where a limiter is.
pub record Core : Type 0 where
  pub jwt : Option TokenService
  pub refresh_ttl : ℕ
  pub enter_ttl : ℕ
  pub default_acr : String
  pub hash_refresh_token : String → Option String
  pub verify_password : String → String → Bool
  pub lower_trim : String → String
  pub login_key : Option (String → String → String)
  pub totp_required : Bool
  pub second_factor : Option SecondFactorPolicy
  pub invitations_on : Bool
  pub memberships_on : Bool

-- What one call reads from outside: the clock, the clock when tokens are issued, new ids, random
-- tokens, the salted hash of its password, and what the limiter says of a key, with the time to wait.
pub record Inputs : Type 0 where
  pub now : ℕ
  pub later : ℕ
  pub user_id : String
  pub session_id : String
  pub token : Option String
  pub password_hash : Option String
  pub allow : String → Bool × ℕ

unfoldable pub tenant_gate : TenantId → Result Error (Unit {0})
unfolding valid
tenant_gate tenant_id = if not (valid tenant_id) then err tenant_required else ok tt

-- What follows the first `@`.
unfoldable pub after_at : String → Option String
after_at String.[] = none
after_at (String.◌∷◌ c s) = if code c == b'@' then some s else after_at s

unfoldable pub starts_at : String → Bool
starts_at String.[] = false
starts_at (String.◌∷◌ c s) = code c == b'@'

unfoldable pub normalise_email : (String → String) → String → Result Error String
unfolding after_at starts_at any_char
normalise_email lower_trim raw =
    let e = lower_trim raw in
    elim (after_at e) [
      | none ↦ err invalid_email
      | some domain ↦
          if starts_at e
            || (domain == ""
                || (any_char (λ c. c == b'@') domain || not (any_char (λ c. c == b'.') domain)))
          then err invalid_email
          else ok e
    ]

unfoldable pub validate_password : String → Result Error (Unit {0})
validate_password p = if ltb (len p) 8 || ltb 72 (len p) then err password_policy else ok tt

unfoldable pub user_in_tenant : String → TenantId → MemStore → Result Error User
unfolding user_by_id from_stored
user_in_tenant user_id tenant_id s = elim (user_by_id user_id s) [
  | err _ ↦ err not_found
  | ok u ↦ if from_stored u.tenant_id == tenant_id then ok u else err not_found
]

unfoldable pub session_in_tenant : String → TenantId → MemStore → Result Error RefreshSession
unfolding refresh_session_by_hash from_stored
session_in_tenant hash tenant_id s = elim (refresh_session_by_hash hash s) [
  | err _ ↦ err not_found
  | ok r ↦ if from_stored r.tenant_id == tenant_id then ok r else err invalid_session
]

unfoldable pub required_at_login : ℕ → Option SecondFactorRequirement → Bool
required_at_login now none = true
required_at_login now (some req) =
    if not req.at_login
    then false
    else if req.grace_until == 0
    then true
    else not (ltb now req.grace_until)

unfoldable pub second_factor_required_at_login : Core → ℕ → TenantId → String → Bool
unfolding required_at_login
second_factor_required_at_login c now tenant_id user_id = elim c.second_factor [
  | none ↦ c.totp_required
  | some policy ↦ if c.totp_required then true else required_at_login now (policy tenant_id user_id)
]

abbrev pub access_only : String → Tokens
access_only access = record { access = access; refresh = ""; refresh_expires_at = 0 }

module _ (c : Core) (i : Inputs) where
  unfoldable pub mint_gate : TenantId → ℕ → String → Answer TokenService
  unfolding tenant_gate
  mint_gate tenant_id auth_time acr = do
    service ← some_or no_token_service c.jwt
    given (tenant_gate tenant_id)
    refuse_if (auth_time == 0 || acr == "") auth_context_required
    pure service

  -- The second half of `issueTokens`: a refresh token and its session.
  unfoldable pub issue_session : String → TenantId → ℕ → String → String → Answer Tokens
  unfolding create_refresh_session to_string
  issue_session user_id tenant_id auth_time acr access = do
    refresh ← some_or mint_failed i.token
    hash ← some_or hash_failed (c.hash_refresh_token refresh)
    writes (
        create_refresh_session (record {
          id = i.session_id;
          user_id = user_id;
          tenant_id = to_string tenant_id;
          token_hash = hash;
          issued_at = i.later;
          expires_at = i.later + c.refresh_ttl;
          revoked_at = 0;
          auth_time = auth_time;
          acr = acr;
        }))
    pure (record {
      access = access;
      refresh = refresh;
      refresh_expires_at = i.later + c.refresh_ttl;
    })

  unfoldable pub issue_tokens : String → TenantId → ℕ → String → List String → Answer Tokens
  unfolding mint_gate issue_session
  issue_tokens user_id tenant_id auth_time acr amr = do
    service ← mint_gate tenant_id auth_time acr
    access ← some_or issue_failed (service.issue_access user_id tenant_id auth_time acr amr)
    let session = issue_session user_id tenant_id auth_time acr access
    if c.refresh_ttl == 0 then pure (access_only access) else session

  unfoldable pub refresh : TenantId → String → Answer (User × Tokens)
  unfolding session_in_tenant user_by_id revoked
  refresh tenant_id refresh_token = do
    refuse_if (c.refresh_ttl == 0) invalid_session
    hash ← some_or invalid_session (c.hash_refresh_token refresh_token)
    session ← asks (λ s. missing_as invalid_session (session_in_tenant hash tenant_id s))
    refuse_if (revoked session || not (ltb i.now session.expires_at)) invalid_session
    user ← asks (λ s. missing_as invalid_session (user_by_id session.user_id s))
    let revoke = revoke_refresh_session session.id i.now
    refuse_after (not (from_stored session.tenant_id == from_stored user.tenant_id)) revoke
        invalid_session
    refuse_after (session.auth_time == 0 || session.acr == "") revoke invalid_session
    refuse_after (not user.active) revoke user_inactive
    writes revoke
    tokens ←
        issue_tokens session.user_id (from_stored session.tenant_id) session.auth_time session.acr
          []
    pure (user, tokens)

  unfoldable pub issue_tokens_for_user :
      String → TenantId → ℕ → String → List String → Answer Tokens
  unfolding mint_gate user_in_tenant issue_tokens
  issue_tokens_for_user user_id tenant_id auth_time acr amr = do
    mint_gate tenant_id auth_time acr
    user ← asks (user_in_tenant user_id tenant_id)
    refuse_if (not user.active) user_inactive
    issue_tokens user_id tenant_id auth_time acr amr

  -- `none` lets the login through.
  unfoldable pub allow_login : TenantId → String → Option ℕ
  unfolding to_string
  allow_login tenant_id email = elim c.login_key [
    | none ↦ none
    | some key ↦
        let (allowed, retry_after) = i.allow (key (to_string tenant_id) email) in
        if allowed then none else some retry_after
  ]

  -- What stands behind an address that may log in: no other error than one of the tenant tells the cases
  -- apart.
  unfoldable pub user_by_email_gated : TenantId → String → MemStore → Result Error User
  unfolding tenant_gate user_by_email
  user_by_email_gated tenant_id email s = elim (tenant_gate tenant_id) [
    | err e ↦ err e
    | ok _ ↦ missing_as invalid_credentials (user_by_email tenant_id email s)
  ]

  unfoldable pub not_throttled : Option ℕ → Answer (Unit {0})
  not_throttled none = pure tt
  not_throttled (some retry_after) = raise (throttled retry_after)

  -- An answer with `ErrTOTPRequired` carries the user too; the error is all that stands here.
  unfoldable pub login : TenantId → String → String → Answer (User × Tokens)
  unfolding normalise_email allow_login not_throttled user_by_email_gated
      second_factor_required_at_login
  login tenant_id email password = do
    normalised ← given (any_error invalid_credentials (normalise_email c.lower_trim email))
    not_throttled (allow_login tenant_id normalised)
    user ← asks (user_by_email_gated tenant_id normalised)
    refuse_if (user.password_hash == "" || not user.active) invalid_credentials
    refuse_if (not (c.verify_password user.password_hash password)) invalid_credentials
    refuse_if
        (user.totp_enrolled
          || second_factor_required_at_login c i.now (from_stored user.tenant_id) user.id)
        totp_required
    tokens ←
        issue_tokens user.id (from_stored user.tenant_id) (i.now / second) c.default_acr
          ("pwd" ∷ [])
    pure (user, tokens)

  -- That the user is the first of the tenant only matters to a store that makes an admin of it.
  unfoldable pub register : TenantId → String → String → Answer (User × Tokens)
  unfolding normalise_email validate_password tenant_gate create_user
  register tenant_id email password = do
    normalised ← given (normalise_email c.lower_trim email)
    given (validate_password password)
    hash ← some_or hash_failed i.password_hash
    given (tenant_gate tenant_id)
    let u : NewUser = record {
      id = i.user_id;
      tenant_id = to_string tenant_id;
      email = normalised;
      password_hash = hash;
      created_at = i.now;
    }
    create_user u
    tokens ← issue_tokens u.id (from_stored u.tenant_id) (i.later / second) c.default_acr []
    pure (stored_user u, tokens)

  unfoldable pub logout_session : Result Error RefreshSession → Answer (Unit {0})
  unfolding revoke_refresh_session revoked
  logout_session (err not_found) = pure tt
  logout_session (err e) = raise e
  logout_session (ok session) =
      if revoked session then pure tt else writes (revoke_refresh_session session.id i.now)

  unfoldable pub logout_hashed : TenantId → Option String → Answer (Unit {0})
  unfolding session_in_tenant logout_session
  logout_hashed tenant_id none = pure tt
  logout_hashed tenant_id (some hash) = λ s. logout_session (session_in_tenant hash tenant_id s) s

  unfoldable pub logout : TenantId → String → Answer (Unit {0})
  unfolding logout_hashed
  logout tenant_id refresh_token =
      if c.refresh_ttl == 0 || refresh_token == ""
      then pure tt
      else logout_hashed tenant_id (c.hash_refresh_token refresh_token)

  unfoldable pub revoke_all_sessions : TenantId → String → Answer (Unit {0})
  unfolding user_in_tenant revoke_all_refresh_sessions_for_user
  revoke_all_sessions tenant_id user_id = do
    refuse_if (user_id == "") user_id_required
    asks (user_in_tenant user_id tenant_id)
    writes (revoke_all_refresh_sessions_for_user user_id i.now)

  unfoldable pub revoke_all_sessions_for_tenant : TenantId → Answer (Unit {0})
  unfolding tenant_gate revoke_all_refresh_sessions_for_tenant
  revoke_all_sessions_for_tenant tenant_id = do
    given (tenant_gate tenant_id)
    writes (revoke_all_refresh_sessions_for_tenant tenant_id i.now)
