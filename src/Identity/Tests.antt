-- ===== src/Identity/Tests.antt =====
-- A registration, an invitation, the exchange of a token, the end of every session of a tenant, and a visit to another
-- tenant.
use native.Mathlib.Decide.{ℕ_discrete}
use tamper.Prelude.{
  ℕ, ℕ_eq, String, String_eq, String-dec, ◌≡◌, ◌≢◌, ◌==◌, refl, ◌↔◌, true, false, none, some, List,
  [], ◌∷◌, In, contains, any_char, ok, err, arith,
}
use tamper.Prelude.Dict.{lookup, insert}
use tamper.Prelude.Sorting.{sort_by}
use tamper.Tenant.Ident.{TenantId, TenantId-dec, new, valid, is_single, to_string, from_stored}
use tamper.Identity.Types.{invalid_session, email_taken, RefreshSession, User, Tokens, revoked}
use tamper.Identity.MemStore.{
  MemStore, empty_store, tenant_key, put_user, email_known, user_by_id, user_by_email, create_user,
  create_refresh_session, refresh_session_by_hash, revoke_refresh_session, revoke_where,
  revoke_all_refresh_sessions_for_tenant, members_of, add_membership, is_member,
}
use tamper.Identity.Core.{
  TokenService, Core, Inputs, tenant_gate, after_at, starts_at, normalise_email, validate_password,
  session_in_tenant, required_at_login, second_factor_required_at_login, access_only, mint_gate,
  issue_session, issue_tokens, refresh, user_by_email_gated, not_throttled, login, register,
  logout_session, logout_hashed, logout, revoke_all_sessions_for_tenant,
}
use tamper.Identity.Membership.{
  AccessClaims, entered, lacks_context, not_enterable, select_tenants, enter_tenant,
  enterable_tenants,
}
use tamper.Identity.History.{Request, registered, logged_in, perform, perform_all}
use tamper.Identity.Types.{Invitation, invitation_invalid}
use tamper.Identity.History.{invited}
use tamper.Identity.Invitation.{default_invitation_ttl, accept_invitation}
use tamper.Identity.Invitation.Once.{IsRedeemable, accept_invitation_once}
use tamper.Identity.Rotation.Spent.{IsFresh}
use tamper.Prelude.{◌+◌}
use tamper.Identity.Login.{IsAdmitted, login_iff}
use tamper.Identity.Rotation.Exchange.{IsExchangeable, refresh_iff}
use tamper.Identity.Rotation.Once.{IsApart, refresh_once}
use tamper.Identity.Revocation.{revoke_all_sessions_for_tenant-refresh}
use tamper.Identity.Enter.{IsOwn, enterable_tenants-enter_tenant}

program : Unit {0}
unfolding ℕ_discrete String-dec TenantId-dec contains any_char lookup insert sort_by new valid
    is_single to_string from_stored revoked tenant_key put_user email_known user_by_id user_by_email
    create_user create_refresh_session refresh_session_by_hash revoke_refresh_session revoke_where
    revoke_all_refresh_sessions_for_tenant members_of add_membership is_member tenant_gate after_at
    starts_at normalise_email validate_password session_in_tenant required_at_login
    second_factor_required_at_login mint_gate issue_session issue_tokens refresh user_by_email_gated
    not_throttled login register logout_session logout_hashed logout revoke_all_sessions_for_tenant
    entered lacks_context not_enterable select_tenants enter_tenant enterable_tenants perform
    perform_all
program = tt

abbrev service : TokenService
service = record {
  issue_access = λ user tenant auth_time acr amr. some user;
  issue_access_entered = λ user target home auth_time acr ttl. some "visit";
}

abbrev core : Core
core = record {
  jwt = some service;
  refresh_ttl = 500;
  enter_ttl = 0;
  default_acr = "pwd";
  hash_refresh_token = λ token. some token;
  verify_password = λ hash password. true;
  lower_trim = λ text. text;
  login_key = some (λ tenant email. email);
  totp_required = false;
  second_factor = none;
  invitations_on = true;
  memberships_on = true;
}

-- A call at so many nanoseconds after two seconds, with a new session and a new token.
abbrev inputs : ℕ → String → String → Inputs
inputs now session token = record {
  now = now;
  later = now;
  user_id = "u1";
  session_id = session;
  token = some token;
  password_hash = some "h";
  allow = λ key. (true, 0);
}

abbrev acme : TenantId
acme = record { v = "acme"; set = true }

abbrev globex : TenantId
globex = record { v = "globex"; set = true }

abbrev past : List (Inputs × Request)
past = (inputs 2000000000 "s1" "t1", registered acme "a@b.c" "password") ∷ []

abbrev before : MemStore
before = perform_all core past empty_store

abbrev exchange : Inputs
exchange = inputs 2000000100 "s2" "t2"

abbrev user : User
user = record {
  id = "u1";
  tenant_id = "acme";
  email = "a@b.c";
  password_hash = "h";
  active = true;
  totp_enrolled = false;
  created_at = 2000000000;
}

abbrev tokens : Tokens
tokens = record { access = "u1"; refresh = "t2"; refresh_expires_at = 2000000600 }

abbrev between : List (Inputs × Request)
between = (inputs 2000000200 "s3" "t3", logged_in acme "a@b.c" "password") ∷ []

abbrev again : Inputs
again = inputs 2000000300 "s4" "t4"

exchanged : (refresh core exchange acme "t1" before).0 ≡ ok (user, tokens)
unfolding program
exchanged = refl

-- Another tenant does not see the session, the new token serves once more, and the address is taken.
verdicts :
    ((refresh core exchange globex "t1" before).0 ≡ err invalid_session)
    × ((logout core exchange acme "t1" before).0 ≡ ok tt)
    × ((register core again acme "a@b.c" "password" before).0 ≡ err email_taken)
unfolding program
verdicts = (refl, refl, refl)

valid-acme : valid acme ≡ true
unfolding program
valid-acme = refl

behind_first : lookup "t1" before.hash_to_id ≡ some "s1"
unfolding program
behind_first = refl

apart :
    (now : ℕ) (session token : String)
    → (token == "t1") ≡ false
    → (session == "s1") ≡ false
    → IsApart core "t1" before (inputs now session token)
apart now session token t d = record {
  other_token = ground arith;
  other_session = ground (arith, behind_first);
}

refresh_once_example :
    (refresh core again acme "t1"
      (perform_all core between (refresh core exchange acme "t1" before).1)).0
    ≡ err invalid_session
unfolding String-dec
refresh_once_example =
    refresh_once core past exchange acme "t1" user tokens between again acme exchanged
      (ground arith) (apart 2000000100 "s2" "t2" refl refl)
      (apart 2000000200 "s3" "t3" refl refl, tt)

refresh_iff_example : ((refresh core exchange acme "t1" before).0 ≡ ok (user, tokens)) ↔ (
    (hash : String) × (id : String) × (r : RefreshSession) × IsExchangeable core exchange acme "t1"
      hash id r user before
    × ((issue_tokens core exchange r.user_id
          (from_stored r.tenant_id)
          r.auth_time
          r.acr
          []
          (revoke_refresh_session r.id exchange.now before)).0
        ≡ ok tokens))
refresh_iff_example = refresh_iff core exchange acme "t1" before user tokens

revoke_all_sessions_for_tenant-refresh_example :
    (refresh core again acme "t1" (revoke_all_sessions_for_tenant core exchange acme before).1).0
    ≡ err invalid_session
revoke_all_sessions_for_tenant-refresh_example =
    revoke_all_sessions_for_tenant-refresh core exchange again acme "t1" before (ground arith)
      valid-acme

-- The user is a member of the other tenant too.
abbrev member : MemStore
member = add_membership "u1" globex before

abbrev claims : AccessClaims
claims = record {
  subject = "u1";
  tenant_id = "acme";
  home_tenant_id = "";
  actor_id = "";
  auth_time = 2;
  acr = "pwd";
}

filled : (text : String) → (text == "") ≡ false → text ≢ ""
filled text e = ground arith

stored : lookup "u1" member.users_by_id ≡ some user
unfolding program
stored = refl

pooled : is_single (from_stored "acme") ≡ false
unfolding program
pooled = refl

listed : enterable_tenants core "u1" member ≡ ok (globex ∷ [])
unfolding program
listed = refl

home_session : IsOwn user claims
unfolding String-dec
home_session = record {
  subject = filled "u1" refl;
  home = refl;
  own = refl;
  authenticated = ground arith;
  context = filled "pwd" refl;
}

enterable_tenants-enter_tenant_example :
    In globex (globex ∷ [])
    ↔ ((enter_tenant core (some claims) globex member).0 ≡ ok (access_only "visit"))
enterable_tenants-enter_tenant_example =
    enterable_tenants-enter_tenant core member service claims user (globex ∷ []) globex "visit" refl
      refl stored refl pooled home_session refl listed

abbrev invitation_sent : List (Inputs × Request)
invitation_sent = (inputs 2000000000 "n1" "v1", invited acme "a@b.c" "u0" 0) ∷ []

abbrev open_invitation : MemStore
open_invitation = perform_all core invitation_sent empty_store

abbrev invitation : Invitation
invitation = record {
  id = "n1";
  tenant_id = "acme";
  email = "a@b.c";
  token_hash = "v1";
  expires_at = 2000000000 + default_invitation_ttl;
  accepted_at = 0;
  invited_by = "u0";
  created_at = 2000000000;
}

admitted :
    (accept_invitation core exchange acme "v1" "password" open_invitation).0
    ≡ ok (record user { created_at = 2000000100 }, tokens)
unfolding program
admitted = refl

redeemable : IsRedeemable core exchange acme "v1" "password" "v1" "n1" invitation open_invitation
unfolding program
redeemable = record {
  enabled = refl;
  set = refl;
  admissible = refl;
  hashed = refl;
  indexed = refl;
  row = refl;
  in_tenant = refl;
  usable = refl;
}

fresh :
    (now : ℕ) (session token : String)
    → (token == "v1") ≡ false
    → (session == "n1") ≡ false
    → IsFresh core "v1" "n1" (inputs now session token)
fresh now session token t d = record { other_hash = ground arith; other_id = ground arith }

long_enough : (valid globex ≡ true) × (validate_password "password" ≡ ok tt)
unfolding program
long_enough = (refl, refl)

accept_invitation_once_example :
    (accept_invitation core again globex "v1" "password" (
      perform_all core between
        (accept_invitation core exchange acme "v1" "password" open_invitation).1)).0
    ≡ err invitation_invalid
unfolding String-dec
accept_invitation_once_example =
    accept_invitation_once core "v1" "v1" "n1" invitation_sent exchange acme "password" invitation
      redeemable (ground arith) (fresh 2000000100 "s2" "t2" refl refl) between
      (fresh 2000000200 "s3" "t3" refl refl, tt) again globex "password" long_enough.0 long_enough.1

abbrev tokens_again : Tokens
tokens_again = record { access = "u1"; refresh = "t4"; refresh_expires_at = 2000000800 }

logged : (login core again acme "a@b.c" "password" before).0 ≡ ok (user, tokens_again)
unfolding program
logged = refl

login_iff_example :
    ((login core again acme "a@b.c" "password" before).0 ≡ ok (user, tokens_again)) ↔ (
      (address : String) × (id : String) × IsAdmitted core again acme "a@b.c" "password" address id
        user before
      × ((issue_tokens core again "u1" (from_stored "acme") 2 "pwd" ("pwd" ∷ []) before).0
          ≡ ok tokens_again))
login_iff_example = login_iff core again acme "a@b.c" "password" before user tokens_again
