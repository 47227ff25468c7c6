-- ===== src/Identity/MemStore.antt =====
-- identity/memstore.go: `MemStore`, each method one step under the lock. Its second factors and
-- linked identities are left out.
use Prim.Native.String.{◌++◌ as join}
use tamper.Prelude.{
  ℕ, suc, ◌==◌, ℕ_eq, String_eq, Bool, true, false, not, ◌&&◌, String, Option, none, some, is_some,
  List, [], ◌∷◌, if◌then◌else◌, Result, ok, err, contains,
}
use tamper.Prelude.Dict.{Dict, lookup, insert}
use tamper.Tenant.Ident.{TenantId, TenantId_eq, to_string}
use tamper.Identity.Types.{
  Error, not_found, email_taken, invitation_consumed, User, NewUser, RefreshSession, revoked,
  Invitation,
}

pub record MemStore : Type 0 where
  pub users_by_id : Dict String User
  pub email_to_id : Dict String String
  pub sessions : Dict String RefreshSession
  pub hash_to_id : Dict String String
  pub invitations : Dict String Invitation
  pub inv_hash_to_id : Dict String String
  pub memberships : Dict String (List TenantId)

abbrev pub empty_store : MemStore
empty_store = record {
  users_by_id = [];
  email_to_id = [];
  sessions = [];
  hash_to_id = [];
  invitations = [];
  inv_hash_to_id = [];
  memberships = [];
}

unfoldable pub tenant_key : String → String → String
tenant_key tenant_id value = join tenant_id (join "\0" value)

abbrev pub stored_user : NewUser → User
stored_user u = record {
  id = u.id;
  tenant_id = u.tenant_id;
  email = u.email;
  password_hash = u.password_hash;
  active = true;
  totp_enrolled = false;
  created_at = u.created_at;
}

-- A value of a map, or Go's zero value of it.
abbrev pub row_or {ℓ} : {A : Type ℓ} → A → Option A → A
row_or zero_value none = zero_value
row_or zero_value (some a) = a

abbrev pub no_user : User
no_user = record {
  id = "";
  tenant_id = "";
  email = "";
  password_hash = "";
  active = false;
  totp_enrolled = false;
  created_at = 0;
}

abbrev pub no_session : RefreshSession
no_session = record {
  id = "";
  user_id = "";
  tenant_id = "";
  token_hash = "";
  issued_at = 0;
  expires_at = 0;
  revoked_at = 0;
  auth_time = 0;
  acr = "";
}

unfoldable pub put_user : User → MemStore → MemStore
unfolding tenant_key
put_user u s = record s {
  users_by_id = insert u.id u s.users_by_id;
  email_to_id = insert (tenant_key u.tenant_id u.email) u.id s.email_to_id;
}

unfoldable pub email_known : NewUser → MemStore → Bool
unfolding tenant_key
email_known u s = is_some (lookup (tenant_key u.tenant_id u.email) s.email_to_id)

unfoldable pub set_active : String → Bool → MemStore → MemStore
set_active id active s = elim (lookup id s.users_by_id) [
  | none ↦ s
  | some u ↦ record s { users_by_id = insert id (record u { active = active }) s.users_by_id }
]

unfoldable pub user_by_id : String → MemStore → Result Error User
user_by_id id s = elim (lookup id s.users_by_id) [ none ↦ err not_found | some u ↦ ok u ]

unfoldable pub user_by_email : TenantId → String → MemStore → Result Error User
unfolding tenant_key to_string
user_by_email tenant_id email s =
    elim (lookup (tenant_key (to_string tenant_id) email) s.email_to_id) [
      | none ↦ err not_found
      | some id ↦ ok (row_or no_user (lookup id s.users_by_id))
    ]

unfoldable pub count_in : String → Dict String User → ℕ
count_in tenant_id [] = 0
count_in tenant_id ((id, u) ∷ users) =
    let rest = count_in tenant_id users in if u.tenant_id == tenant_id then suc rest else rest

unfoldable pub count_users : TenantId → MemStore → ℕ
unfolding count_in to_string
count_users tenant_id s = count_in (to_string tenant_id) s.users_by_id

unfoldable pub create_refresh_session : RefreshSession → MemStore → MemStore
create_refresh_session r s = record s {
  sessions = insert r.id r s.sessions;
  hash_to_id = insert r.token_hash r.id s.hash_to_id;
}

unfoldable pub refresh_session_by_hash : String → MemStore → Result Error RefreshSession
refresh_session_by_hash hash s = elim (lookup hash s.hash_to_id) [
  | none ↦ err not_found
  | some id ↦ ok (row_or no_session (lookup id s.sessions))
]

unfoldable pub revoke_refresh_session : String → ℕ → MemStore → MemStore
unfolding revoked
revoke_refresh_session id at s = elim (lookup id s.sessions) [
  | none ↦ s
  | some r ↦
      if revoked r
      then s
      else record s { sessions = insert id (record r { revoked_at = at }) s.sessions }
]

-- The loops that revoke every live session that passes a test.
unfoldable pub revoke_where :
    (RefreshSession → Bool) → ℕ → Dict String RefreshSession → Dict String RefreshSession
unfolding revoked
revoke_where p at [] = []
revoke_where p at ((id, r) ∷ rest) =
    (id, if p r && not (revoked r) then record r { revoked_at = at } else r)
    ∷ revoke_where p at rest

unfoldable pub revoke_all_refresh_sessions_for_user : String → ℕ → MemStore → MemStore
unfolding revoke_where
revoke_all_refresh_sessions_for_user user_id at s = record s {
  sessions = revoke_where (λ r. r.user_id == user_id) at s.sessions;
}

unfoldable pub revoke_all_refresh_sessions_for_tenant : TenantId → ℕ → MemStore → MemStore
unfolding revoke_where to_string
revoke_all_refresh_sessions_for_tenant tenant_id at s = record s {
  sessions = revoke_where (λ r. r.tenant_id == to_string tenant_id) at s.sessions;
}

unfoldable pub invitation_known : String → MemStore → Bool
invitation_known hash s = is_some (lookup hash s.inv_hash_to_id)

unfoldable pub put_invitation : Invitation → MemStore → MemStore
put_invitation i s = record s {
  invitations = insert i.id i s.invitations;
  inv_hash_to_id = insert i.token_hash i.id s.inv_hash_to_id;
}

unfoldable pub invitation_by_hash : String → MemStore → Result Error Invitation
invitation_by_hash hash s = elim (lookup hash s.inv_hash_to_id) [
  | none ↦ err not_found
  | some id ↦ elim (lookup id s.invitations) [ none ↦ err not_found | some i ↦ ok i ]
]

unfoldable pub members_of : String → MemStore → List TenantId
members_of user_id s = row_or [] (lookup user_id s.memberships)

unfoldable pub add_membership : String → TenantId → MemStore → MemStore
unfolding members_of contains
add_membership user_id tenant_id s =
    let old = members_of user_id s in
    record s {
      memberships =
          insert user_id (if contains tenant_id old then old else tenant_id ∷ old) s.memberships;
    }

unfoldable pub without : TenantId → List TenantId → List TenantId
without t [] = []
without t (u ∷ us) = let rest = without t us in if t == u then rest else u ∷ rest

unfoldable pub remove_membership : String → TenantId → MemStore → MemStore
unfolding without
remove_membership user_id tenant_id s = elim (lookup user_id s.memberships) [
  | none ↦ s
  | some old ↦ record s { memberships = insert user_id (without tenant_id old) s.memberships }
]

unfoldable pub is_member : String → TenantId → MemStore → Bool
unfolding members_of contains
is_member user_id tenant_id s = contains tenant_id (members_of user_id s)

abbrev pub Answer : Type 0 → Type 0
Answer A = MemStore → Result Error A × MemStore

unfoldable pub create_user : NewUser → Answer (Unit {0})
unfolding put_user email_known
create_user u s =
    if email_known u s then (err email_taken, s) else (ok tt, put_user (stored_user u) s)

unfoldable pub create_invitation : Invitation → Answer (Unit {0})
unfolding invitation_known put_invitation
create_invitation i s =
    if invitation_known i.token_hash s
    then (err invitation_consumed, s)
    else (ok tt, put_invitation i s)

unfoldable pub mark_accepted : String → ℕ → Answer (Unit {0})
mark_accepted id at s = elim (lookup id s.invitations) [
  | none ↦ (err not_found, s)
  | some i ↦ if not (i.accepted_at == 0) then (err invitation_consumed, s) else (
    ok tt,
    record s { invitations = insert id (record i { accepted_at = at }) s.invitations },
  )
]
