-- ===== src/Identity/History/Closed.antt =====
-- What every request keeps, from what the changes of the store keep.
use tamper.Prelude.{
  refl, Result, ok, err, ℕ, ◌≡◌, ℕ_eq, String_eq, String, Option, Option-cases, none, some, List,
  inl, inr, arith,
}
use tamper.Tenant.Ident.{TenantId}
use tamper.Identity.Types.{
  Error, Invitation, not_found, email_taken, invitation_consumed, RefreshSession, User, NewUser,
}
use tamper.Identity.History.{
  Request, logged_in, registered, minted, refreshed, logged_out, revoked_user, revoked_tenant,
  invited, accepted, perform,
}
use tamper.Identity.Invitation.{offer, invite, accept_invitation, answer_as}
use tamper.Identity.MemStore.{
  Answer, invitation_known, create_invitation, put_invitation, mark_accepted, MemStore, create_user,
  email_known, stored_user, put_user, create_refresh_session, revoke_refresh_session,
  revoke_all_refresh_sessions_for_user, revoke_all_refresh_sessions_for_tenant,
}
use tamper.Identity.Action.{raise, writes}
use tamper.Identity.Action.Keeps.{Keeps, Keeps-bind, Keeps-pure, Keeps-read, Keeps-test, keeping}
use tamper.Identity.Core.{
  Core, Inputs, mint_gate, issue_session, issue_tokens, issue_tokens_for_user, refresh, login,
  not_throttled, register, logout, logout_session, logout_hashed, session_in_tenant,
  revoke_all_sessions, revoke_all_sessions_for_tenant,
}

-- The hash of the random token of a call.
abbrev pub minted_hash : Core → Inputs → Option String
minted_hash c i = elim i.token [ none ↦ none | some t ↦ c.hash_refresh_token t ]

-- The changes that a call may make to the store keep the predicate.
pub record IsClosed (P : MemStore → Type 0) (c : Core) (i : Inputs) : Type 0 where
  pub created :
      (r : RefreshSession) (s : MemStore)
      → minted_hash c i ≡ some r.token_hash
      → r.id ≡ i.session_id
      → r.revoked_at ≡ 0
      → P s
      → P (create_refresh_session r s)
  pub revoked : (id : String) (s : MemStore) → P s → P (revoke_refresh_session id i.now s)
  pub revoked_user :
      (id : String) (s : MemStore) → P s → P (revoke_all_refresh_sessions_for_user id i.now s)
  pub revoked_tenant :
      (t : TenantId) (s : MemStore) → P s → P (revoke_all_refresh_sessions_for_tenant t i.now s)
  pub user_put : (u : User) (s : MemStore) → P s → P (put_user u s)
  pub invitation_put :
      (n : Invitation) (s : MemStore)
      → minted_hash c i ≡ some n.token_hash
      → n.id ≡ i.session_id
      → P s
      → P (put_invitation n s)
  pub invitation_marked : (id : String) (s : MemStore) → P s → P (mark_accepted id i.now s).1

module _ (P : MemStore → Type 0) (c : Core) (i : Inputs) (closed : IsClosed P c i) where
  create_user-Keeps : (u : NewUser) → Keeps P (create_user u)
  unfolding create_user
  create_user-Keeps u =
      Keeps-test P (email_known u) (raise email_taken) (writes (put_user (stored_user u)))
        (record { after = λ s p. p })
        (record { after = λ s p. closed.user_put (stored_user u) s p })

  issue_session-Keeps :
      (user_id : String) (tenant_id : TenantId) (auth_time : ℕ) (acr access : String)
      → Keeps P (issue_session c i user_id tenant_id auth_time acr access)
  unfolding issue_session
  issue_session-Keeps user_id tenant_id auth_time acr access = record {
    after = λ s p. elim (Option-cases i.token) [
      | inl no_token ↦ rw no_token p
      | inr (t, has_token) ↦ elim (Option-cases (c.hash_refresh_token t)) [
        | inl no_hash ↦ rw (has_token, no_hash) p
        | inr (h, has_hash) ↦
            let minted : minted_hash c i ≡ some h = ground arith in
            rw (has_token, has_hash) (closed.created _ s minted refl refl p)
      ]
    ];
  }

  mint_gate-Keeps :
      (tenant_id : TenantId) (auth_time : ℕ) (acr : String)
      → Keeps P (mint_gate c i tenant_id auth_time acr)
  unfolding mint_gate
  mint_gate-Keeps tenant_id auth_time acr = search keeping

  pub issue_tokens-Keeps :
      (user_id : String) (tenant_id : TenantId) (auth_time : ℕ) (acr : String) (amr : List String)
      → Keeps P (issue_tokens c i user_id tenant_id auth_time acr amr)
  unfolding issue_tokens
  issue_tokens-Keeps user_id tenant_id auth_time acr amr =
      search (keeping, mint_gate-Keeps, issue_session-Keeps)

  refresh-Keeps : (tenant_id : TenantId) (token : String) → Keeps P (refresh c i tenant_id token)
  unfolding refresh
  refresh-Keeps tenant_id token = search (keeping, issue_tokens-Keeps, closed.revoked) depth 16

  issue_tokens_for_user-Keeps :
      (user_id : String) (tenant_id : TenantId) (auth_time : ℕ) (acr : String) (amr : List String)
      → Keeps P (issue_tokens_for_user c i user_id tenant_id auth_time acr amr)
  unfolding issue_tokens_for_user
  issue_tokens_for_user-Keeps user_id tenant_id auth_time acr amr =
      search (keeping, mint_gate-Keeps, issue_tokens-Keeps) depth 16

  not_throttled-Keeps : (o : Option ℕ) → Keeps P (not_throttled c i o)
  unfolding not_throttled
  not_throttled-Keeps none = record { after = λ s p. p }
  not_throttled-Keeps (some n) = record { after = λ s p. p }

  login-Keeps :
      (tenant_id : TenantId) (email password : String)
      → Keeps P (login c i tenant_id email password)
  unfolding login
  login-Keeps tenant_id email password =
      search (keeping, not_throttled-Keeps, issue_tokens-Keeps) depth 16

  pub register-Keeps :
      (tenant_id : TenantId) (email password : String)
      → Keeps P (register c i tenant_id email password)
  unfolding register
  register-Keeps tenant_id email password =
      search (keeping, create_user-Keeps, issue_tokens-Keeps) depth 16

  logout_session-Keeps : (r : Result Error RefreshSession) → Keeps P (logout_session c i r)
  unfolding logout_session
  logout_session-Keeps (err not_found) = record { after = λ s p. p }
  logout_session-Keeps (err e) = record { after = λ s p. p }
  logout_session-Keeps (ok session) = search (keeping, closed.revoked)

  logout_hashed-Keeps :
      (tenant_id : TenantId) (o : Option String) → Keeps P (logout_hashed c i tenant_id o)
  unfolding logout_hashed
  logout_hashed-Keeps tenant_id none = record { after = λ s p. p }
  logout_hashed-Keeps tenant_id (some h) =
      Keeps-read P (session_in_tenant h tenant_id) (logout_session c i) logout_session-Keeps

  logout-Keeps : (tenant_id : TenantId) (token : String) → Keeps P (logout c i tenant_id token)
  unfolding logout
  logout-Keeps tenant_id token = search (keeping, logout_hashed-Keeps)

  revoke_all_sessions-Keeps :
      (tenant_id : TenantId) (user_id : String)
      → Keeps P (revoke_all_sessions c i tenant_id user_id)
  unfolding revoke_all_sessions
  revoke_all_sessions-Keeps tenant_id user_id = search (keeping, closed.revoked_user)

  revoke_all_sessions_for_tenant-Keeps :
      (tenant_id : TenantId) → Keeps P (revoke_all_sessions_for_tenant c i tenant_id)
  unfolding revoke_all_sessions_for_tenant
  revoke_all_sessions_for_tenant-Keeps tenant_id = search (keeping, closed.revoked_tenant)

  create_invitation-Keeps :
      (n : Invitation)
      → minted_hash c i ≡ some n.token_hash
      → n.id ≡ i.session_id
      → Keeps P (create_invitation n)
  unfolding create_invitation
  create_invitation-Keeps n own same =
      Keeps-test P (invitation_known n.token_hash) (raise invitation_consumed)
        (writes (put_invitation n)) (record { after = λ s p. p })
        (record { after = λ s p. closed.invitation_put n s own same p })

  offer-Keeps :
      (tenant_id : TenantId) (email invited_by : String) (ttl : ℕ)
      → Keeps P (offer c i tenant_id email invited_by ttl)
  unfolding offer
  offer-Keeps tenant_id email invited_by ttl = record {
    after = λ s p. elim (Option-cases i.token) [
      | inl no_token ↦ rw no_token p
      | inr (t, has_token) ↦ elim (Option-cases (c.hash_refresh_token t)) [
        | inl no_hash ↦ rw (has_token, no_hash) p
        | inr (h, has_hash) ↦
            let minted : minted_hash c i ≡ some h = ground arith in
            rw (has_token, has_hash)
              ((Keeps-bind P _ _ (create_invitation-Keeps _ minted refl)
                  (λ _. Keeps-pure P _)).after
                s p)
      ]
    ];
  }

  mark_accepted-Keeps : (k : String) → Keeps P (mark_accepted k i.now)
  mark_accepted-Keeps k = record { after = λ s p. closed.invitation_marked k s p }

  answer_as-Keeps : (e : Error) (m : Answer (Unit {0})) → Keeps P m → Keeps P (answer_as e m)
  unfolding answer_as
  answer_as-Keeps e m k = record { after = k.after }

  invite-Keeps :
      (tenant_id : TenantId) (email invited_by : String) (ttl : ℕ)
      → Keeps P (invite c i tenant_id email invited_by ttl)
  unfolding invite
  invite-Keeps tenant_id email invited_by ttl = search (keeping, offer-Keeps) depth 16

  accept_invitation-Keeps :
      (tenant_id : TenantId) (token password : String)
      → Keeps P (accept_invitation c i tenant_id token password)
  unfolding accept_invitation
  accept_invitation-Keeps tenant_id token password =
      search (keeping, answer_as-Keeps, mark_accepted-Keeps, register-Keeps) depth 20

  -- Whatever is asked of the core, the predicate is kept.
  pub perform-Keeps : (request : Request) (s : MemStore) → P s → P (perform c i request s)
  unfolding perform
  perform-Keeps (logged_in t e p) s h = (login-Keeps t e p).after s h
  perform-Keeps (registered t e p) s h = (register-Keeps t e p).after s h
  perform-Keeps (minted u t a acr amr) s h = (issue_tokens_for_user-Keeps u t a acr amr).after s h
  perform-Keeps (refreshed t k) s h = (refresh-Keeps t k).after s h
  perform-Keeps (logged_out t k) s h = (logout-Keeps t k).after s h
  perform-Keeps (revoked_user t u) s h = (revoke_all_sessions-Keeps t u).after s h
  perform-Keeps (revoked_tenant t) s h = (revoke_all_sessions_for_tenant-Keeps t).after s h
  perform-Keeps (invited t e b n) s h = (invite-Keeps t e b n).after s h
  perform-Keeps (accepted t k p) s h = (accept_invitation-Keeps t k p).after s h
