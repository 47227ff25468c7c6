-- ===== src/Identity/Rotation/Exchange.antt =====
-- What a refresh that succeeds has found, and what it leaves.
use tamper.Prelude.{
  ◌≡◌, ◌≢◌, ◌<◌, ◌↔◌, String, String_eq, true, Option-cases, some, [], inl, inr, ok, arith,
}
use tamper.Prelude.Dict.{lookup}
use tamper.Tenant.Ident.{TenantId, TenantId_eq, from_stored}
use tamper.Identity.Types.{RefreshSession, User, Tokens}
use tamper.Identity.MemStore.{MemStore, revoke_refresh_session}
use tamper.Identity.Core.{Core, Inputs, issue_tokens, refresh}

-- The session of a token that may be exchanged in a tenant, and its user.
pub record IsExchangeable (c : Core) (i : Inputs) (t : TenantId) (token hash id : String)
    (r : RefreshSession) (u : User) (s : MemStore) : Type 0 where
  pub enabled : c.refresh_ttl ≢ 0
  pub hashed : c.hash_refresh_token token ≡ some hash
  pub indexed : lookup hash s.hash_to_id ≡ some id
  pub row : lookup id s.sessions ≡ some r
  pub in_tenant : from_stored r.tenant_id ≡ t
  pub live : r.revoked_at ≡ 0
  pub unexpired : i.now < r.expires_at
  pub user : lookup r.user_id s.users_by_id ≡ some u
  pub same_tenant : from_stored u.tenant_id ≡ t
  pub authenticated : r.auth_time ≢ 0
  pub context : r.acr ≢ ""
  pub active : u.active ≡ true

module _ (c : Core) (i : Inputs) (t : TenantId) (token : String) where
  pub refresh_inv :
      (s : MemStore) (u : User) (k : Tokens)
      → (refresh c i t token s).0 ≡ ok (u, k)
      → (hash : String) × (id : String) × (r : RefreshSession) × IsExchangeable c i t token hash id
          r u s
  unfolding refresh
  refresh_inv s u k h = elim (Option-cases (c.hash_refresh_token token)) [
    | inl none_given ↦ absurd (ground arith)
    | inr (hash, hashed) ↦ elim (Option-cases (lookup hash s.hash_to_id)) [
      | inl absent ↦ absurd (ground arith)
      | inr (id, indexed) ↦ elim (Option-cases (lookup id s.sessions)) [
        | inl no_row ↦ absurd (ground arith)
        | inr (r, row) ↦ elim (Option-cases (lookup r.user_id s.users_by_id)) [
          | inl no_user ↦ absurd (ground arith)
          | inr (u', user) ↦ (hash, id, r, ground arith)
        ]
      ]
    ]
  ]

  answer :
      (hash id : String) (r : RefreshSession) (u : User) (k : Tokens) (s : MemStore)
      → IsExchangeable c i t token hash id r u s
      → ((refresh c i t token s).0 ≡ ok (u, k)) ↔ (
          (issue_tokens c i r.user_id
            (from_stored r.tenant_id)
            r.auth_time
            r.acr
            []
            (revoke_refresh_session r.id i.now s)).0
          ≡ ok k)
  unfolding refresh
  answer hash id r u k s x = ground arith

  -- A refresh succeeds exactly if the token's session may be exchanged and tokens can be issued
  -- once it is revoked: for its user, in its tenant, with its own time and class of authentication.
  pub refresh_iff :
      (s : MemStore) (u : User) (k : Tokens)
      → ((refresh c i t token s).0 ≡ ok (u, k)) ↔ (
          (hash : String) × (id : String) × (r : RefreshSession) × IsExchangeable c i t token hash
            id r u s
          × ((issue_tokens c i r.user_id
                (from_stored r.tenant_id)
                r.auth_time
                r.acr
                []
                (revoke_refresh_session r.id i.now s)).0
              ≡ ok k))
  refresh_iff s u k = (
    λ h.
        let (hash, id, r, x) = refresh_inv s u k h in
        (hash, id, r, x, (answer hash id r u k s x).0 h),
    λ (hash, id, r, x, issued). (answer hash id r u k s x).1 issued,
  )
