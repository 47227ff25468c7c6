-- ===== src/Identity/Revocation.antt =====
-- identity/core.go: `RevokeAllSessionsForTenant`, and a refresh after it.
use tamper.Prelude.{
  ℕ, ◌≡◌, ◌≢◌, refl, sym, subst, ◌==◌, ◌≟◌, String, String_eq, Option-cases, some, [], ◌∷◌, inl,
  inr, Bool, true, err, arith,
}
use tamper.Prelude.Dict.{Dict, lookup}
use tamper.Identity.Rotation.Once.{spent_refused}
use tamper.Tenant.Ident.{TenantId, TenantId_eq, to_string, from_stored, valid}
use tamper.Identity.Types.{invalid_session, RefreshSession}
use tamper.Identity.MemStore.{MemStore, revoke_where, revoke_all_refresh_sessions_for_tenant}
use tamper.Identity.Core.{Core, Inputs, refresh, revoke_all_sessions_for_tenant}

-- A session that passes the test is revoked afterwards.
revoke_where-revoked :
    (p : RefreshSession → Bool) (at : ℕ) (id : String) (d : Dict String RefreshSession)
    (r : RefreshSession)
    → ((q : RefreshSession) → p (record q { revoked_at = at }) ≡ p q)
    → at ≢ 0
    → lookup id (revoke_where p at d) ≡ some r
    → p r ≡ true
    → r.revoked_at ≢ 0
unfolding revoke_where lookup
revoke_where-revoked p at id [] r same n e h = absurd (ground arith)
revoke_where-revoked p at id ((k, q) ∷ d) r same n e h =
    ground (arith, same q, revoke_where-revoked p at id d r same n)

to_string-from_stored : (x : String) (t : TenantId) → from_stored x ≡ t → (x == to_string t) ≡ true
unfolding from_stored to_string
to_string-from_stored x t e = ground arith

tenant_ended :
    (t : TenantId) (at : ℕ) (s : MemStore)
    → at ≢ 0
    → (h id : String) (r : RefreshSession) → lookup h s.hash_to_id ≡ some id
    → lookup id (revoke_all_refresh_sessions_for_tenant t at s).sessions ≡ some r
    → from_stored r.tenant_id ≡ t
    → r.revoked_at ≢ 0
unfolding revoke_all_refresh_sessions_for_tenant
tenant_ended t at s clock h id r indexed row here =
    revoke_where-revoked (λ q. q.tenant_id == to_string t) at id s.sessions r (λ q. refl) clock row
      (to_string-from_stored r.tenant_id t here)

-- Whatever session in the tenant may stand behind the token, it is revoked.
refresh_refused :
    (c : Core) (j : Inputs) (t : TenantId) (token : String) (s : MemStore)
    → ((h id : String) (r : RefreshSession)
        → lookup h s.hash_to_id ≡ some id
        → lookup id s.sessions ≡ some r
        → from_stored r.tenant_id ≡ t
        → r.revoked_at ≢ 0)
    → (refresh c j t token s).0 ≡ err invalid_session
unfolding refresh
refresh_refused c j t token s ended = elim (Option-cases (c.hash_refresh_token token)) [
  | inl no_hash ↦ ground arith
  | inr (h, hashed) ↦ elim (Option-cases (lookup h s.hash_to_id)) [
    | inl absent ↦ ground arith
    | inr (id, indexed) ↦ elim (Option-cases (lookup id s.sessions)) [
      | inl no_row ↦ ground arith
      | inr (r, row) ↦ elim (from_stored r.tenant_id ≟ t) [
        | yes here ↦ spent_refused c token h id j t s hashed (record {
          session = r;
          indexed = indexed;
          row = row;
          spent = ended h id r indexed row here;
        })
        | no elsewhere ↦ ground arith
      ]
    ]
  ]
]

revoke_all_sessions_for_tenant-state :
    (c : Core) (i : Inputs) (t : TenantId) (s : MemStore)
    → valid t ≡ true
    → (revoke_all_sessions_for_tenant c i t s).1 ≡ revoke_all_refresh_sessions_for_tenant t i.now s
unfolding revoke_all_sessions_for_tenant
revoke_all_sessions_for_tenant-state c i t s v = ground arith

-- After the sessions of a tenant were revoked, every refresh in that tenant is refused, whatever
-- the token; the clock is past Go's zero time.
pub revoke_all_sessions_for_tenant-refresh :
    (c : Core) (i j : Inputs) (t : TenantId) (token : String) (s : MemStore)
    → i.now ≢ 0
    → valid t ≡ true
    → (refresh c j t token (revoke_all_sessions_for_tenant c i t s).1).0 ≡ err invalid_session
unfolding revoke_all_refresh_sessions_for_tenant
revoke_all_sessions_for_tenant-refresh c i j t token s clock v =
    subst (λ s'. (refresh c j t token s').0 ≡ err invalid_session)
      (sym (revoke_all_sessions_for_tenant-state c i t s v))
      (refresh_refused c j t token (revoke_all_refresh_sessions_for_tenant t i.now s)
        (tenant_ended t i.now s clock))
