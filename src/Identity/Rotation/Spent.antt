-- ===== src/Identity/Rotation/Spent.antt =====
-- A revoked session stays revoked, whatever is asked of the core.
use tamper.Prelude.{
  ap, sym, ◌∙◌, ℕ, ◌≡◌, ◌≢◌, ◌==◌, ℕ_eq, String_eq, Bool, String, Option-cases, some, [], ◌∷◌, inl,
  inr, arith,
}
use tamper.Prelude.Dict.{Dict, lookup, lookup-insert}
use tamper.Tenant.Ident.{TenantId, to_string}
use tamper.Identity.Types.{RefreshSession, revoked}
use tamper.Identity.MemStore.{
  MemStore, put_user, put_invitation, create_refresh_session, revoke_refresh_session, revoke_where,
  revoke_all_refresh_sessions_for_user, revoke_all_refresh_sessions_for_tenant,
}
use tamper.Identity.Rotation.Keyed.{mark_accepted-sessions, mark_accepted-hash_to_id}
use tamper.Identity.History.Closed.{IsClosed, minted_hash}
use tamper.Identity.Core.{Core, Inputs}

-- The session behind a hash, and that it is revoked.
pub record IsSpent (hash id : String) (s : MemStore) : Type 0 where
  pub session : RefreshSession
  pub indexed : lookup hash s.hash_to_id ≡ some id
  pub row : lookup id s.sessions ≡ some session
  pub spent : session.revoked_at ≢ 0

-- A call whose random token and session id are not those of a session.
pub record IsFresh (c : Core) (hash id : String) (i : Inputs) : Type 0 where
  pub other_hash : minted_hash c i ≢ some hash
  pub other_id : i.session_id ≢ id

module _ (hash id : String) where
  create_refresh_session-IsSpent :
      (r : RefreshSession) (s : MemStore)
      → r.token_hash ≢ hash
      → r.id ≢ id
      → IsSpent hash id s
      → IsSpent hash id (create_refresh_session r s)
  unfolding create_refresh_session
  create_refresh_session-IsSpent r s n m p = record {
    session = p.session;
    indexed = ground (arith, lookup-insert r.token_hash hash r.id s.hash_to_id);
    row = ground (arith, lookup-insert r.id id r s.sessions);
    spent = p.spent;
  }

  revoke_refresh_session-IsSpent :
      (other : String) (at : ℕ) (s : MemStore)
      → IsSpent hash id s
      → IsSpent hash id (revoke_refresh_session other at s)
  unfolding revoke_refresh_session revoked
  revoke_refresh_session-IsSpent other at s p = record {
    session = p.session;
    indexed = ground (arith, Option-cases (lookup other s.sessions));
    row = elim (Option-cases (lookup other s.sessions)) [
      | inl absent ↦ ground arith
      | inr (r, e) ↦
          ground (arith, lookup-insert other id (record r { revoked_at = at }) s.sessions)
    ];
    spent = p.spent;
  }

  lookup-revoke_where :
      (p : RefreshSession → Bool) (at : ℕ) (d : Dict String RefreshSession) (r : RefreshSession)
      → lookup id d ≡ some r
      → r.revoked_at ≢ 0
      → lookup id (revoke_where p at d) ≡ some r
  unfolding lookup revoke_where
  lookup-revoke_where p at [] r h n = cc
  lookup-revoke_where p at ((k, q) ∷ d) r h n = ground (arith, lookup-revoke_where p at d r)

  revoke_user-IsSpent :
      (user_id : String) (at : ℕ) (s : MemStore)
      → IsSpent hash id s
      → IsSpent hash id (revoke_all_refresh_sessions_for_user user_id at s)
  unfolding revoke_all_refresh_sessions_for_user
  revoke_user-IsSpent user_id at s p = record {
    session = p.session;
    indexed = p.indexed;
    row = lookup-revoke_where (λ r. r.user_id == user_id) at s.sessions p.session p.row p.spent;
    spent = p.spent;
  }

  revoke_tenant-IsSpent :
      (tenant_id : TenantId) (at : ℕ) (s : MemStore)
      → IsSpent hash id s
      → IsSpent hash id (revoke_all_refresh_sessions_for_tenant tenant_id at s)
  unfolding revoke_all_refresh_sessions_for_tenant
  revoke_tenant-IsSpent tenant_id at s p = record {
    session = p.session;
    indexed = p.indexed;
    row =
        lookup-revoke_where (λ r. r.tenant_id == to_string tenant_id) at s.sessions p.session p.row
          p.spent;
    spent = p.spent;
  }

  pub IsSpent-IsClosed :
      (c : Core) (i : Inputs) → IsFresh c hash id i → IsClosed (IsSpent hash id) c i
  unfolding put_user put_invitation
  IsSpent-IsClosed c i fresh = record {
    created = λ r s minted same_id live p.
        create_refresh_session-IsSpent r s
          (λ (e : r.token_hash ≡ hash). fresh.other_hash (minted ∙ ap some e))
          (λ (e : r.id ≡ id). fresh.other_id (sym same_id ∙ e)) p;
    revoked = λ k s p. revoke_refresh_session-IsSpent k i.now s p;
    revoked_user = λ k s p. revoke_user-IsSpent k i.now s p;
    revoked_tenant = λ t s p. revoke_tenant-IsSpent t i.now s p;
    user_put =
        λ u s p. record { session = p.session; indexed = p.indexed; row = p.row; spent = p.spent };
    invitation_put = λ n s own same_id p. record {
      session = p.session;
      indexed = p.indexed;
      row = p.row;
      spent = p.spent;
    };
    invitation_marked = λ k s p. record {
      session = p.session;
      indexed = ap (lookup hash) (mark_accepted-hash_to_id k i.now s) ∙ p.indexed;
      row = ap (lookup id) (mark_accepted-sessions k i.now s) ∙ p.row;
      spent = p.spent;
    };
  }
