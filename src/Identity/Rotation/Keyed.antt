-- ===== src/Identity/Rotation/Keyed.antt =====
-- Every session stands under its own id.
use tamper.Prelude.{
  sym, ℕ, ◌≡◌, refl, subst, String, String_eq, Option-cases, some, [], ◌∷◌, inl, inr, Bool, arith,
  ◌==◌,
}
use tamper.Prelude.Dict.{Dict, lookup, insert}
use tamper.Tenant.Ident.{to_string}
use tamper.Identity.Types.{RefreshSession, revoked}
use tamper.Identity.MemStore.{
  MemStore, mark_accepted, put_user, put_invitation, create_refresh_session, revoke_refresh_session,
  revoke_where, revoke_all_refresh_sessions_for_user, revoke_all_refresh_sessions_for_tenant,
}
use tamper.Identity.Core.{Core, Inputs}
use tamper.Identity.History.Closed.{IsClosed}

abbrev pub Keyed : Dict String RefreshSession → Type 0
Keyed [] = Unit
Keyed ((k, r) ∷ d) = (r.id ≡ k) × Keyed d

pub record IsKeyed (s : MemStore) : Type 0 where
  pub rows : Keyed s.sessions

insert-Keyed :
    (r : RefreshSession) (k : String) (d : Dict String RefreshSession)
    → r.id ≡ k
    → Keyed d
    → Keyed (insert k r d)
unfolding insert
insert-Keyed r k [] e h = (e, tt)
insert-Keyed r k ((j, q) ∷ d) e h = ground (arith, insert-Keyed r k d e h.1)

revoke_where-Keyed :
    (p : RefreshSession → Bool) (at : ℕ) (d : Dict String RefreshSession)
    → Keyed d
    → Keyed (revoke_where p at d)
unfolding revoke_where
revoke_where-Keyed p at [] h = tt
revoke_where-Keyed p at ((k, r) ∷ d) h = ground (arith, revoke_where-Keyed p at d h.1)

lookup-Keyed :
    (k : String) (r : RefreshSession) (d : Dict String RefreshSession)
    → Keyed d
    → lookup k d ≡ some r
    → r.id ≡ k
unfolding lookup
lookup-Keyed k r [] h e = absurd (ground arith)
lookup-Keyed k r ((j, q) ∷ d) h e = ground (arith, lookup-Keyed k r d h.1)

pub IsKeyed-id :
    (k : String) (r : RefreshSession) (s : MemStore)
    → IsKeyed s
    → lookup k s.sessions ≡ some r
    → r.id ≡ k
IsKeyed-id k r s h e = lookup-Keyed k r s.sessions h.rows e

revoke-Keyed :
    (k : String) (at : ℕ) (s : MemStore)
    → Keyed s.sessions
    → Keyed (revoke_refresh_session k at s).sessions
unfolding revoke_refresh_session revoked
revoke-Keyed k at s h = elim (Option-cases (lookup k s.sessions)) [
  | inl absent ↦ ground arith
  | inr (r, e) ↦ ground (
    arith,
    lookup-Keyed k r s.sessions h e,
    insert-Keyed (record r { revoked_at = at }) k s.sessions,
  )
]

pub mark_accepted-sessions :
    (k : String) (at : ℕ) (s : MemStore) → (mark_accepted k at s).1.sessions ≡ s.sessions
unfolding mark_accepted
mark_accepted-sessions k at s = ground arith

pub mark_accepted-hash_to_id :
    (k : String) (at : ℕ) (s : MemStore) → (mark_accepted k at s).1.hash_to_id ≡ s.hash_to_id
unfolding mark_accepted
mark_accepted-hash_to_id k at s = ground arith

pub IsKeyed-IsClosed : (c : Core) (i : Inputs) → IsClosed IsKeyed c i
unfolding put_user put_invitation create_refresh_session revoke_all_refresh_sessions_for_user
    revoke_all_refresh_sessions_for_tenant
IsKeyed-IsClosed c i = record {
  created =
      λ r s minted same_id live h. record { rows = insert-Keyed r r.id s.sessions refl h.rows };
  revoked = λ k s h. record { rows = revoke-Keyed k i.now s h.rows };
  revoked_user =
      λ k s h. record { rows = revoke_where-Keyed (λ r. r.user_id == k) i.now s.sessions h.rows };
  revoked_tenant = λ t s h. record {
    rows = revoke_where-Keyed (λ r. r.tenant_id == to_string t) i.now s.sessions h.rows;
  };
  user_put = λ u s h. record { rows = h.rows };
  invitation_put = λ n s own same_id h. record { rows = h.rows };
  invitation_marked =
      λ k s h. record { rows = subst Keyed (sym (mark_accepted-sessions k i.now s)) h.rows };
}
