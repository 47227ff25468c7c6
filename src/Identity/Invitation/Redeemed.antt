-- ===== src/Identity/Invitation/Redeemed.antt =====
-- An invitation that was accepted stays accepted, and every invitation stands under its own id.
use tamper.Prelude.{
  ap, sym, refl, subst, ◌∙◌, ℕ, ◌≡◌, ◌≢◌, ℕ_eq, String_eq, String, Option-cases, some, [], ◌∷◌, inl,
  inr, arith,
}
use tamper.Prelude.Dict.{Dict, lookup, insert, lookup-insert}
use tamper.Identity.Types.{Invitation}
use tamper.Identity.MemStore.{
  MemStore, put_user, put_invitation, mark_accepted, create_refresh_session, revoke_refresh_session,
  revoke_all_refresh_sessions_for_user, revoke_all_refresh_sessions_for_tenant,
}
use tamper.Identity.Core.{Core, Inputs}
use tamper.Identity.History.Closed.{IsClosed}
use tamper.Identity.Rotation.Spent.{IsFresh}

-- The invitation behind a hash, and that it was accepted.
pub record IsRedeemed (hash id : String) (s : MemStore) : Type 0 where
  pub invitation : Invitation
  pub indexed : lookup hash s.inv_hash_to_id ≡ some id
  pub row : lookup id s.invitations ≡ some invitation
  pub accepted : invitation.accepted_at ≢ 0

abbrev pub KeyedInvitations : Dict String Invitation → Type 0
KeyedInvitations [] = Unit
KeyedInvitations ((k, n) ∷ d) = (n.id ≡ k) × KeyedInvitations d

pub record IsFiled (s : MemStore) : Type 0 where
  pub rows : KeyedInvitations s.invitations

insert-KeyedInvitations :
    (n : Invitation) (k : String) (d : Dict String Invitation)
    → n.id ≡ k
    → KeyedInvitations d
    → KeyedInvitations (insert k n d)
unfolding insert
insert-KeyedInvitations n k [] e h = (e, tt)
insert-KeyedInvitations n k ((j, q) ∷ d) e h = ground (arith, insert-KeyedInvitations n k d e h.1)

lookup-KeyedInvitations :
    (k : String) (n : Invitation) (d : Dict String Invitation)
    → KeyedInvitations d
    → lookup k d ≡ some n
    → n.id ≡ k
unfolding lookup
lookup-KeyedInvitations k n [] h e = absurd (ground arith)
lookup-KeyedInvitations k n ((j, q) ∷ d) h e = ground (arith, lookup-KeyedInvitations k n d h.1)

pub IsFiled-id :
    (k : String) (n : Invitation) (s : MemStore)
    → IsFiled s
    → lookup k s.invitations ≡ some n
    → n.id ≡ k
IsFiled-id k n s h e = lookup-KeyedInvitations k n s.invitations h.rows e

mark_accepted-KeyedInvitations :
    (k : String) (at : ℕ) (s : MemStore)
    → KeyedInvitations s.invitations
    → KeyedInvitations (mark_accepted k at s).1.invitations
unfolding mark_accepted
mark_accepted-KeyedInvitations k at s h = elim (Option-cases (lookup k s.invitations)) [
  | inl absent ↦ ground arith
  | inr (n, e) ↦ ground (
    arith,
    lookup-KeyedInvitations k n s.invitations h e,
    insert-KeyedInvitations (record n { accepted_at = at }) k s.invitations,
  )
]

revoke_refresh_session-invitations :
    (k : String) (at : ℕ) (s : MemStore)
    → (revoke_refresh_session k at s).invitations ≡ s.invitations
unfolding revoke_refresh_session
revoke_refresh_session-invitations k at s = ground arith

revoke_refresh_session-inv_hash_to_id :
    (k : String) (at : ℕ) (s : MemStore)
    → (revoke_refresh_session k at s).inv_hash_to_id ≡ s.inv_hash_to_id
unfolding revoke_refresh_session
revoke_refresh_session-inv_hash_to_id k at s = ground arith

pub IsFiled-IsClosed : (c : Core) (i : Inputs) → IsClosed IsFiled c i
unfolding put_user put_invitation create_refresh_session revoke_all_refresh_sessions_for_user
    revoke_all_refresh_sessions_for_tenant
IsFiled-IsClosed c i = record {
  created = λ r s own same_id live h. record { rows = h.rows };
  revoked = λ k s h. record {
    rows = subst KeyedInvitations (sym (revoke_refresh_session-invitations k i.now s)) h.rows;
  };
  revoked_user = λ k s h. record { rows = h.rows };
  revoked_tenant = λ t s h. record { rows = h.rows };
  user_put = λ u s h. record { rows = h.rows };
  invitation_put = λ n s own same_id h. record {
    rows = insert-KeyedInvitations n n.id s.invitations refl h.rows;
  };
  invitation_marked = λ k s h. record { rows = mark_accepted-KeyedInvitations k i.now s h.rows };
}

module _ (hash id : String) where
  put_invitation-IsRedeemed :
      (n : Invitation) (s : MemStore)
      → n.token_hash ≢ hash
      → n.id ≢ id
      → IsRedeemed hash id s
      → IsRedeemed hash id (put_invitation n s)
  unfolding put_invitation
  put_invitation-IsRedeemed n s m l p = record {
    invitation = p.invitation;
    indexed = ground (arith, lookup-insert n.token_hash hash n.id s.inv_hash_to_id);
    row = ground (arith, lookup-insert n.id id n s.invitations);
    accepted = p.accepted;
  }

  mark_accepted-IsRedeemed :
      (other : String) (at : ℕ) (s : MemStore)
      → IsRedeemed hash id s
      → IsRedeemed hash id (mark_accepted other at s).1
  unfolding mark_accepted
  mark_accepted-IsRedeemed other at s p = record {
    invitation = p.invitation;
    indexed = ground (arith, Option-cases (lookup other s.invitations));
    row = elim (Option-cases (lookup other s.invitations)) [
      | inl absent ↦ ground arith
      | inr (n, e) ↦
          ground (arith, lookup-insert other id (record n { accepted_at = at }) s.invitations)
    ];
    accepted = p.accepted;
  }

  same-IsRedeemed :
      (s t : MemStore)
      → t.invitations ≡ s.invitations
      → t.inv_hash_to_id ≡ s.inv_hash_to_id
      → IsRedeemed hash id s
      → IsRedeemed hash id t
  same-IsRedeemed s t a b p = record {
    invitation = p.invitation;
    indexed = ap (lookup hash) b ∙ p.indexed;
    row = ap (lookup id) a ∙ p.row;
    accepted = p.accepted;
  }

  pub IsRedeemed-IsClosed :
      (c : Core) (i : Inputs) → IsFresh c hash id i → IsClosed (IsRedeemed hash id) c i
  unfolding put_user create_refresh_session revoke_all_refresh_sessions_for_user
      revoke_all_refresh_sessions_for_tenant
  IsRedeemed-IsClosed c i fresh = record {
    created = λ r s own same_id live p. same-IsRedeemed s (create_refresh_session r s) refl refl p;
    revoked = λ k s p.
        same-IsRedeemed s (revoke_refresh_session k i.now s)
          (revoke_refresh_session-invitations k i.now s)
          (revoke_refresh_session-inv_hash_to_id k i.now s) p;
    revoked_user =
        λ k s p. same-IsRedeemed s (revoke_all_refresh_sessions_for_user k i.now s) refl refl p;
    revoked_tenant =
        λ t s p. same-IsRedeemed s (revoke_all_refresh_sessions_for_tenant t i.now s) refl refl p;
    user_put = λ u s p. same-IsRedeemed s (put_user u s) refl refl p;
    invitation_put = λ n s own same_id p.
        put_invitation-IsRedeemed n s
          (λ (e : n.token_hash ≡ hash). fresh.other_hash (own ∙ ap some e))
          (λ (e : n.id ≡ id). fresh.other_id (sym same_id ∙ e)) p;
    invitation_marked = λ k s p. mark_accepted-IsRedeemed k i.now s p;
  }
