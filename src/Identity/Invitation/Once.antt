-- ===== src/Identity/Invitation/Once.antt =====
-- identity/invitation.go: an invitation through its acceptance and after.
use tamper.Prelude.{
  ◌≡◌, ◌≢◌, sym, subst, String, String_eq, ℕ_eq, true, some, List, [], ◌∷◌, ok, err, All, arith,
}
use tamper.Prelude.Dict.{lookup, lookup-insert}
use tamper.Tenant.Ident.{TenantId, to_string, from_stored, valid}
use tamper.Identity.Types.{invitation_invalid, Invitation, usable, pending}
use tamper.Identity.MemStore.{MemStore, empty_store, mark_accepted, invitation_by_hash}
use tamper.Identity.Core.{Core, Inputs, tenant_gate, validate_password, register}
use tamper.Identity.Invitation.{accept_invitation, answer_as}
use tamper.Identity.History.{Request, perform_all}
use tamper.Identity.History.Closed.{IsClosed, register-Keeps}
use tamper.Identity.Rotation.Spent.{IsFresh}
use tamper.Identity.Rotation.Once.{perform_all-Keeps}
use tamper.Identity.Invitation.Redeemed.{
  IsRedeemed, IsFiled, IsFiled-id, IsFiled-IsClosed, IsRedeemed-IsClosed,
}

-- The pending invitation of a token that may be redeemed in a tenant, with a password that is let in.
pub record IsRedeemable (c : Core) (i : Inputs) (t : TenantId) (token password hash id : String)
    (n : Invitation) (s : MemStore) : Type 0 where
  pub enabled : c.invitations_on ≡ true
  pub set : valid t ≡ true
  pub admissible : validate_password password ≡ ok tt
  pub hashed : c.hash_refresh_token token ≡ some hash
  pub indexed : lookup hash s.inv_hash_to_id ≡ some id
  pub row : lookup id s.invitations ≡ some n
  pub in_tenant : n.tenant_id ≡ to_string t
  pub usable : usable i.now n ≡ true

IsFiled-always :
    (c : Core) (calls : List (Inputs × Request)) → All (λ x. IsClosed IsFiled c x.0) calls
IsFiled-always c [] = tt
IsFiled-always c ((i, r) ∷ rest) = (IsFiled-IsClosed c i, IsFiled-always c rest)

IsRedeemed-always :
    (c : Core) (hash id : String) (calls : List (Inputs × Request))
    → All (λ x. IsFresh c hash id x.0) calls
    → All (λ x. IsClosed (IsRedeemed hash id) c x.0) calls
IsRedeemed-always c hash id [] a = tt
IsRedeemed-always c hash id ((i, r) ∷ rest) a =
    (IsRedeemed-IsClosed hash id c i a.0, IsRedeemed-always c hash id rest a.1)

module _ (c : Core) (token hash id : String) where
  -- Whatever becomes of the registration, the invitation is marked before it.
  accept_invitation-state :
      (i : Inputs) (t : TenantId) (password : String) (n : Invitation) (s : MemStore)
      → IsRedeemable c i t token password hash id n s
      → n.id ≡ id
      → (accept_invitation c i t token password s).1
        ≡ (register c i (from_stored n.tenant_id) n.email password (mark_accepted id i.now s).1).1
  unfolding accept_invitation tenant_gate invitation_by_hash answer_as mark_accepted usable pending
  accept_invitation-state i t password n s x e = ground (arith, e)

  mark_accepted-IsRedeemed :
      (i : Inputs) (t : TenantId) (password : String) (n : Invitation) (s : MemStore)
      → IsRedeemable c i t token password hash id n s
      → i.now ≢ 0
      → IsRedeemed hash id (mark_accepted id i.now s).1
  unfolding mark_accepted usable pending
  mark_accepted-IsRedeemed i t password n s x clock = record {
    invitation = record n { accepted_at = i.now };
    indexed = ground (arith, x.indexed, x.row);
    row = ground (
      arith,
      x.row,
      x.usable,
      lookup-insert id id (record n { accepted_at = i.now }) s.invitations,
    );
    accepted = clock;
  }

  redeemed_refused :
      (j : Inputs) (other : TenantId) (password : String) (s : MemStore)
      → c.invitations_on ≡ true
      → valid other ≡ true
      → validate_password password ≡ ok tt
      → c.hash_refresh_token token ≡ some hash
      → IsRedeemed hash id s
      → (accept_invitation c j other token password s).0 ≡ err invitation_invalid
  unfolding accept_invitation tenant_gate invitation_by_hash usable pending
  redeemed_refused j other password s on set admissible hashed p = ground arith

  accept_invitation-IsRedeemed :
      (i : Inputs) (t : TenantId) (password : String) (n : Invitation) (s : MemStore)
      → IsRedeemable c i t token password hash id n s
      → i.now ≢ 0
      → n.id ≡ id
      → IsFresh c hash id i
      → IsRedeemed hash id (accept_invitation c i t token password s).1
  accept_invitation-IsRedeemed i t password n s x clock e fresh =
      let P = IsRedeemed hash id in
      let marked = mark_accepted-IsRedeemed i t password n s x clock in
      let kept =
        register-Keeps P c i (IsRedeemed-IsClosed hash id c i fresh) (from_stored n.tenant_id)
          n.email password in
      subst P (sym (accept_invitation-state i t password n s x e))
        (kept.after (mark_accepted id i.now s).1 marked)

  -- After any history on an empty store, an invitation that may be redeemed admits only the call that
  -- redeems it, whatever becomes of its account: its token is refused as invalid from then on, in every
  -- tenant that was set, with any password that is let in, and whatever calls came in between. The clock
  -- of the call is past Go's zero time, and neither it nor a call in between mints this token or the id of
  -- the invitation.
  pub accept_invitation_once :
      (past : List (Inputs × Request)) (i : Inputs) (t : TenantId) (password : String)
      (n : Invitation)
      → IsRedeemable c i t token password hash id n (perform_all c past empty_store)
      → i.now ≢ 0
      → IsFresh c hash id i
      → (between : List (Inputs × Request)) → All (λ x. IsFresh c hash id x.0) between
      → (j : Inputs) (other : TenantId) (again : String) → valid other ≡ true
      → validate_password again ≡ ok tt
      → (accept_invitation c j other token again (
          perform_all c between
            (accept_invitation c i t token password (perform_all c past empty_store)).1)).0
        ≡ err invitation_invalid
  accept_invitation_once past i t password n x clock fresh between apart j other again set
        admissible =
      let s = perform_all c past empty_store in
      let filed =
        perform_all-Keeps IsFiled c past (IsFiled-always c past) empty_store
          (record { rows = tt }) in
      let redeemed =
        accept_invitation-IsRedeemed i t password n s x clock (IsFiled-id id n s filed x.row)
          fresh in
      let later =
        perform_all-Keeps (IsRedeemed hash id) c between (IsRedeemed-always c hash id between apart)
          (accept_invitation c i t token password s).1 redeemed in
      redeemed_refused j other again
        (perform_all c between (accept_invitation c i t token password s).1) x.enabled set
        admissible x.hashed later
