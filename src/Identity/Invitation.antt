-- ===== src/Identity/Invitation.antt =====
-- identity/invitation.go: `Invite` and `AcceptInvitation`.
pub mod Redeemed
pub mod Once
use tamper.Prelude.{ℕ, ◌+◌, ◌*◌, ◌==◌, ℕ_eq, String_eq, not, String, if◌then◌else◌}
use tamper.Tenant.Ident.{TenantId, to_string, from_stored}
use tamper.Identity.Types.{
  Error, invitation_invalid, no_invitation_store, mint_failed, hash_failed, User, Tokens,
  Invitation, usable,
}
use tamper.Identity.MemStore.{Answer, create_invitation, invitation_by_hash, mark_accepted}
use tamper.Identity.Action.{pure, asks, given, some_or, any_error, refuse_if, ◌>>=◌, ◌>>◌}
use tamper.Identity.Core.{
  Core, Inputs, second, tenant_gate, normalise_email, validate_password, register,
}

-- Seven days.
abbrev pub default_invitation_ttl : ℕ
default_invitation_ttl = 604800 * second

-- Every error of the step becomes this one.
unfoldable pub answer_as : Error → Answer (Unit {0}) → Answer (Unit {0})
answer_as e m s = let (r, s') = m s in (any_error e r, s')

module _ (c : Core) (i : Inputs) where
  -- The second half of `Invite`. The id of the new invitation is the one that the call would give a
  -- session.
  unfoldable pub offer : TenantId → String → String → ℕ → Answer (Invitation × String)
  unfolding create_invitation to_string
  offer tenant_id email invited_by ttl = do
    token ← some_or mint_failed i.token
    hash ← some_or hash_failed (c.hash_refresh_token token)
    let inv : Invitation = record {
      id = i.session_id;
      tenant_id = to_string tenant_id;
      email = email;
      token_hash = hash;
      expires_at = i.now + (if ttl == 0 then default_invitation_ttl else ttl);
      accepted_at = 0;
      invited_by = invited_by;
      created_at = i.now;
    }
    create_invitation inv
    pure (inv, token)

  unfoldable pub invite : TenantId → String → String → ℕ → Answer (Invitation × String)
  unfolding tenant_gate normalise_email offer
  invite tenant_id email invited_by ttl = do
    refuse_if (not c.invitations_on) no_invitation_store
    given (tenant_gate tenant_id)
    normalised ← given (normalise_email c.lower_trim email)
    offer tenant_id normalised invited_by ttl

  unfoldable pub accept_invitation : TenantId → String → String → Answer (User × Tokens)
  unfolding tenant_gate validate_password invitation_by_hash usable answer_as mark_accepted register
  accept_invitation tenant_id token password = do
    refuse_if (not c.invitations_on) no_invitation_store
    given (tenant_gate tenant_id)
    given (validate_password password)
    hash ← some_or invitation_invalid (c.hash_refresh_token token)
    inv ← asks (λ s. any_error invitation_invalid (invitation_by_hash hash s))
    refuse_if (not (inv.tenant_id == to_string tenant_id)) invitation_invalid
    refuse_if (not (usable i.now inv)) invitation_invalid
    answer_as invitation_invalid (mark_accepted inv.id i.now)
    register c i (from_stored inv.tenant_id) inv.email password
