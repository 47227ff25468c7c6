-- ===== src/Identity/Types.antt =====
-- identity/identity.go, identity/invitation.go and identity/errors.go: the rows of the store and
-- the errors by their sentinels. A time is a number, 0 for Go's zero time; an authentication time is in
-- whole seconds, 0 for every time that is not after the epoch.
use tamper.Prelude.{ℕ, ◌==◌, ℕ_eq, Bool, not, ◌&&◌, String, ltb}

pub data Error : Type 0 where
  invalid_credentials totp_required invalid_session user_inactive email_taken invalid_email : Error
  password_policy not_found no_token_service tenant_required auth_context_required : Error
  invitation_invalid invitation_consumed no_invitation_store no_membership_store user_id_required :
      Error
  throttled : ℕ → Error
  issue_failed mint_failed hash_failed : Error

pub record User : Type 0 where
  pub id : String
  pub tenant_id : String
  pub email : String
  pub password_hash : String
  pub active : Bool
  pub totp_enrolled : Bool
  pub created_at : ℕ

pub record NewUser : Type 0 where
  pub id : String
  pub tenant_id : String
  pub email : String
  pub password_hash : String
  pub created_at : ℕ

pub record RefreshSession : Type 0 where
  pub id : String
  pub user_id : String
  pub tenant_id : String
  pub token_hash : String
  pub issued_at : ℕ
  pub expires_at : ℕ
  pub revoked_at : ℕ
  pub auth_time : ℕ
  pub acr : String

unfoldable pub revoked : RefreshSession → Bool
revoked s = not (s.revoked_at == 0)

pub record Tokens : Type 0 where
  pub access : String
  pub refresh : String
  pub refresh_expires_at : ℕ

pub record Invitation : Type 0 where
  pub id : String
  pub tenant_id : String
  pub email : String
  pub token_hash : String
  pub expires_at : ℕ
  pub accepted_at : ℕ
  pub invited_by : String
  pub created_at : ℕ

unfoldable pub pending : Invitation → Bool
pending i = i.accepted_at == 0

unfoldable pub expired : ℕ → Invitation → Bool
expired now i = not (ltb now i.expires_at)

unfoldable pub usable : ℕ → Invitation → Bool
unfolding pending expired
usable now i = pending i && not (expired now i)
