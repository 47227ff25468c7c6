-- ===== src/Identity/History.antt =====
-- What may be asked of a core, one request after another; each reads the world anew.
pub mod Closed
use tamper.Prelude.{ℕ, String, List, [], ◌∷◌}
use tamper.Tenant.Ident.{TenantId}
use tamper.Identity.MemStore.{MemStore}
use tamper.Identity.Core.{
  Core, Inputs, login, register, issue_tokens_for_user, refresh, logout, revoke_all_sessions,
  revoke_all_sessions_for_tenant,
}
use tamper.Identity.Invitation.{invite, accept_invitation}

-- The calls that can write; entering a tenant only reads.
pub data Request : Type 0 where
  logged_in : TenantId → String → String → Request
  registered : TenantId → String → String → Request
  minted : String → TenantId → ℕ → String → List String → Request
  refreshed : TenantId → String → Request
  logged_out : TenantId → String → Request
  revoked_user : TenantId → String → Request
  revoked_tenant : TenantId → Request
  invited : TenantId → String → String → ℕ → Request
  accepted : TenantId → String → String → Request

unfoldable pub perform : Core → Inputs → Request → MemStore → MemStore
unfolding login register issue_tokens_for_user refresh logout revoke_all_sessions
    revoke_all_sessions_for_tenant invite accept_invitation
perform c i (logged_in t e p) s = (login c i t e p s).1
perform c i (registered t e p) s = (register c i t e p s).1
perform c i (minted u t a acr amr) s = (issue_tokens_for_user c i u t a acr amr s).1
perform c i (refreshed t k) s = (refresh c i t k s).1
perform c i (logged_out t k) s = (logout c i t k s).1
perform c i (revoked_user t u) s = (revoke_all_sessions c i t u s).1
perform c i (revoked_tenant t) s = (revoke_all_sessions_for_tenant c i t s).1
perform c i (invited t e b n) s = (invite c i t e b n s).1
perform c i (accepted t k p) s = (accept_invitation c i t k p s).1

unfoldable pub perform_all : Core → List (Inputs × Request) → MemStore → MemStore
unfolding perform
perform_all c [] s = s
perform_all c ((i, r) ∷ rest) s = perform_all c rest (perform c i r s)
