-- ===== src/Identity/Login.antt =====
-- identity/core.go: `Login`.
use Prim.Native.Nat.{◌/◌}
use tamper.Prelude.{
  ◌≡◌, ◌≢◌, ◌↔◌, String, String_eq, true, false, Option-cases, Result-cases, none, some, [], ◌∷◌,
  inl, inr, ok, arith,
}
use tamper.Prelude.Dict.{lookup}
use tamper.Tenant.Ident.{TenantId, valid, to_string, from_stored}
use tamper.Identity.Types.{User, Tokens}
use tamper.Identity.MemStore.{MemStore, tenant_key, user_by_email}
use tamper.Identity.Core.{
  Core, Inputs, second, tenant_gate, normalise_email, issue_tokens, second_factor_required_at_login,
  not_throttled, user_by_email_gated, allow_login, login,
}

-- An address and a password that may log in to a tenant, and the user behind them.
pub record IsAdmitted (c : Core) (i : Inputs) (t : TenantId) (email password address id : String)
    (u : User) (s : MemStore) : Type 0 where
  pub normalised : normalise_email c.lower_trim email ≡ ok address
  pub unthrottled : allow_login c i t address ≡ none
  pub set : valid t ≡ true
  pub indexed : lookup (tenant_key (to_string t) address) s.email_to_id ≡ some id
  pub row : lookup id s.users_by_id ≡ some u
  pub has_password : u.password_hash ≢ ""
  pub active : u.active ≡ true
  pub verified : c.verify_password u.password_hash password ≡ true
  pub not_enrolled : u.totp_enrolled ≡ false
  pub one_factor : second_factor_required_at_login c i.now (from_stored u.tenant_id) u.id ≡ false

module _ (c : Core) (i : Inputs) (t : TenantId) (email password : String) where
  login_inv :
      (s : MemStore) (u : User) (k : Tokens)
      → (login c i t email password s).0 ≡ ok (u, k)
      → (address : String) × (id : String) × IsAdmitted c i t email password address id u s
  unfolding login not_throttled user_by_email_gated user_by_email tenant_gate
  login_inv s u k h = elim (Result-cases (normalise_email c.lower_trim email)) [
    | inr (e, refused) ↦ absurd (ground arith)
    | inl (address, normal) ↦
        elim (Option-cases (lookup (tenant_key (to_string t) address) s.email_to_id)) [
          | inl unknown ↦ absurd (ground arith)
          | inr (id, indexed) ↦ elim (Option-cases (lookup id s.users_by_id)) [
            | inl no_row ↦ absurd (ground arith)
            | inr (u', row) ↦ (address, id, ground arith)
          ]
        ]
  ]

  answer :
      (address id : String) (u : User) (k : Tokens) (s : MemStore)
      → IsAdmitted c i t email password address id u s
      → ((login c i t email password s).0 ≡ ok (u, k)) ↔ (
          (issue_tokens c i u.id
            (from_stored u.tenant_id)
            (i.now / second)
            c.default_acr
            ("pwd" ∷ [])
            s).0
          ≡ ok k)
  unfolding login not_throttled user_by_email_gated user_by_email tenant_gate
  answer address id u k s x = ground arith

  -- A login succeeds exactly if the address, made canonical, may log in at this time, it is that of an active
  -- user of the tenant with this password, no second factor is due, and tokens can be issued: for this
  -- user, in its tenant, with this time of authentication.
  pub login_iff :
      (s : MemStore) (u : User) (k : Tokens)
      → ((login c i t email password s).0 ≡ ok (u, k)) ↔ (
          (address : String) × (id : String) × IsAdmitted c i t email password address id u s
          × ((issue_tokens c i u.id
                (from_stored u.tenant_id)
                (i.now / second)
                c.default_acr
                ("pwd" ∷ [])
                s).0
              ≡ ok k))
  login_iff s u k = (
    λ h.
        let (address, id, x) = login_inv s u k h in
        (address, id, x, (answer address id u k s x).0 h),
    λ (address, id, x, issued). (answer address id u k s x).1 issued,
  )
