-- ===== src/Identity/Rotation/Once.antt =====
-- identity/core.go: `Refresh`, and the same token later.
use tamper.Prelude.{
  ◌≡◌, ◌≢◌, sym, subst, ◌∙◌, String, String_eq, Option, none, some, List, [], ◌∷◌, ok, err, All,
  arith,
}
use tamper.Prelude.Dict.{lookup, lookup-insert}
use tamper.Tenant.Ident.{TenantId, from_stored}
use tamper.Identity.Types.{invalid_session, RefreshSession, revoked, User, Tokens}
use tamper.Identity.MemStore.{MemStore, empty_store, revoke_refresh_session}
use tamper.Identity.Core.{Core, Inputs, issue_tokens, refresh}
use tamper.Identity.History.{Request, perform, perform_all}
use tamper.Identity.History.Closed.{IsClosed, minted_hash, perform-Keeps, issue_tokens-Keeps}
use tamper.Identity.Rotation.Spent.{IsSpent, IsFresh, IsSpent-IsClosed}
use tamper.Identity.Rotation.Keyed.{IsKeyed, IsKeyed-id, IsKeyed-IsClosed}
use tamper.Identity.Rotation.Exchange.{IsExchangeable, refresh_inv}

-- The id of the session behind a token.
abbrev pub behind : Core → String → MemStore → Option String
behind c token s = elim (c.hash_refresh_token token) [
  | none ↦ none
  | some h ↦ lookup h s.hash_to_id
]

-- A call that mints neither this token nor the id of its session.
pub record IsApart (c : Core) (token : String) (s : MemStore) (i : Inputs) : Type 0 where
  pub other_token : minted_hash c i ≢ c.hash_refresh_token token
  pub other_session : behind c token s ≢ some i.session_id

pub perform_all-Keeps :
    (P : MemStore → Type 0) (c : Core)
    → (calls : List (Inputs × Request)) → All (λ x. IsClosed P c x.0) calls
    → (s : MemStore) → P s
    → P (perform_all c calls s)
unfolding perform_all
perform_all-Keeps P c [] closed s p = p
perform_all-Keeps P c ((i, r) ∷ rest) closed s p =
    perform_all-Keeps P c rest closed.1 (perform c i r s) (perform-Keeps P c i closed.0 r s p)

IsKeyed-always :
    (c : Core) (calls : List (Inputs × Request)) → All (λ x. IsClosed IsKeyed c x.0) calls
IsKeyed-always c [] = tt
IsKeyed-always c ((i, r) ∷ rest) = (IsKeyed-IsClosed c i, IsKeyed-always c rest)

module _ (c : Core) (token hash id : String) where
  -- The store after a refresh that succeeded.
  refresh-state :
      (i : Inputs) (t : TenantId) (r : RefreshSession) (u : User) (s : MemStore)
      → IsExchangeable c i t token hash id r u s
      → (refresh c i t token s).1
        ≡ (issue_tokens c i r.user_id
            (from_stored r.tenant_id)
            r.auth_time
            r.acr
            []
            (revoke_refresh_session r.id i.now s)).1
  unfolding refresh
  refresh-state i t r u s x = ground arith

  revoked-IsSpent :
      (i : Inputs) (t : TenantId) (r : RefreshSession) (u : User) (s : MemStore)
      → IsExchangeable c i t token hash id r u s
      → i.now ≢ 0
      → r.id ≡ id
      → IsSpent hash id (revoke_refresh_session r.id i.now s)
  unfolding revoke_refresh_session
  revoked-IsSpent i t r u s x n e = record {
    session = record r { revoked_at = i.now };
    indexed = ground (arith, x.indexed);
    row = ground (arith, x.row, lookup-insert r.id id (record r { revoked_at = i.now }) s.sessions);
    spent = n;
  }

  -- A revoked session is refused, in every tenant.
  pub spent_refused :
      (i : Inputs) (t : TenantId) (s : MemStore)
      → c.hash_refresh_token token ≡ some hash
      → IsSpent hash id s
      → (refresh c i t token s).0 ≡ err invalid_session
  unfolding refresh revoked
  spent_refused i t s h p = ground arith

  IsFresh-of_apart :
      (s : MemStore) (i : Inputs)
      → c.hash_refresh_token token ≡ some hash
      → lookup hash s.hash_to_id ≡ some id
      → IsApart c token s i
      → IsFresh c hash id i
  IsFresh-of_apart s i h l a = record {
    other_hash = λ (e : minted_hash c i ≡ some hash). a.other_token (e ∙ sym h);
    other_id = λ (e : i.session_id ≡ id). a.other_session (ground arith);
  }

  IsClosed-of_apart :
      (s : MemStore) (calls : List (Inputs × Request))
      → c.hash_refresh_token token ≡ some hash
      → lookup hash s.hash_to_id ≡ some id
      → All (λ x. IsApart c token s x.0) calls
      → All (λ x. IsClosed (IsSpent hash id) c x.0) calls
  IsClosed-of_apart s [] h l a = tt
  IsClosed-of_apart s ((i, r) ∷ rest) h l a = (
    IsSpent-IsClosed hash id c i (IsFresh-of_apart s i h l a.0),
    IsClosed-of_apart s rest h l a.1,
  )

  once :
      (i : Inputs) (t : TenantId) (r : RefreshSession) (u : User) (s : MemStore)
      → IsExchangeable c i t token hash id r u s
      → i.now ≢ 0
      → r.id ≡ id
      → IsApart c token s i
      → (between : List (Inputs × Request)) → All (λ x. IsApart c token s x.0) between
      → (j : Inputs) (other : TenantId)
      → (refresh c j other token (perform_all c between (refresh c i t token s).1)).0
        ≡ err invalid_session
  once i t r u s x n e a between apart j other =
      let P = IsSpent hash id in
      let minted =
        issue_tokens-Keeps P c i
          (IsSpent-IsClosed hash id c i (IsFresh-of_apart s i x.hashed x.indexed a)) r.user_id
          (from_stored r.tenant_id) r.auth_time r.acr [] in
      let spent =
        minted.after (revoke_refresh_session r.id i.now s) (revoked-IsSpent i t r u s x n e) in
      let later =
        perform_all-Keeps P c between (IsClosed-of_apart s between x.hashed x.indexed apart)
          (refresh c i t token s).1 (subst P (sym (refresh-state i t r u s x)) spent) in
      spent_refused j other (perform_all c between (refresh c i t token s).1) x.hashed later

-- After any history of calls on an empty store, a refresh token that was exchanged is refused in
-- every tenant, whatever is called in between, as long as no call mints the same token again or gives
-- another session the same id; the clock is past Go's zero time.
pub refresh_once :
    (c : Core) (past : List (Inputs × Request)) (i : Inputs) (t : TenantId) (token : String)
    (u : User) (k : Tokens) (between : List (Inputs × Request)) (j : Inputs) (other : TenantId)
    → (refresh c i t token (perform_all c past empty_store)).0 ≡ ok (u, k)
    → i.now ≢ 0
    → IsApart c token (perform_all c past empty_store) i
    → All (λ x. IsApart c token (perform_all c past empty_store) x.0) between
    → (refresh c j other token
        (perform_all c between (refresh c i t token (perform_all c past empty_store)).1)).0
      ≡ err invalid_session
refresh_once c past i t token u k between j other done n a apart =
    let s = perform_all c past empty_store in
    let (hash, id, r, x) = refresh_inv c i t token s u k done in
    let keyed =
      perform_all-Keeps IsKeyed c past (IsKeyed-always c past) empty_store (record { rows = tt }) in
    once c token hash id i t r u s x n (IsKeyed-id id r s keyed x.row) a between apart j other
