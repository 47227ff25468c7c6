-- ===== src/Tenant/Hierarchy/Verdict.antt =====
-- What `Ancestors` promises (tenant/hierarchy.go): every way that the walk can end.
use tamper.Prelude.{
  ◌≤◌, true, false, ◌≡◌, refl, sym, subst, some, inl, inr, ◌⊎◌, ◌↔◌, List, [], ◌∷◌, length, In,
  Distinct, Result, ok, err, Result-cases, arith,
}
use tamper.Tenant.Ident.{TenantId, valid, is_single, to_string}
use tamper.Tenant.Errors.{Error}
use tamper.Tenant.Store.{Store, Descriptor}
use tamper.Tenant.Hierarchy.{climb, ancestors}
use tamper.Tenant.Hierarchy.Chains.{
  Above, Climbs, Stuck, Distinct-of_NoRepeat, NoRepeat-of_Distinct, NoRepeat-unseen, In-seen_after,
  Stuck-ext, seen_after, NoRepeat,
}
use tamper.Tenant.Hierarchy.Walk.{Outcome, climb-Outcome, ok-climb}

-- The chain of parents of a tenant, up to a root: no tenant twice, and no longer than the limit.
abbrev pub IsChain : Store → TenantId → List TenantId → Type 0
IsChain s id chain =
    ((d : Descriptor) × (s.by_id (to_string id) ≡ ok d) × Above s d chain)
    × Distinct (id ∷ chain)
    × (length chain ≤ 32)

-- Every way that a walk ends: a chain up to a root, the store's error for the tenant itself, or
-- a path of parents that was read, and at its end the reason why it goes no further.
abbrev pub Verdict : Store → TenantId → Result Error (List TenantId) → Type 0
Verdict s id (ok chain) = IsChain s id chain
Verdict s id (err x) =
    (s.by_id (to_string id) ≡ err x)
    ⊎ ((d : Descriptor) × (path : List TenantId) × (e : Descriptor) × (s.by_id (to_string id)
          ≡ ok d)
        × Climbs s d path e
        × Distinct (id ∷ path)
        × Stuck s (id ∷ path) e (length path) x)

-- Beyond the two identifiers that are not walked, the row is read and the loop is run.
ancestors_lem :
    (s : Store) (id : TenantId) (d : Descriptor) {r : Result Error (List TenantId)}
    → valid id ≡ true
    → is_single id ≡ false
    → s.by_id (to_string id) ≡ ok d
    → climb 33 s (id ∷ []) [] d ≡ some r
    → ancestors s id ≡ r
unfolding ancestors
ancestors_lem s id d v n e c = rw (v, n, e, c)

ancestors_err :
    (s : Store) (id : TenantId) (x : Error)
    → valid id ≡ true
    → is_single id ≡ false
    → s.by_id (to_string id) ≡ err x
    → ancestors s id ≡ err x
unfolding ancestors
ancestors_err s id x v n e = rw (v, n, e)

Distinct-of_walk : (id : TenantId) (l : List TenantId) → NoRepeat (id ∷ []) l → Distinct (id ∷ l)
Distinct-of_walk id l n =
    (λ m. NoRepeat-unseen id (id ∷ []) l n m (inl refl), Distinct-of_NoRepeat (id ∷ []) l n)

In-walked : (a id : TenantId) (l : List TenantId) → In a (seen_after (id ∷ []) l) ↔ In a (id ∷ l)
In-walked a id l = ground (arith, In-seen_after a (id ∷ []) l)

Verdict-of_Outcome :
    (s : Store) (id : TenantId) (d : Descriptor) (r : Result Error (List TenantId))
    → s.by_id (to_string id) ≡ ok d
    → Outcome s (id ∷ []) [] d r
    → Verdict s id r
Verdict-of_Outcome s id d (ok r) e (rest, eq, above, fresh, len) =
    subst (IsChain s id) (sym eq) ((d, e, above), Distinct-of_walk id rest fresh, omega arith)
Verdict-of_Outcome s id d (err x) e (path, f, climbs, fresh, stuck) = inr (
  d,
  path,
  f,
  e,
  climbs,
  Distinct-of_walk id path fresh,
  Stuck-ext s _ (id ∷ path) f (length path) x (λ a. In-walked a id path)
      (subst (λ k. Stuck s (seen_after (id ∷ []) path) f k x) (omega arith) stuck),
)

-- However a walk from a tenant that was set and is not the single tenant ends, it ends by its
-- verdict: with the chain of parents up to a root, which names no tenant twice and is at most 32
-- long; with the store's error for the tenant itself; or after a path of parents, with the cycle
-- that the next parent closes, the limit that the path has reached, or the error of the store
-- for the next parent. The fuel of the loop never runs out.
pub ancestors-Verdict :
    (s : Store) (id : TenantId)
    → valid id ≡ true
    → is_single id ≡ false
    → Verdict s id (ancestors s id)
ancestors-Verdict s id v n = elim (Result-cases (s.by_id (to_string id))) [
  | inl (d, e) ↦
      let (r, q, o) = climb-Outcome s 33 (id ∷ []) [] d (omega arith) (omega arith) in
      subst (Verdict s id) (sym (ancestors_lem s id d v n e q)) (Verdict-of_Outcome s id d r e o)
  | inr (x, e) ↦ subst (Verdict s id) (sym (ancestors_err s id x v n e)) (inl e)
]

-- A tenant that was set and is not the single tenant has a chain as its ancestors exactly when
-- that is its chain of parents up to a root, with no tenant twice and at most 32 long.
pub ancestors-IsChain :
    (s : Store) (id : TenantId) (chain : List TenantId)
    → valid id ≡ true
    → is_single id ≡ false
    → (ancestors s id ≡ ok chain) ↔ IsChain s id chain
ancestors-IsChain s id chain v n = (
  λ e. subst (Verdict s id) e (ancestors-Verdict s id v n),
  λ c. ancestors_lem s id c.0.0 v n c.0.1 (
      ok-climb s chain 33 (id ∷ []) [] c.0.0 c.0.2
        (NoRepeat-of_Distinct (id ∷ []) chain c.1.1 (λ a i m. c.1.0 (ground arith))) (omega arith)
        (omega arith)),
)
