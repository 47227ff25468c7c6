-- ===== src/Authz/Rbac/Bulk.antt =====
-- A bulk check is the single checks, in order (authz/rbac.go: `CheckBulk`).
use tamper.Prelude.{◌≡◌, ◌↔◌, true, List, [], ◌∷◌, ok, map_results, arith}
use tamper.Tenant.Ident.{TenantId, valid}
use tamper.Authz.Types.{CheckRequest, Decision, scope_gate}
use tamper.Authz.Rbac.{Rbac, check, check_bulk}

-- Each decision is the engine's own for the request in its place.
abbrev pub AreAligned : Rbac → TenantId → List CheckRequest → List Decision → Type 0
AreAligned e t [] [] = Unit
AreAligned e t (r ∷ reqs) (d ∷ ds) =
    (check e t r.subject r.action r.resource ≡ ok d) × AreAligned e t reqs ds
AreAligned e t _ _ = ⊥

module _ (e : Rbac) (t : TenantId) where
  map_results-AreAligned :
      (reqs : List CheckRequest) (ds : List Decision)
      → (map_results (λ (r : CheckRequest). check e t r.subject r.action r.resource) reqs ≡ ok ds)
        ↔ AreAligned e t reqs ds
  unfolding map_results
  map_results-AreAligned [] [] = ground arith
  map_results-AreAligned [] (d ∷ ds) = ground arith
  map_results-AreAligned (r ∷ reqs) [] = ground arith
  map_results-AreAligned (r ∷ reqs) (d ∷ ds) = ground (arith, map_results-AreAligned reqs ds)

-- A bulk check answers exactly if the scope is set, also for no request at all, and every single
-- check answers; then its decisions are theirs, in the order of the requests.
pub check_bulk-AreAligned :
    (e : Rbac) (t : TenantId) (reqs : List CheckRequest) (ds : List Decision)
    → (check_bulk e t reqs ≡ ok ds) ↔ ((valid t ≡ true) × AreAligned e t reqs ds)
unfolding check_bulk scope_gate
check_bulk-AreAligned e t reqs ds = ground (arith, map_results-AreAligned e t reqs ds)
