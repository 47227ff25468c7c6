-- ===== src/Authz/Rbac/Resources.antt =====
-- What the two loops of `ListResources` compute, over the in-memory store of bindings
-- (authz/rbac.go, authz/memstore.go).
use tamper.Prelude.{
  Bool, ℕ, ◌≤◌, ◌<◌, String, String_eq, ℕ_eq, true, ◌||◌, ◌==◌, ◌≡◌, ◌≢◌, inl, inr, ◌↔◌, ◌⊎◌, List,
  [], ◌∷◌, ◌++◌, In, In-append_left, In-append_right, In-append_cases, In-of_contains, All, ltb,
  if◌then◌else◌, ok, arith,
}
use tamper.Tenant.Ident.{TenantId, TenantId_eq, valid}
use tamper.Authz.Types.{Subject, Subject_eq, Resource, Resource_eq, Binding, Role, singleton}
use tamper.Authz.Policy.{Hierarchy, Requirement, rank}
use tamper.Authz.MemStore.{MemStore, mem_as_store}
use tamper.Authz.Rbac.{Rbac, effective, scan_requirements, collect_resources}
use tamper.Authz.Rbac.Effective.{effective-IsHeld}
use tamper.Authz.Rbac.Subjects.{Shown}
use tamper.Authz.Rbac.Stored.{IsStored, IsHeld-IsStored, effective_total}

-- A requirement on another type than the asked one is met on that type's singleton.
abbrev pub GlobalMet :
    Hierarchy → MemStore → TenantId → Subject → String → List Requirement → Type 0
GlobalMet h m t sub kind [] = ⊥
GlobalMet h m t sub kind (req ∷ reqs) =
    ((req.kind ≢ kind) × IsStored h m t sub (singleton req.kind) (rank h req.kind req.min))
    ⊎ GlobalMet h m t sub kind reqs

-- The rank `k` on the asked type meets a requirement on it.
abbrev pub LocalMet : Hierarchy → String → ℕ → List Requirement → Type 0
LocalMet h kind k [] = ⊥
LocalMet h kind k (req ∷ reqs) =
    ((req.kind ≡ kind) × (rank h req.kind req.min ≤ k)) ⊎ LocalMet h kind k reqs

module _ (e : Rbac) (m : MemStore) (held_by : e.store ≡ mem_as_store m) (t : TenantId)
    (sub : Subject) (scope : valid t ≡ true) (home : valid sub.tenant ≡ true) (kind : String) where
  global :
      (req : Requirement) {best : Role × ℕ}
      → 0 < rank e.h req.kind req.min
      → effective e t sub (singleton req.kind) ≡ ok best
      → (rank e.h req.kind req.min ≤ best.1)
        ↔ IsStored e.h m t sub (singleton req.kind) (rank e.h req.kind req.min)
  global req {best} pos q =
      let held =
        effective-IsHeld e t sub (singleton req.kind) (rank e.h req.kind req.min) {best = best} q
          pos in
      let stored =
        IsHeld-IsStored e m held_by t sub scope home (singleton req.kind)
          (rank e.h req.kind req.min) in
      (λ l. stored.0 (held.0 l), λ s. held.1 (stored.1 s))

  pub scan_requirements-GlobalMet :
      (unbounded : Bool) (lowest : ℕ) (reqs : List Requirement) {out : Bool × ℕ}
      → All (λ req. 0 < rank e.h req.kind req.min) reqs
      → scan_requirements e t sub kind unbounded lowest reqs ≡ ok out
      → (out.0 ≡ true) ↔ ((unbounded ≡ true) ⊎ GlobalMet e.h m t sub kind reqs)
  unfolding scan_requirements
  scan_requirements-GlobalMet unbounded lowest [] a h = ground arith
  scan_requirements-GlobalMet unbounded lowest (req ∷ reqs) {out} a h =
      let (best, eff) = effective_total e m held_by t sub scope home (singleton req.kind) in
      let r = rank e.h kind req.min in
      let lower = if lowest == 0 || ltb r lowest then r else lowest in
      ground (
        arith,
        eff,
        global req {best = best} a.0 eff,
        scan_requirements-GlobalMet unbounded lower reqs {out = out} a.1,
        scan_requirements-GlobalMet unbounded lowest reqs {out = out} a.1,
        scan_requirements-GlobalMet true lowest reqs {out = out} a.1,
      )

  pub scan_requirements-LocalMet :
      (k : ℕ) (unbounded : Bool) (lowest : ℕ) (reqs : List Requirement) {out : Bool × ℕ}
      → All (λ req. 0 < rank e.h req.kind req.min) reqs
      → scan_requirements e t sub kind unbounded lowest reqs ≡ ok out
      → ((0 < out.1) × (out.1 ≤ k)) ↔ (((0 < lowest) × (lowest ≤ k)) ⊎ LocalMet e.h kind k reqs)
  unfolding scan_requirements
  scan_requirements-LocalMet k unbounded lowest [] a h = ground arith
  scan_requirements-LocalMet k unbounded lowest (req ∷ reqs) {out} a h =
      let (best, eff) = effective_total e m held_by t sub scope home (singleton req.kind) in
      let r = rank e.h kind req.min in
      let lower = if lowest == 0 || ltb r lowest then r else lowest in
      ground (
        arith,
        eff,
        scan_requirements-LocalMet k unbounded lower reqs {out = out} a.1,
        scan_requirements-LocalMet k unbounded lowest reqs {out = out} a.1,
        scan_requirements-LocalMet k true lowest reqs {out = out} a.1,
      )

  In-snoc_resource : (a x : Resource) (l : List Resource) → In a (l ++ x ∷ []) ↔ (In a l ⊎ (a ≡ x))
  In-snoc_resource a x l = (
    λ i. ground (arith, In-append_cases a l (x ∷ []) i),
    λ c. elim c [
      | inl i ↦ In-append_left a l (x ∷ []) i
      | inr q ↦ In-append_right a l (x ∷ []) (inl q)
    ],
  )

  pub collect_resources-Shown :
      (n : ℕ) (r : Resource) (out : List Resource) (bs : List Binding)
      → In r (collect_resources e t sub kind n out bs)
        ↔ (In r out ⊎ ((r.kind ≡ kind) × (r.id ≢ "") × Shown e.h t r n sub bs))
  unfolding collect_resources
  collect_resources-Shown n r out [] = ground arith
  collect_resources-Shown n r out (b ∷ bs) = ground (
    arith,
    collect_resources-Shown n r out bs,
    collect_resources-Shown n r (out ++ b.resource ∷ []) bs,
    In-snoc_resource r b.resource out,
    In-of_contains b.resource out,
  )
