-- ===== src/Authz/Rbac/Local.antt =====
-- Which requirements a grant on the resource itself meets, and which one on another type
-- (authz/rbac.go: `Check` and `ListResources`).
use tamper.Prelude.{
  ℕ, String, String_eq, ℕ_eq, not, ◌&&◌, ◌==◌, ◌≟◌, ◌≡◌, ◌≢◌, subst, inl, inr, ◌↔◌, ◌⊎◌, List, [],
  ◌∷◌, In, keep, arith,
}
use tamper.Tenant.Ident.{TenantId, TenantId_eq}
use tamper.Authz.Types.{Subject, Subject_eq, Resource, Resource_eq, Binding, singleton}
use tamper.Authz.Policy.{Hierarchy, Requirement, rank}
use tamper.Authz.MemStore.{MemStore}
use tamper.Authz.Rbac.{target_of}
use tamper.Authz.Rbac.Effective.{IsGrant}
use tamper.Authz.Rbac.Stored.{IsStored}
use tamper.Authz.Rbac.Subjects.{Shown}
use tamper.Authz.Rbac.Review.{MetBy}
use tamper.Authz.Rbac.Resources.{GlobalMet, LocalMet}

-- A stored grant on the resource itself whose rank meets a requirement on its type.
abbrev pub LocalGrant :
    Hierarchy → MemStore → TenantId → Subject → Resource → List Requirement → Type 0
LocalGrant h m t sub r reqs =
    (b : Binding) × In b m.bindings
    × IsGrant t sub r b
    × LocalMet h r.kind (rank h r.kind b.role) reqs

module _ (h : Hierarchy) (m : MemStore) (t : TenantId) (sub : Subject) (r : Resource) where
  pub MetBy-cases :
      (reqs : List Requirement)
      → MetBy h m t r sub reqs
      → GlobalMet h m t sub r.kind reqs ⊎ LocalGrant h m t sub r reqs
  unfolding target_of
  MetBy-cases [] w = absurd w
  MetBy-cases (req ∷ reqs) (inr w) = elim (MetBy-cases reqs w) [
    | inl g ↦ inl (inr g)
    | inr l ↦ let (b, i, g, k) = l in inr (b, i, g, inr k)
  ]
  MetBy-cases (req ∷ reqs) (inl s) = elim (req.kind ≟ r.kind) [
    | yes p ↦
        let at : target_of req r ≡ r = ground arith in
        let s' = subst (λ x. IsStored h m t sub x (rank h req.kind req.min)) at s in
        inr (s'.binding, s'.stored, s'.grant, inl (p, s'.enough))
    | no n ↦
        let at : target_of req r ≡ singleton req.kind = ground arith in
        inl (inl (n, subst (λ x. IsStored h m t sub x (rank h req.kind req.min)) at s))
  ]

  pub MetBy-of_GlobalMet :
      (reqs : List Requirement) → GlobalMet h m t sub r.kind reqs → MetBy h m t r sub reqs
  unfolding target_of
  MetBy-of_GlobalMet [] w = absurd w
  MetBy-of_GlobalMet (req ∷ reqs) (inr w) = inr (MetBy-of_GlobalMet reqs w)
  MetBy-of_GlobalMet (req ∷ reqs) (inl (n, s)) =
      let at : singleton req.kind ≡ target_of req r = ground arith in
      inl (subst (λ x. IsStored h m t sub x (rank h req.kind req.min)) at s)

  pub MetBy-of_LocalMet :
      (reqs : List Requirement) (b : Binding)
      → In b m.bindings
      → IsGrant t sub r b
      → LocalMet h r.kind (rank h r.kind b.role) reqs
      → MetBy h m t r sub reqs
  unfolding target_of
  MetBy-of_LocalMet [] b i g w = absurd w
  MetBy-of_LocalMet (req ∷ reqs) b i g (inr w) = inr (MetBy-of_LocalMet reqs b i g w)
  MetBy-of_LocalMet (req ∷ reqs) b i g (inl (p, l)) =
      let at : r ≡ target_of req r = ground arith in
      inl (
        subst (λ x. IsStored h m t sub x (rank h req.kind req.min)) at
          (record { binding = b; stored = i; grant = g; enough = l }))

  pub Shown-of_type :
      (kind : String) (n : ℕ) (bs : List Binding)
      → r.kind ≡ kind
      → r.id ≢ ""
      → Shown h t r n sub (
          keep
            (λ b.
              b.tenant == t
              && b.subject == sub
              && b.resource.kind == kind
              && not (b.resource.id == ""))
            bs)
        ↔ Shown h t r n sub bs
  unfolding keep
  Shown-of_type kind n [] k i = ground arith
  Shown-of_type kind n (b ∷ bs) k i = ground (arith, Shown-of_type kind n bs k i)
