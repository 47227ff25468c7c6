-- ===== src/Authz/Rbac/Subjects.antt =====
-- The list of subjects agrees with the single decisions (authz/rbac.go, authz/memstore.go).
use tamper.Prelude.{
  ℕ, ◌≤◌, String_eq, true, ◌&&◌, ◌==◌, ◌≡◌, refl, inl, inr, ◌↔◌, ◌⊎◌, List, [], ◌∷◌, ◌++◌, In,
  In-append_left, In-append_right, In-append_cases, In-of_contains, All, keep, ok, arith,
}
use tamper.Tenant.Ident.{TenantId, TenantId_eq, valid}
use tamper.Authz.Types.{Subject, Subject_eq, Resource, Resource_eq, Binding}
use tamper.Authz.Policy.{Hierarchy, rank}
use tamper.Authz.MemStore.{MemStore}
use tamper.Authz.Rbac.{Rbac, collect_subjects}
use tamper.Authz.Rbac.Effective.{IsGrant}
use tamper.Authz.Rbac.Stored.{IsStored}

-- One of the bindings is a grant to the subject on the target, of at least the rank.
abbrev pub Shown : Hierarchy → TenantId → Resource → ℕ → Subject → List Binding → Type 0
Shown h t target n sub [] = ⊥
Shown h t target n sub (b ∷ bs) =
    ((b.tenant ≡ t) × (b.subject ≡ sub) × (b.resource ≡ target) × (n ≤ rank h target.kind b.role))
    ⊎ Shown h t target n sub bs

In-snoc : (a x : Subject) (l : List Subject) → In a (l ++ x ∷ []) ↔ (In a l ⊎ (a ≡ x))
In-snoc a x l = (
  λ i. ground (arith, In-append_cases a l (x ∷ []) i),
  λ c. elim c [
    | inl i ↦ In-append_left a l (x ∷ []) i
    | inr q ↦ In-append_right a l (x ∷ []) (inl q)
  ],
)

-- A list of subjects that all have a home tenant.
abbrev AllHome : List Subject → Type 0
AllHome = All (λ s. valid s.tenant ≡ true)

module _ (e : Rbac) (t : TenantId) (target : Resource) (n : ℕ) (sub : Subject) where
  -- What the loop over the bindings on one target adds.
  pub collect_subjects-Shown :
      (out : List Subject) (bs : List Binding) {out' : List Subject}
      → collect_subjects e t target n out bs ≡ ok out'
      → In sub out' ↔ (In sub out ⊎ Shown e.h t target n sub bs)
  unfolding collect_subjects
  collect_subjects-Shown out [] h = ground arith
  collect_subjects-Shown out (b ∷ bs) {out'} h = ground (
    arith,
    collect_subjects-Shown out bs {out' = out'},
    collect_subjects-Shown (out ++ b.subject ∷ []) bs {out' = out'},
    In-snoc sub b.subject out,
    In-of_contains b.subject out,
  )

  pub collect_subjects-home :
      (out : List Subject) (bs : List Binding) {out' : List Subject}
      → (In sub out → valid sub.tenant ≡ true)
      → collect_subjects e t target n out bs ≡ ok out'
      → In sub out'
      → valid sub.tenant ≡ true
  unfolding collect_subjects
  collect_subjects-home out [] a h i = ground arith
  collect_subjects-home out (b ∷ bs) {out'} a h i = ground (
    arith,
    collect_subjects-home out bs {out' = out'} a,
    collect_subjects-home (out ++ b.subject ∷ []) bs {out' = out'},
    In-snoc sub b.subject out,
  )

module _ (h : Hierarchy) (m : MemStore) (t : TenantId) (target : Resource) (n : ℕ)
    (sub : Subject) where
  Shown-keep :
      (bs : List Binding)
      → Shown h t target n sub (keep (λ b. b.tenant == t && b.resource == target) bs)
        ↔ Shown h t target n sub bs
  unfolding keep
  Shown-keep [] = ground arith
  Shown-keep (b ∷ bs) = ground (arith, Shown-keep bs)

  pub Shown-In :
      (bs : List Binding)
      → Shown h t target n sub bs
        ↔ ((b : Binding) × In b bs × IsGrant t sub target b × (n ≤ rank h target.kind b.role))
  Shown-In [] = (λ w. absurd w, λ w. absurd w.1)
  Shown-In (b ∷ bs) = (
    λ w. elim w [
      | inl g ↦ (b, inl refl, record { in_scope = g.0; to_subject = g.1; on_resource = g.2 }, g.3)
      | inr r ↦ let (c, i, g, l) = (Shown-In bs).0 r in (c, inr i, g, l)
    ],
    λ w.
        let (c, i, g, l) = w in
        elim i [
          | inl q ↦ inl (ground (arith, g.in_scope, g.to_subject, g.on_resource))
          | inr i' ↦ inr ((Shown-In bs).1 (c, i', g, l))
        ],
  )

  pub Shown-IsStored :
      Shown h t target n sub (keep (λ b. b.tenant == t && b.resource == target) m.bindings)
      ↔ IsStored h m t sub target n
  Shown-IsStored = (
    λ w.
        let (b, i, g, l) = (Shown-In m.bindings).0 ((Shown-keep m.bindings).0 w) in
        record { binding = b; stored = i; grant = g; enough = l },
    λ s.
        (Shown-keep m.bindings).1
          ((Shown-In m.bindings).1 (s.binding, s.stored, s.grant, s.enough)),
  )
