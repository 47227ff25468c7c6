-- ===== src/Authz/Rbac/Effective.antt =====
-- The effective role is the highest of the bindings that match (authz/rbac.go).
use tamper.Prelude.{
  ℕ, ◌≤◌, ◌<◌, true, ◌&&◌, ◌≡◌, refl, sym, ap, ◌∙◌, subst, inl, inr, ◌⊎◌, ◌↔◌, List, [], ◌∷◌, In,
  if◌then◌else◌, ltb, ok, >>=-eq-ok, arith,
}
use tamper.Tenant.Ident.{TenantId}
use tamper.Authz.Types.{Subject, Resource, Role, Binding}
use tamper.Authz.Policy.{Hierarchy, rank}
use tamper.Authz.Rbac.{Rbac, matches, best_of, effective}

-- The binding is a grant to exactly this subject, on exactly this resource, in exactly this
-- scope.
pub record IsGrant (tenant_id : TenantId) (sub : Subject) (res : Resource) (b : Binding)
    : Type 0 where
  pub in_scope : b.tenant ≡ tenant_id
  pub to_subject : b.subject ≡ sub
  pub on_resource : b.resource ≡ res

pub matches-IsGrant :
    (t : TenantId) (sub : Subject) (res : Resource) (b : Binding)
    → (matches t sub res b ≡ true) ↔ IsGrant t sub res b
unfolding matches
matches-IsGrant t sub res b =
    (λ h. ground arith, λ g. ground (arith, g.in_scope, g.to_subject, g.on_resource))

module _ (h : Hierarchy) (t : TenantId) (sub : Subject) (res : Resource) where
  -- One round of the loop.
  improve : Role × ℕ → Binding → Role × ℕ
  improve best b =
      if matches t sub res b && ltb best.1 (rank h res.kind b.role)
      then (b.role, rank h res.kind b.role)
      else best

  improve_ge :
      (best : Role × ℕ) (b : Binding)
      → (best.1 ≤ (improve best b).1)
        × (matches t sub res b ≡ true → rank h res.kind b.role ≤ (improve best b).1)
        × (((improve best b).1 ≡ best.1)
            ⊎ ((matches t sub res b ≡ true) × (rank h res.kind b.role ≡ (improve best b).1)))
  unfolding improve
  improve_ge best b = ground arith

  best_of_ge : (best : Role × ℕ) (bs : List Binding) → best.1 ≤ (best_of h t sub res best bs).1
  unfolding best_of improve
  best_of_ge best [] = omega arith
  best_of_ge best (b ∷ bs) = omega (arith, improve_ge best b, best_of_ge (improve best b) bs)

  best_of_highest :
      (best : Role × ℕ) (bs : List Binding) (b : Binding)
      → In b bs
      → matches t sub res b ≡ true
      → rank h res.kind b.role ≤ (best_of h t sub res best bs).1
  unfolding best_of improve
  best_of_highest best (c ∷ bs) b (inl e) m = omega (
    arith,
    (improve_ge best c).1 (subst (λ x. matches t sub res x ≡ true) e m),
    best_of_ge (improve best c) bs,
    ap (λ (x : Binding). rank h res.kind x.role) e,
  )
  best_of_highest best (c ∷ bs) b (inr i) m = best_of_highest (improve best c) bs b i m
  best_of_highest best [] b i m = absurd i

  best_of_held :
      (best : Role × ℕ) (bs : List Binding)
      → ((best_of h t sub res best bs).1 ≡ best.1)
        ⊎ ((b : Binding) × In b bs
            × (matches t sub res b ≡ true)
            × (rank h res.kind b.role ≡ (best_of h t sub res best bs).1))
  unfolding best_of improve
  best_of_held best [] = inl refl
  best_of_held best (c ∷ bs) = elim (best_of_held (improve best c) bs) [
    | inl e ↦ elim (improve_ge best c).2 [
      | inl p ↦ inl (e ∙ p)
      | inr p ↦ inr (c, inl refl, p.0, p.1 ∙ sym e)
    ]
    | inr w ↦ inr (w.0, inr w.1, w.2, w.3)
  ]

-- The store reports a grant of at least the rank `n` on the resource.
pub record IsHeld (e : Rbac) (t : TenantId) (sub : Subject) (res : Resource) (n : ℕ) : Type 0 where
  pub bindings : List Binding
  pub read : e.store.bindings_for t sub res ≡ ok bindings
  pub binding : Binding
  pub reported : In binding bindings
  pub grant : IsGrant t sub res binding
  pub enough : n ≤ rank e.h res.kind binding.role

-- A rank above 0 is reached exactly by a grant that the store reports.
pub effective-IsHeld :
    (e : Rbac) (t : TenantId) (sub : Subject) (res : Resource) (n : ℕ) {best : Role × ℕ}
    → effective e t sub res ≡ ok best
    → 0 < n
    → (n ≤ best.1) ↔ IsHeld e t sub res n
unfolding effective
effective-IsHeld e t sub res n {best} q pos =
    let (bs, read, eq) = >>=-eq-ok (e.store.bindings_for t sub res) _ q in
    let best_is : best_of e.h t sub res ("", 0) bs ≡ best = ground arith in
    (
      λ le. elim (best_of_held e.h t sub res ("", 0) bs) [
        | inl z ↦ absurd (omega (arith, ap (λ (x : Role × ℕ). x.1) best_is))
        | inr w ↦ record {
          bindings = bs;
          read = read;
          binding = w.0;
          reported = w.1;
          grant = (matches-IsGrant t sub res w.0).0 w.2;
          enough = omega (arith, w.3, ap (λ (x : Role × ℕ). x.1) best_is);
        }
      ],
      λ w.
          let same : w.bindings ≡ bs = cc (w.read, read) in
          let reported = subst (In w.binding) same w.reported in
          omega (
            arith,
            w.enough,
            best_of_highest e.h t sub res ("", 0) bs w.binding reported
                ((matches-IsGrant t sub res w.binding).1 w.grant),
            ap (λ (x : Role × ℕ). x.1) best_is,
          ),
    )
