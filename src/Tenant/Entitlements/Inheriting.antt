-- ===== src/Tenant/Entitlements/Inheriting.antt =====
-- The plan of a tenant, widened by the plans of its ancestors (tenant/entitlement_inherit.go).
use tamper.Prelude.{
  true, false, ◌≡◌, subst, ◌⊎◌, inl, inr, Bool-cases, List, [], ◌∷◌, All, ok, >>=-eq-ok,
}
use tamper.Tenant.Ident.{TenantId}
use tamper.Tenant.Store.{Store}
use tamper.Tenant.Hierarchy.{ancestors}
use tamper.Tenant.Entitlements.{Entitlements, is_zero, union, EntitlementStore, widen, for_tenant}
use tamper.Tenant.Entitlements.Union.{
  IsSound, GrantsAtLeast, GrantsAtLeast-refl, GrantsAtLeast-trans, union-GrantsAtLeast, union_comm,
  union_laws, union_not_zero,
}

-- The plan that the store gives a tenant is granted by `g`, if it is a plan at all.
abbrev pub Granted : EntitlementStore → Entitlements → TenantId → Type 0
Granted inner g id =
    (r : Entitlements) × (inner id ≡ ok r) × ((is_zero r ≡ true) ⊎ GrantsAtLeast g r)

unless_zero :
    {g : Entitlements} (r : Entitlements)
    → (is_zero r ≡ false → GrantsAtLeast g r)
    → (is_zero r ≡ true) ⊎ GrantsAtLeast g r
unless_zero r f = elim (Bool-cases (is_zero r)) [ inl y ↦ inl y | inr n ↦ inr (f n) ]

module _ (inner : EntitlementStore)
    (sound : (id : TenantId) (r : Entitlements) → inner id ≡ ok r → IsSound r) where
  widen-own :
      (chain : List TenantId) (own : Entitlements) {g : Entitlements}
      → IsSound own
      → widen inner own chain ≡ ok g
      → is_zero own ≡ false
      → GrantsAtLeast g own
  unfolding widen
  widen-own [] own {g} s h z =
      let same : own ≡ g = cc in subst (λ x. GrantsAtLeast x own) same (GrantsAtLeast-refl own)
  widen-own (a ∷ chain) own s h z =
      let (r, read, rest) = >>=-eq-ok (inner a) (λ r. widen inner (union own r) chain) h in
      GrantsAtLeast-trans
        (widen-own chain (union own r) (union_laws own r own s (sound a r read) s).3 rest
          (union_not_zero own r s (sound a r read) z))
        (union-GrantsAtLeast own r z)

  widen-Granted :
      (chain : List TenantId) (own : Entitlements) {g : Entitlements}
      → IsSound own
      → widen inner own chain ≡ ok g
      → All (Granted inner g) chain
  unfolding widen
  widen-Granted [] own s h = tt
  widen-Granted (a ∷ chain) own s h =
      let (r, read, rest) = >>=-eq-ok (inner a) (λ r. widen inner (union own r) chain) h in
      let sr = sound a r read in
      let s' = (union_laws own r own s sr s).3 in
      (
        (
          r,
          read,
          unless_zero r (λ z.
              GrantsAtLeast-trans
                (widen-own chain (union own r) s' rest
                  (subst (λ u. is_zero u ≡ false) (union_comm r own) (union_not_zero r own sr s z)))
                (subst (λ u. GrantsAtLeast u r) (union_comm r own) (union-GrantsAtLeast r own z))),
        ),
        widen-Granted chain (union own r) s' rest,
      )

  -- Where the store's records have no negative cap, an effective plan is the plan of a tenant
  -- whose own record, ancestors and ancestors' records were all read, and it grants at least
  -- what each of those records granted that bought anything.
  pub for_tenant-Granted :
      (s : Store) (id : TenantId) {g : Entitlements}
      → for_tenant inner s id ≡ ok g
      → (chain : List TenantId) × (ancestors s id ≡ ok chain) × All (Granted inner g) (id ∷ chain)
  unfolding for_tenant
  for_tenant-Granted s id h =
      let (own, read, rest) = >>=-eq-ok (inner id) _ h in
      let (chain, walked, last) = >>=-eq-ok (ancestors s id) (widen inner own) rest in
      let so = sound id own read in
      (
        chain,
        walked,
        (
          (own, read, unless_zero own (widen-own chain own so last)),
          widen-Granted chain own so last,
        ),
      )
