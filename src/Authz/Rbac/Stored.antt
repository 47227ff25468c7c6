-- ===== src/Authz/Rbac/Stored.antt =====
-- The role engine over the in-memory store of bindings (authz/rbac.go, authz/memstore.go): a grant
-- that counts is a stored binding, and every question that names its tenants is decided.
use tamper.Prelude.{
  ℕ, ◌≤◌, String, String_eq, true, ◌&&◌, ◌==◌, ◌≡◌, refl, subst, inl, inr, ◌↔◌, Bool-cases,
  Option-cases, List, [], ◌∷◌, In, keep, In-keep, of_In-keep, leb, ok, arith,
}
use tamper.Prelude.Dict.{lookup}
use tamper.Tenant.Ident.{TenantId, TenantId_eq, valid}
use tamper.Authz.Types.{
  Subject, Subject_eq, Resource, Resource_eq, Action, Binding, BindingStore, Decision, gate,
  scope_gate,
}
use tamper.Authz.Policy.{Hierarchy, Policy, Requirement, rank}
use tamper.Authz.MemStore.{MemStore, mem_as_store, bindings_for}
use tamper.Authz.Rbac.{
  Rbac, new_rbac, effective, target_of, check_requirements, check, allow, deny, best_of,
}
use tamper.Authz.Rbac.Effective.{IsGrant, IsHeld}

-- A stored binding grants at least the rank `n` on the resource.
pub record IsStored (h : Hierarchy) (m : MemStore) (t : TenantId) (sub : Subject) (res : Resource)
    (n : ℕ) : Type 0 where
  pub binding : Binding
  pub stored : In binding m.bindings
  pub grant : IsGrant t sub res binding
  pub enough : n ≤ rank h res.kind binding.role

pub new_rbac-store :
    (store : BindingStore) (h : Hierarchy) (p : Policy) {e : Rbac}
    → new_rbac store h p ≡ ok e
    → e.store ≡ store
unfolding new_rbac
new_rbac-store store h p made = ground arith

module _ (e : Rbac) (m : MemStore) (held_by : e.store ≡ mem_as_store m) (t : TenantId)
    (sub : Subject) (scope : valid t ≡ true) (home : valid sub.tenant ≡ true) where
  gate_passes : gate t sub ≡ ok tt
  unfolding gate scope_gate
  gate_passes = ground arith

  abbrev matching : Resource → List Binding
  matching res = keep (λ b. b.tenant == t && b.subject == sub && b.resource == res) m.bindings

  read_for : (res : Resource) → e.store.bindings_for t sub res ≡ ok (matching res)
  unfolding bindings_for
  read_for res = rw (held_by, gate_passes)

  pub IsHeld-IsStored : (res : Resource) (n : ℕ) → IsHeld e t sub res n ↔ IsStored e.h m t sub res n
  IsHeld-IsStored res n = (
    λ w.
        let same : w.bindings ≡ matching res = cc (w.read, read_for res) in
        record {
          binding = w.binding;
          stored = (of_In-keep _ w.binding m.bindings (subst (In w.binding) same w.reported)).0;
          grant = w.grant;
          enough = w.enough;
        },
    λ s. record {
      bindings = matching res;
      read = read_for res;
      binding = s.binding;
      reported =
          In-keep _ s.binding m.bindings s.stored
            (ground (arith, s.grant.in_scope, s.grant.to_subject, s.grant.on_resource));
      grant = s.grant;
      enough = s.enough;
    },
  )

  pub effective_total : (res : Resource) → (best : String × ℕ) × (effective e t sub res ≡ ok best)
  unfolding effective
  effective_total res = (best_of e.h t sub res ("", 0) (matching res), rw (read_for res) refl)

  check_requirements_total :
      (res : Resource) (reqs : List Requirement)
      → (d : Decision) × (check_requirements e t sub res reqs ≡ ok d)
  unfolding check_requirements
  check_requirements_total res [] = (deny, refl)
  check_requirements_total res (req ∷ reqs) =
      let (best, eff) = effective_total (target_of req res) in
      let (d, rest) = check_requirements_total res reqs in
      elim (Bool-cases (leb (rank e.h req.kind req.min) best.1)) [
        | inl y ↦ (allow, rw (eff, y))
        | inr n ↦ (d, rw (eff, n, rest))
      ]

  pub check_total :
      (act : Action) (res : Resource) → (d : Decision) × (check e t sub act res ≡ ok d)
  unfolding check
  check_total act res = elim (Option-cases (lookup act e.p)) [
    | inl missing ↦ (deny, rw (gate_passes, missing) refl)
    | inr (reqs, known) ↦
        let (d, q) = check_requirements_total res reqs in (d, rw (gate_passes, known) q)
  ]
