-- ===== src/Authz/Rbac/Decides.antt =====
-- What a decision of the role engine says (authz/rbac.go).
use tamper.Prelude.{
  ◌<◌, String_eq, true, ◌≡◌, refl, subst, inl, inr, ◌↔◌, some, Option-cases, Bool-cases, List, [],
  ◌∷◌, In, All, All-In, leb, ok, >>=-eq-ok, arith,
}
use tamper.Prelude.Dict.{lookup, In-of_lookup}
use tamper.Tenant.Ident.{TenantId, valid}
use tamper.Authz.Types.{Subject, Resource, Action, Decision, BindingStore, gate, scope_gate}
use tamper.Authz.Policy.{Hierarchy, Policy, Requirement, rank, validate, IsValidEntry, validate-All}
use tamper.Authz.Rbac.{Rbac, new_rbac, effective, target_of, check_requirements, check}
use tamper.Authz.Rbac.Effective.{IsHeld, effective-IsHeld}

-- What permits an action: the scope and the subject's home tenant are set, and a requirement of
-- the action is met by a grant that the store reports on the requirement's target.
pub record Permitted (e : Rbac) (t : TenantId) (sub : Subject) (act : Action) (res : Resource)
    : Type 0 where
  pub scope_set : valid t ≡ true
  pub home_set : valid sub.tenant ≡ true
  pub reqs : List Requirement
  pub known : lookup act e.p ≡ some reqs
  pub req : Requirement
  pub listed : In req reqs
  pub held : IsHeld e t sub (target_of req res) (rank e.h req.kind req.min)

-- A requirement of the list is met.
abbrev pub Met : Rbac → TenantId → Subject → Resource → List Requirement → Type 0
Met e t sub res reqs =
    (req : Requirement) × In req reqs
    × IsHeld e t sub (target_of req res) (rank e.h req.kind req.min)

Met-tail :
    (e : Rbac) (t : TenantId) (sub : Subject) (res : Resource) (req : Requirement)
    (reqs : List Requirement)
    → (¬ IsHeld e t sub (target_of req res) (rank e.h req.kind req.min))
    → Met e t sub res (req ∷ reqs)
    → Met e t sub res reqs
Met-tail e t sub res req reqs n (r, inl q, w) =
    absurd (n (subst (λ x. IsHeld e t sub (target_of x res) (rank e.h x.kind x.min)) q w))
Met-tail e t sub res req reqs n (r, inr i, w) = (r, i, w)

module _ (e : Rbac) (t : TenantId) (sub : Subject) (res : Resource) where
  pub check_requirements-Met :
      (reqs : List Requirement) {d : Decision}
      → All (λ req. 0 < rank e.h req.kind req.min) reqs
      → check_requirements e t sub res reqs ≡ ok d
      → (d.allowed ≡ true) ↔ Met e t sub res reqs
  unfolding check_requirements
  check_requirements-Met [] a h = (λ y. absurd (ground arith), λ m. absurd m.1)
  check_requirements-Met (req ∷ reqs) {d} a h =
      let (best, eff, rest) = >>=-eq-ok (effective e t sub (target_of req res)) _ h in
      let held = effective-IsHeld e t sub (target_of req res) (rank e.h req.kind req.min) eff a.0 in
      elim (Bool-cases (leb (rank e.h req.kind req.min) best.1)) [
        | inl y ↦ (λ _. (req, inl refl, held.0 (ground arith)), λ _. ground arith)
        | inr n ↦
            let ih = check_requirements-Met reqs {d = d} a.1 (ground arith) in
            let unmet : ¬ IsHeld e t sub (target_of req res) (rank e.h req.kind req.min) =
              λ w. absurd (ground (arith, held.1 w)) in
            (
              λ y. let m = ih.0 y in (m.0, inr m.1, m.2),
              λ m. ih.1 (Met-tail e t sub res req reqs unmet m),
            )
      ]

pub gate_lem :
    (t : TenantId) (sub : Subject)
    → (gate t sub ≡ ok tt) ↔ ((valid t ≡ true) × (valid sub.tenant ≡ true))
unfolding gate scope_gate
gate_lem t sub = (λ h. (ground arith, ground arith), λ h. ground arith)

pub new_rbac-All :
    (store : BindingStore) (h : Hierarchy) (p : Policy) {e : Rbac}
    → new_rbac store h p ≡ ok e
    → All (IsValidEntry e.h) e.p
unfolding new_rbac
new_rbac-All store h p {e} made =
    let (u, checked, last) = >>=-eq-ok (validate h p) _ made in
    let a = validate-All h p (ground arith) in
    let same : ◌≡◌ {A = Rbac} (record { store = store; h = h; p = p }) e = ground arith in
    subst (λ (x : Rbac). All (IsValidEntry x.h) x.p) same a

-- Whenever an engine that was constructed decides, it allows exactly what is permitted: the scope
-- and the subject's home tenant are set, the policy knows the action, and a requirement of it is
-- met by a grant that the store reports, to exactly this subject, in exactly this scope, on
-- exactly the requirement's target. That holds whatever else the store returns.
pub check_decides :
    (store : BindingStore) (h : Hierarchy) (p : Policy) (t : TenantId) (sub : Subject)
    (act : Action) (res : Resource) {e : Rbac} {d : Decision}
    → new_rbac store h p ≡ ok e
    → check e t sub act res ≡ ok d
    → (d.allowed ≡ true) ↔ Permitted e t sub act res
unfolding check
check_decides store h p t sub act res {e} {d} made q =
    let (u, gated, rest) = >>=-eq-ok (gate t sub) _ q in
    let (scope, home) = (gate_lem t sub).0 (ground arith) in
    elim (Option-cases (lookup act e.p)) [
      | inl unknown ↦ (λ y. absurd (ground arith), λ w. absurd (ground (arith, w.known)))
      | inr (reqs, known) ↦
          let entry =
            All-In (IsValidEntry e.h) (act, reqs) e.p (new_rbac-All store h p made)
              (In-of_lookup act reqs e.p known) in
          let met = check_requirements-Met e t sub res reqs {d = d} entry.ranked (ground arith) in
          (
            λ y.
                let m = met.0 y in
                record {
                  scope_set = scope;
                  home_set = home;
                  reqs = reqs;
                  known = known;
                  req = m.0;
                  listed = m.1;
                  held = m.2;
                },
            λ w. met.1 (w.req, subst (In w.req) (ground (arith, w.known)) w.listed, w.held),
          )
    ]
