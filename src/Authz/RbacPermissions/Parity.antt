-- ===== src/Authz/RbacPermissions/Parity.antt =====
-- The set engine over a role engine decides as the role engine does
-- (authz/rbacpermissionstore.go, authz/permissionset.go, authz/rbac.go).
use tamper.Prelude.{
  ℕ, String, String_eq, Bool, true, false, ◌==◌, ◌≟◌, ◌≡◌, refl, ap, ◌∙◌, subst, inl, inr, ◌⊎◌,
  List, [], ◌∷◌, ◌++◌, All, All-In, contains, none, some, Option-cases, Bool-cases, if◌then◌else◌,
  leb, Result, ok, >>=-eq-ok, arith,
}
use tamper.Prelude.Dict.{lookup, insert, lookup-insert, UniqueKeys, lookup-Fresh, In-of_lookup}
use tamper.Tenant.Ident.{TenantId}
use tamper.Authz.Types.{
  Error, Subject, Resource, Resource_eq, Role, Action, Decision, BindingStore, gate,
}
use tamper.Authz.Policy.{Hierarchy, Policy, Requirement, rank, IsValidEntry}
use tamper.Authz.Rbac.{Rbac, new_rbac, effective, target_of, allow, deny, check_requirements, check}
use tamper.Authz.Rbac.Decides.{new_rbac-All}
use tamper.Authz.PermissionSet
use tamper.Authz.PermissionSet.{allows}
use tamper.Authz.RbacPermissions.{
  Memo, eff_rank, some_met, held_keys, permissions_for, rbac_as_permissions,
}

contains-snoc :
    (x b : String) (l : List String)
    → contains x (l ++ b ∷ []) ≡ (if x == b then true else contains x l)
unfolding contains
contains-snoc x b [] = ground arith
contains-snoc x b (y ∷ l) = ground (arith, contains-snoc x b l)

module _ (e : Rbac) (t : TenantId) (sub : Subject) (res : Resource) where
  -- A memo holds effective ranks.
  abbrev IsRight : Memo → Type 0
  IsRight ranks =
      (target : Resource) (r : ℕ)
      → lookup target ranks ≡ some r
      → (role : Role) × (effective e t sub target ≡ ok (role, r))

  eff_rank-IsRight :
      (ranks : Memo) (target : Resource) {out : ℕ × Memo}
      → IsRight ranks
      → eff_rank e t sub ranks target ≡ ok out
      → ((role : Role) × (effective e t sub target ≡ ok (role, out.0))) × IsRight out.1
  unfolding eff_rank
  eff_rank-IsRight ranks target {out} right h = elim (Option-cases (lookup target ranks)) [
    | inr (r, at) ↦
        let same : ◌≡◌ {A = ℕ × Memo} (r, ranks) out = ground arith in
        subst (λ o. ((role : Role) × (effective e t sub target ≡ ok (role, o.0))) × IsRight o.1)
          same (right target r at, right)
    | inl missing ↦
        let (best, eff, last) =
          >>=-eq-ok (effective e t sub target) (λ b. ok (b.1, insert target b.1 ranks))
            (rw (missing, eff_rank) at h) in
        let same : ◌≡◌ {A = ℕ × Memo} (best.1, insert target best.1 ranks) out = ground arith in
        subst (λ o. ((role : Role) × (effective e t sub target ≡ ok (role, o.0))) × IsRight o.1)
          same
          (
            (best.0, eff),
            λ target' r at. elim (target' ≟ target) [
              | yes p ↦ (best.0, ground (arith, lookup-insert target target' best.1 ranks))
              | no n ↦ right target' r (ground (arith, lookup-insert target target' best.1 ranks))
            ],
          )
  ]

  -- The loop over one action's requirements is that of the role engine.
  abbrev Agrees : List Requirement → Bool × Memo → Type 0
  Agrees reqs out =
      (check_requirements e t sub res reqs ≡ ok (record { allowed = out.0 })) × IsRight out.1

  some_met-Agrees :
      (ranks : Memo) (reqs : List Requirement) {out : Bool × Memo}
      → IsRight ranks
      → some_met e t sub res ranks reqs ≡ ok out
      → Agrees reqs out
  unfolding some_met check_requirements
  some_met-Agrees ranks [] {out} right h =
      let same : ◌≡◌ {A = Bool × Memo} (false, ranks) out = ground arith in
      subst (Agrees []) same (refl, right)
  some_met-Agrees ranks (req ∷ reqs) {out} right h =
      let (r, read, rest) = >>=-eq-ok (eff_rank e t sub ranks (target_of req res)) _ h in
      let (at, right') = eff_rank-IsRight ranks (target_of req res) right read in
      elim (Bool-cases (leb (rank e.h req.kind req.min) r.0)) [
        | inl y ↦
            let same : ◌≡◌ {A = Bool × Memo} (true, r.1) out = ground arith in
            subst (Agrees (req ∷ reqs)) same (ground (arith, at.1), right')
        | inr n ↦
            let ih = some_met-Agrees r.1 reqs {out = out} right' (ground arith) in
            (ground (arith, at.1, ih.0), ih.1)
      ]

  -- What the loop over the actions adds for one action.
  abbrev Adds : Action → Policy → List String → List String → Type 0
  Adds act p keys out =
      ((lookup act p ≡ none) × (contains act out ≡ contains act keys))
      ⊎ ((reqs : List Requirement) × (d : Decision) × (lookup act p ≡ some reqs)
          × (check_requirements e t sub res reqs ≡ ok d)
          × (contains act out ≡ (if d.allowed then true else contains act keys)))

  held_keys-Adds :
      (p : Policy) (ranks : Memo) (keys : List String) (act : Action) {out : List String}
      → IsRight ranks
      → UniqueKeys p
      → held_keys e t sub res ranks keys p ≡ ok out
      → Adds act p keys out
  unfolding held_keys lookup
  held_keys-Adds [] ranks keys act right u h = inl (refl, ground arith)
  held_keys-Adds ((a, reqs) ∷ p) ranks keys act {out} right u h =
      let (m, read, rest) = >>=-eq-ok (some_met e t sub res ranks reqs) _ h in
      let (agree, right') = some_met-Agrees ranks reqs right read in
      let keys' = if m.0 then keys ++ a ∷ [] else keys in
      elim (held_keys-Adds p m.1 keys' act {out = out} right' u.1 rest) [
        | inl w ↦ elim (act ≟ a) [
          | yes q ↦ inr (
            reqs,
            record { allowed = m.0 },
            ground arith,
            agree,
            ground (arith, w.1, contains-snoc act a keys),
          )
          | no n ↦ inl (ground (arith, w.0), ground (arith, w.1, contains-snoc act a keys))
        ]
        | inr w ↦ elim (act ≟ a) [
          | yes q ↦ absurd (ground (arith, w.2, lookup-Fresh a p u.0))
          | no n ↦
              inr
                (w.0, w.1, ground (arith, w.2), w.3, ground (arith, w.4, contains-snoc act a keys))
        ]
      ]

-- The set engine over a role engine.
abbrev pub set_engine : Rbac → PermissionSet.PermissionSet
set_engine e = record { store = rbac_as_permissions e }

no_empty_action : (h : Hierarchy) (p : Policy) → All (IsValidEntry h) p → lookup "" p ≡ none
no_empty_action h p a = elim (Option-cases (lookup "" p)) [
  | inl missing ↦ missing
  | inr (reqs, at) ↦
      absurd ((All-In (IsValidEntry h) ("", reqs) p a (In-of_lookup "" reqs p at)).named refl)
]

nothing_known :
    (e : Rbac) (t : TenantId) (sub : Subject) (target : Resource) (r : ℕ)
    → lookup target [] ≡ some r
    → (role : Role) × (effective e t sub target ≡ ok (role, r))
unfolding lookup
nothing_known e t sub target r h = absurd (ground arith)

-- The keys that a role engine reports for a subject decide one action as the role engine does.
permissions_for-check :
    (e : Rbac) (t : TenantId) (sub : Subject) (act : Action) (res : Resource)
    {set : PermissionSet.PermissionSetResult}
    → UniqueKeys e.p
    → permissions_for e t sub res ≡ ok set
    → check e t sub act res ≡ ok (record { allowed = allows set act })
unfolding permissions_for check allows contains
permissions_for-check e t sub act res {set} u h =
    let (w, gated, rest) = >>=-eq-ok (gate t sub) _ h in
    let (keys, held, last) = >>=-eq-ok (held_keys e t sub res [] [] e.p) _ rest in
    elim (held_keys-Adds e t sub res e.p [] [] act {out = keys} (nothing_known e t sub) u held) [
      | inl none_held ↦ ground (arith, none_held.0, none_held.1)
      | inr some_held ↦ ground (arith, some_held.2, some_held.3, some_held.4)
    ]

else_branch : {A : Type 0} (b : Bool) (x y z : A) → (if b then x else y) ≡ z → b ≡ false → y ≡ z
else_branch true x y z r n = cc
else_branch false x y z r n = r

decided :
    (set : PermissionSet.PermissionSetResult) (act : Action) (d : Decision)
    → ◌≡◌ {A = Result Error Decision}
        (if set.superuser then ok allow else if allows set act then ok allow else ok deny)
        (ok d)
    → record { allowed = allows set act } ≡ d
unfolding allows
decided set act d r = ground arith

-- Whatever the set engine over a constructed role engine decides, the role engine decides, for
-- every scope, subject, action and resource; the policy is a map, so it has each action once.
pub set_engine_parity :
    (store : BindingStore) (h : Hierarchy) (p : Policy) (t : TenantId) (sub : Subject)
    (act : Action) (res : Resource) {e : Rbac} {d : Decision}
    → new_rbac store h p ≡ ok e
    → UniqueKeys e.p
    → PermissionSet.check (set_engine e) t sub act res ≡ ok d
    → check e t sub act res ≡ ok d
unfolding check PermissionSet.check
set_engine_parity store h p t sub act res {e} {d} made u q =
    let empty = no_empty_action e.h e.p (new_rbac-All store h p made) in
    let (w, gated, rest) = >>=-eq-ok (gate t sub) _ q in
    elim (act ≟ "") [
      | yes y ↦ ground (arith, empty)
      | no n ↦
          let (set, read, last) =
            >>=-eq-ok (permissions_for e t sub res) _
              (else_branch (act == "") _ _ _ rest (ground arith)) in
          permissions_for-check e t sub act res u read ∙ ap ok (decided set act d last)
    ]
