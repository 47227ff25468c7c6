-- ===== src/Authz/Rbac/Review.antt =====
-- An access review agrees with the single decisions, over the in-memory store of bindings
-- (authz/rbac.go: `ListSubjects` and `Check`; authz/memstore.go).
use tamper.Prelude.{
  Bool, String_eq, true, false, ◌&&◌, ◌==◌, ◌≡◌, refl, ap, sym, ◌∙◌, subst, inl, inr, ◌↔◌, ◌⊎◌,
  Option-cases, some, List, [], ◌∷◌, In, keep, ok, >>=-eq-ok, arith,
}
use tamper.Prelude.Sorting.{sort_by, sort_by-SameMembers}
use tamper.Prelude.Dict.{lookup}
use tamper.Tenant.Ident.{TenantId, TenantId_eq, valid}
use tamper.Authz.Types.{Subject, Resource, Resource_eq, Action, Binding, Decision, scope_gate}
use tamper.Authz.Policy.{Hierarchy, Policy, Requirement, rank}
use tamper.Authz.MemStore.{MemStore, mem_as_store, bindings_on_resource}
use tamper.Authz.Rbac.{
  Rbac, new_rbac, target_of, collect_subjects, subjects_of_requirements, subject_lt, list_subjects,
  check, allow,
}
use tamper.Authz.Rbac.Decides.{check_decides}
use tamper.Authz.Rbac.Stored.{IsStored, new_rbac-store, IsHeld-IsStored, check_total}
use tamper.Authz.Rbac.Subjects.{
  Shown, collect_subjects-Shown, collect_subjects-home, Shown-IsStored,
}

-- A requirement of the list is met by a stored grant to the subject.
abbrev pub MetBy : Hierarchy → MemStore → TenantId → Resource → Subject → List Requirement → Type 0
MetBy h m t res sub [] = ⊥
MetBy h m t res sub (req ∷ reqs) =
    IsStored h m t sub (target_of req res) (rank h req.kind req.min) ⊎ MetBy h m t res sub reqs

MetBy-In :
    (h : Hierarchy) (m : MemStore) (t : TenantId) (res : Resource) (sub : Subject)
    (reqs : List Requirement)
    → MetBy h m t res sub reqs ↔ (
        (req : Requirement) × In req reqs
        × IsStored h m t sub (target_of req res) (rank h req.kind req.min))
MetBy-In h m t res sub [] = (λ w. absurd w, λ w. absurd w.1)
MetBy-In h m t res sub (r ∷ reqs) = (
  λ w. elim w [
    | inl s ↦ (r, inl refl, s)
    | inr l ↦ let (q, i, s) = (MetBy-In h m t res sub reqs).0 l in (q, inr i, s)
  ],
  λ w.
      let (q, i, s) = w in
      elim i [
        | inl p ↦ inl (subst (λ x. IsStored h m t sub (target_of x res) (rank h x.kind x.min)) p s)
        | inr i' ↦ inr ((MetBy-In h m t res sub reqs).1 (q, i', s))
      ],
)

module _ (e : Rbac) (m : MemStore) (held_by : e.store ≡ mem_as_store m) (t : TenantId)
    (scope : valid t ≡ true) (res : Resource) (sub : Subject) where
  scope_passes : scope_gate t ≡ ok tt
  unfolding scope_gate
  scope_passes = ground arith

  read_on :
      (target : Resource)
      → e.store.bindings_on_resource t target
        ≡ ok (keep (λ b. b.tenant == t && b.resource == target) m.bindings)
  unfolding bindings_on_resource
  read_on target = rw (held_by, scope_passes)

  -- What one requirement adds to the list.
  round :
      (req : Requirement) (out : List Subject) (bs : List Binding) {mid : List Subject}
      → e.store.bindings_on_resource t (target_of req res) ≡ ok bs
      → collect_subjects e t (target_of req res) (rank e.h req.kind req.min) out bs ≡ ok mid
      → In sub mid
        ↔ (In sub out ⊎ IsStored e.h m t sub (target_of req res) (rank e.h req.kind req.min))
  round req out bs {mid} read h =
      let same : bs ≡ keep (λ b. b.tenant == t && b.resource == target_of req res) m.bindings =
        cc (read, read_on (target_of req res)) in
      let shown =
        collect_subjects-Shown e t (target_of req res) (rank e.h req.kind req.min) sub out bs
          {out' = mid} h in
      let at = Shown-IsStored e.h m t (target_of req res) (rank e.h req.kind req.min) sub in
      (
        λ i. elim (shown.0 i) [
          | inl j ↦ inl j
          | inr s ↦ inr (
              at.0 (subst (Shown e.h t (target_of req res) (rank e.h req.kind req.min) sub) same s))
        ],
        λ c. shown.1 (elim c [
          | inl j ↦ inl j
          | inr s ↦ inr (
              subst (Shown e.h t (target_of req res) (rank e.h req.kind req.min) sub) (sym same)
                (at.1 s))
        ]),
      )

  subjects_of_requirements-MetBy :
      (out : List Subject) (reqs : List Requirement) {out' : List Subject}
      → subjects_of_requirements e t res out reqs ≡ ok out'
      → In sub out' ↔ (In sub out ⊎ MetBy e.h m t res sub reqs)
  unfolding subjects_of_requirements
  subjects_of_requirements-MetBy out [] h = ground arith
  subjects_of_requirements-MetBy out (req ∷ reqs) {out'} h =
      let (bs, read, h1) = >>=-eq-ok (e.store.bindings_on_resource t (target_of req res)) _ h in
      let (mid, added, h2) =
        >>=-eq-ok (collect_subjects e t (target_of req res) (rank e.h req.kind req.min) out bs) _
          h1 in
      let first = round req out bs {mid = mid} read added in
      let rest = subjects_of_requirements-MetBy mid reqs {out' = out'} h2 in
      (
        λ i. elim (rest.0 i) [
          | inl j ↦ elim (first.0 j) [ inl k ↦ inl k | inr s ↦ inr (inl s) ]
          | inr s ↦ inr (inr s)
        ],
        λ c. rest.1 (elim c [
          | inl k ↦ inl (first.1 (inl k))
          | inr w ↦ elim w [ inl s ↦ inl (first.1 (inr s)) | inr s ↦ inr s ]
        ]),
      )

  subjects_of_requirements-home :
      (out : List Subject) (reqs : List Requirement) {out' : List Subject}
      → (In sub out → valid sub.tenant ≡ true)
      → subjects_of_requirements e t res out reqs ≡ ok out'
      → In sub out'
      → valid sub.tenant ≡ true
  unfolding subjects_of_requirements
  subjects_of_requirements-home out [] a h i = ground arith
  subjects_of_requirements-home out (req ∷ reqs) {out'} a h i =
      let (bs, read, h1) = >>=-eq-ok (e.store.bindings_on_resource t (target_of req res)) _ h in
      let (mid, added, h2) =
        >>=-eq-ok (collect_subjects e t (target_of req res) (rank e.h req.kind req.min) out bs) _
          h1 in
      subjects_of_requirements-home mid reqs {out' = out'}
        (collect_subjects-home e t (target_of req res) (rank e.h req.kind req.min) sub out bs
          {out' = mid} a added)
        h2 i

scope_gate-valid : (t : TenantId) → scope_gate t ≡ ok tt → valid t ≡ true
unfolding scope_gate
scope_gate-valid t h = ground arith

is_allow : (d : Decision) → d.allowed ≡ true → d ≡ allow
is_allow d h = ground arith

-- Over the in-memory store, the engine allows exactly the subjects that have a home tenant and a
-- stored grant that meets a requirement.
pub allow-MetBy :
    (m : MemStore) (h : Hierarchy) (p : Policy) (t : TenantId) (sub : Subject) (act : Action)
    (res : Resource) {e : Rbac} (reqs : List Requirement)
    → new_rbac (mem_as_store m) h p ≡ ok e
    → valid t ≡ true
    → lookup act e.p ≡ some reqs
    → (check e t sub act res ≡ ok allow) ↔ ((valid sub.tenant ≡ true) × MetBy e.h m t res sub reqs)
allow-MetBy m h p t sub act res {e} reqs made scope known =
    let held_by = new_rbac-store (mem_as_store m) h p made in
    (
      λ q.
          let w =
            (check_decides (mem_as_store m) h p t sub act res {e = e} {d = allow} made q).0 refl in
          let same : w.reqs ≡ reqs = cc (w.known, known) in
          let s =
            (IsHeld-IsStored e m held_by t sub scope w.home_set (target_of w.req res)
                (rank e.h w.req.kind w.req.min)).0
              w.held in
          (
            w.home_set,
            (MetBy-In e.h m t res sub reqs).1 (w.req, subst (In w.req) same w.listed, s),
          ),
      λ w.
          let (d, decided) = check_total e m held_by t sub scope w.0 act res in
          let (req, listed, s) = (MetBy-In e.h m t res sub reqs).0 w.1 in
          let yes_d =
            (check_decides (mem_as_store m) h p t sub act res {e = e} {d = d} made decided).1
              (record {
                scope_set = scope;
                home_set = w.0;
                reqs = reqs;
                known = known;
                req = req;
                listed = listed;
                held =
                    (IsHeld-IsStored e m held_by t sub scope w.0 (target_of req res)
                        (rank e.h req.kind req.min)).1
                      s;
              }) in
          decided ∙ ap ok (is_allow d yes_d),
    )

-- Over the in-memory store, whenever a constructed engine lists who may perform an action on a
-- resource, the list is reported as complete, and a subject is on it exactly if the engine's
-- check of that subject allows the action.
pub list_subjects-check :
    (m : MemStore) (h : Hierarchy) (p : Policy) (t : TenantId) (sub : Subject) (act : Action)
    (res : Resource) {e : Rbac} {subs : List Subject} {unbounded : Bool}
    → new_rbac (mem_as_store m) h p ≡ ok e
    → list_subjects e t act res ≡ ok (subs, unbounded)
    → (unbounded ≡ false) × (In sub subs ↔ (check e t sub act res ≡ ok allow))
unfolding list_subjects
list_subjects-check m h p t sub act res {e} {subs} {unbounded} made q =
    let (u, gated, rest) = >>=-eq-ok (scope_gate t) _ q in
    let scope = scope_gate-valid t (ground arith) in
    let held_by = new_rbac-store (mem_as_store m) h p made in
    elim (Option-cases (lookup act e.p)) [
      | inl unknown ↦ absurd (ground arith)
      | inr (reqs, known) ↦
          let (out, listed, last) =
            >>=-eq-ok (subjects_of_requirements e t res [] reqs) _ (rw known at rest) in
          let same : sort_by subject_lt out ≡ subs = ground arith in
          let met =
            subjects_of_requirements-MetBy e m held_by t scope res sub [] reqs {out' = out}
              listed in
          let home =
            subjects_of_requirements-home e m held_by t scope res sub [] reqs {out' = out}
              (λ i. absurd i) listed in
          let order = sort_by-SameMembers subject_lt out sub in
          let allowed = allow-MetBy m h p t sub act res {e = e} reqs made scope known in
          (
            ground arith,
            (
              λ i.
                  let j = order.0 (subst (In sub) (sym same) i) in
                  allowed.1 (home j, elim (met.0 j) [ inl none_yet ↦ absurd none_yet | inr w ↦ w ]),
              λ q. subst (In sub) same (order.1 (met.1 (inr (allowed.0 q).1))),
            ),
          )
    ]
