-- ===== src/Authz/Rbac/Listing.antt =====
-- A listing of resources agrees with the single decisions, over the in-memory store of bindings
-- (authz/rbac.go: `ListResources` and `Check`; authz/memstore.go).
use tamper.Prelude.{
  Bool, ℕ, ◌<◌, String, String_eq, ℕ_eq, true, false, not, ◌&&◌, ◌==◌, ◌≟◌, ◌≡◌, ◌≢◌, sym, ◌∙◌,
  subst, inl, inr, ◌↔◌, ◌⊎◌, Option-cases, List, [], In, Result, if◌then◌else◌, ◌>>=◌, All, All-In,
  keep, ok, >>=-eq-ok, arith,
}
use tamper.Prelude.Sorting.{sort_by, sort_by-SameMembers, string_lt}
use tamper.Prelude.Dict.{lookup, In-of_lookup}
use tamper.Tenant.Ident.{TenantId, TenantId_eq}
use tamper.Authz.Types.{Error, Subject, Subject_eq, Resource, Resource_eq, Action, Binding, gate}
use tamper.Authz.Policy.{Hierarchy, Policy, Requirement, rank, IsValidEntry}
use tamper.Authz.MemStore.{MemStore, mem_as_store, bindings_for_subject}
use tamper.Authz.Rbac.{
  Rbac, new_rbac, scan_requirements, collect_resources, list_resources, check, allow,
}
use tamper.Authz.Rbac.Decides.{gate_lem, new_rbac-All}
use tamper.Authz.Rbac.Stored.{new_rbac-store}
use tamper.Authz.Rbac.Subjects.{Shown-In}
use tamper.Authz.Rbac.Review.{allow-MetBy}
use tamper.Authz.Rbac.Local.{
  LocalGrant, MetBy-cases, MetBy-of_GlobalMet, MetBy-of_LocalMet, Shown-of_type,
}
use tamper.Authz.Rbac.Resources.{
  GlobalMet, LocalMet, scan_requirements-GlobalMet, scan_requirements-LocalMet,
  collect_resources-Shown,
}

-- The resource is one that a listing of a type may name.
abbrev pub IsOfType : String → Resource → Type 0
IsOfType kind r = (r.kind ≡ kind) × (r.id ≢ "")

module _ (e : Rbac) (m : MemStore) (held_by : e.store ≡ mem_as_store m) (t : TenantId)
    (sub : Subject) (gated : gate t sub ≡ ok tt) (kind : String) (reqs : List Requirement)
    (ranked : All (λ req. 0 < rank e.h req.kind req.min) reqs) where
  abbrev of_type : List Binding
  of_type =
      keep
        (λ b.
          b.tenant == t && b.subject == sub && b.resource.kind == kind && not (b.resource.id == ""))
        m.bindings

  read_of_type : e.store.bindings_for_subject t sub kind ≡ ok of_type
  unfolding bindings_for_subject
  read_of_type = rw (held_by, gated)

  -- What the loop over the bindings collects, for the lowest rank that the first loop found.
  collected :
      (scan : Bool × ℕ) (r : Resource)
      → scan_requirements e t sub kind false 0 reqs ≡ ok scan
      → 0 < scan.1
      → In r (collect_resources e t sub kind scan.1 [] of_type)
        ↔ (IsOfType kind r × LocalGrant e.h m t sub r reqs)
  collected scan r scanned pos =
      let (scope, home) = (gate_lem t sub).0 gated in
      let c = collect_resources-Shown e m held_by t sub scope home kind scan.1 r [] of_type in
      let low = λ (k : ℕ).
        scan_requirements-LocalMet e m held_by t sub scope home kind k false 0 reqs {out = scan}
          ranked scanned in
      (
        λ i. elim (c.0 i) [
          | inl none_yet ↦ absurd none_yet
          | inr w ↦
              let (k, d, s) = w in
              let (b, j, g, l) =
                (Shown-In e.h m t r scan.1 sub m.bindings).0
                  ((Shown-of_type e.h m t sub r kind scan.1 m.bindings k d).0 s) in
              (
                (k, d),
                (
                  b,
                  j,
                  g,
                  elim ((low (rank e.h r.kind b.role)).0 (pos, l)) [
                    | inl z ↦ absurd (omega (arith, z.0))
                    | inr met ↦
                        subst (λ x. LocalMet e.h x (rank e.h r.kind b.role) reqs) (sym k) met
                  ],
                ),
              )
        ],
        λ w.
            let ((k, d), (b, j, g, l)) = w in
            let enough =
              (low (rank e.h r.kind b.role)).1
                (inr (subst (λ x. LocalMet e.h x (rank e.h r.kind b.role) reqs) k l)) in
            c.1 (
              inr (
                k,
                d,
                (Shown-of_type e.h m t sub r kind scan.1 m.bindings k d).1
                    ((Shown-In e.h m t r scan.1 sub m.bindings).1 (b, j, g, enough.1)),
              )),
      )

  -- Without a requirement on the asked type there is nothing to collect.
  uncollected :
      (scan : Bool × ℕ) (r : Resource)
      → scan_requirements e t sub kind false 0 reqs ≡ ok scan
      → scan.1 ≡ 0
      → ¬ (IsOfType kind r × LocalGrant e.h m t sub r reqs)
  uncollected scan r scanned zero w =
      let (scope, home) = (gate_lem t sub).0 gated in
      let ((k, d), (b, j, g, l)) = w in
      let low =
        scan_requirements-LocalMet e m held_by t sub scope home kind (rank e.h r.kind b.role) false
          0 reqs {out = scan} ranked scanned in
      absurd (
        omega (
          arith,
          zero,
          (low.1 (inr (subst (λ x. LocalMet e.h x (rank e.h r.kind b.role) reqs) k l))).0,
        ))

  -- What `ListResources` answers after its first loop.
  answered :
      (scan : Bool × ℕ) (r : Resource) {rs : List Resource} {unbounded : Bool}
      → scan_requirements e t sub kind false 0 reqs ≡ ok scan
      → ◌≡◌ {A = Result Error (List Resource × Bool)}
          (if scan.1 == 0
            then ok ([], scan.0)
            else e.store.bindings_for_subject t sub kind >>= λ bs. ok (
              sort_by (λ a b. string_lt a.id b.id) (collect_resources e t sub kind scan.1 [] bs),
              scan.0,
            ))
          (ok (rs, unbounded))
      → (scan.0 ≡ unbounded) × (In r rs ↔ (IsOfType kind r × LocalGrant e.h m t sub r reqs))
  answered scan r {rs} {unbounded} scanned h = elim (scan.1 ≟ 0) [
    | yes z ↦
        let nil : [] ≡ rs = ground arith in
        (
          ground arith,
          subst (λ l. In r l ↔ (IsOfType kind r × LocalGrant e.h m t sub r reqs)) nil
              (λ i. absurd i, λ w. absurd (uncollected scan r scanned z w)),
        )
    | no n ↦
        let found = collect_resources e t sub kind scan.1 [] of_type in
        let same : sort_by (λ a b. string_lt a.id b.id) found ≡ rs = ground (arith, read_of_type) in
        let order = sort_by-SameMembers (λ (a b : Resource). string_lt a.id b.id) found r in
        let c = collected scan r scanned (omega (arith, n)) in
        (
          ground (arith, read_of_type),
          (
            λ i. c.0 (order.0 (subst (In r) (sym same) i)),
            λ w. subst (In r) same (order.1 (c.1 w)),
          ),
        )
  ]

-- Over the in-memory store, whenever a constructed engine lists the resources of a type on which
-- a subject may perform an action, a resource of that type is listed, or the list is reported as
-- unbounded, exactly if the engine's check of that resource allows the action; nothing else is
-- listed.
pub list_resources-check :
    (m : MemStore) (h : Hierarchy) (p : Policy) (t : TenantId) (sub : Subject) (act : Action)
    (kind : String) (r : Resource) {e : Rbac} {rs : List Resource} {unbounded : Bool}
    → new_rbac (mem_as_store m) h p ≡ ok e
    → list_resources e t sub act kind ≡ ok (rs, unbounded)
    → (IsOfType kind r × (check e t sub act r ≡ ok allow))
      ↔ ((IsOfType kind r × (unbounded ≡ true)) ⊎ In r rs)
unfolding list_resources
list_resources-check m h p t sub act kind r {e} {rs} {unbounded} made q =
    let (u, gates, rest) = >>=-eq-ok (gate t sub) _ q in
    let gated : gate t sub ≡ ok tt = ground arith in
    let (scope, home) = (gate_lem t sub).0 gated in
    let held_by = new_rbac-store (mem_as_store m) h p made in
    elim (Option-cases (lookup act e.p)) [
      | inl unknown ↦ absurd (ground arith)
      | inr (reqs, known) ↦
          let entry =
            All-In (IsValidEntry e.h) (act, reqs) e.p (new_rbac-All (mem_as_store m) h p made)
              (In-of_lookup act reqs e.p known) in
          let (scan, scanned, last) =
            >>=-eq-ok (scan_requirements e t sub kind false 0 reqs) _ (rw known at rest) in
          let a =
            answered e m held_by t sub gated kind reqs entry.ranked scan r {rs = rs}
              {unbounded = unbounded} scanned last in
          let wide =
            scan_requirements-GlobalMet e m held_by t sub scope home kind false 0 reqs {out = scan}
              entry.ranked scanned in
          let allowed = allow-MetBy m h p t sub act r {e = e} reqs made scope known in
          (
            λ w. elim (MetBy-cases e.h m t sub r reqs (allowed.0 w.1).1) [
              | inl g ↦
                  inl (
                    w.0,
                    sym a.0 ∙ wide.1 (inr (subst (λ k. GlobalMet e.h m t sub k reqs) w.0.0 g)),
                  )
              | inr l ↦ inr (a.1.1 (w.0, l))
            ],
            λ c. elim c [
              | inl w ↦ (
                w.0,
                allowed.1 (
                  home,
                  MetBy-of_GlobalMet e.h m t sub r reqs (elim (wide.0 (a.0 ∙ w.1)) [
                    | inl f ↦ absurd (ground arith)
                    | inr g ↦ subst (λ k. GlobalMet e.h m t sub k reqs) (sym w.0.0) g
                  ]),
                ),
              )
              | inr i ↦
                  let (o, (b, j, g, l)) = a.1.0 i in
                  (o, allowed.1 (home, MetBy-of_LocalMet e.h m t sub r reqs b j g l))
            ],
          )
    ]
