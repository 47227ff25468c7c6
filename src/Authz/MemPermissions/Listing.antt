-- ===== src/Authz/MemPermissions/Listing.antt =====
-- The listings of the set engine agree with its single decisions, over the in-memory store of
-- permission keys (authz/permissionset.go, authz/mempermissionstore.go).
use tamper.Prelude.{
  String, String_eq, Bool, true, false, ◌≡◌, ◌≢◌, sym, subst, inl, inr, ◌⊎◌, ◌↔◌, List, [], ◌∷◌,
  ◌++◌, Bool-cases, Result-cases, In, In-append_left, In-append_right, In-append_cases, contains,
  In-of_contains, ok, arith,
}
use tamper.Prelude.Dict.{Dict, lookup, UniqueKeys, UniqueKeys-insert, lookup-Fresh}
use tamper.Prelude.Sorting.{sort_by, sort_by-SameMembers, string_lt}
use tamper.Tenant.Ident.{TenantId, TenantId_eq, valid}
use tamper.Authz.Types.{Subject, Subject_eq, Resource, Resource_eq, Action, gate, scope_gate}
use tamper.Authz.Rbac.{allow}
use tamper.Authz.Rbac.Listing.{IsOfType}
use tamper.Authz.PermissionSet.{check, filter_resources, list_resources}
use tamper.Authz.MemPermissions.{
  PermGrantKey, PermGrantKey_eq, PermSuperKey_eq, MemPermissionStore, new_mem_permission_store,
  keys_of, grant, grant_superuser, is_superuser, resources_with, resources_with_permission,
}
use tamper.Authz.MemPermissions.Keys.{Change, granted, made_superuser, apply, run, holds}
use tamper.Authz.MemPermissions.Decides.{engine, check_store}

In-snoc : (a x : Resource) (l : List Resource) → In a (l ++ x ∷ []) ↔ (In a l ⊎ (a ≡ x))
In-snoc a x l = (
  λ i. ground (arith, In-append_cases a l (x ∷ []) i),
  λ c. elim c [
    | inl i ↦ In-append_left a l (x ∷ []) i
    | inr q ↦ In-append_right a l (x ∷ []) (inl q)
  ],
)

apply-UniqueKeys :
    (c : Change) (m : MemPermissionStore) → UniqueKeys m.grants → UniqueKeys (apply c m).grants
unfolding apply grant grant_superuser
apply-UniqueKeys (made_superuser t sub) m u = ground arith
apply-UniqueKeys (granted t sub res keys) m u = elim (Result-cases (gate t sub)) [
  | inr (e, h) ↦ rw h u
  | inl (v, h) ↦ rw h (UniqueKeys-insert _ _ m.grants u)
]

run-UniqueKeys :
    (cs : List Change) (m : MemPermissionStore) → UniqueKeys m.grants → UniqueKeys (run cs m).grants
unfolding run
run-UniqueKeys [] m u = u
run-UniqueKeys (c ∷ cs) m u = run-UniqueKeys cs (apply c m) (apply-UniqueKeys c m u)

module _ (t : TenantId) (sub : Subject) (act : String) (kind : String) (r : Resource) where
  -- A grant of the list is to the subject on the resource, and has the key.
  abbrev Held : Dict PermGrantKey (List String) → Type 0
  Held [] = ⊥
  Held ((gk, set) ∷ grants) =
      ((gk.tenant ≡ t) × (gk.sub ≡ sub) × (gk.res ≡ r) × (contains act set ≡ true)) ⊎ Held grants

  Held-lookup :
      (grants : Dict PermGrantKey (List String))
      → UniqueKeys grants
      → Held grants ↔ (
          contains act (keys_of (lookup (record { tenant = t; sub = sub; res = r }) grants)) ≡ true)
  unfolding lookup contains
  Held-lookup [] u = ground arith
  Held-lookup ((gk, set) ∷ grants) u =
      ground (arith, Held-lookup grants u.1, lookup-Fresh gk grants u.0)

  resources_with-Held :
      (out : List Resource) (grants : Dict PermGrantKey (List String))
      → In r (resources_with t sub act kind out grants)
        ↔ (In r out ⊎ ((r.kind ≡ kind) × (r.id ≢ "") × Held grants))
  unfolding resources_with
  resources_with-Held out [] = ground arith
  resources_with-Held out ((gk, set) ∷ grants) = ground (
    arith,
    resources_with-Held out grants,
    resources_with-Held (out ++ gk.res ∷ []) grants,
    In-snoc r gk.res out,
  )

  filter_resources-In :
      (out rs : List Resource)
      → In r (filter_resources kind out rs) ↔ (In r out ⊎ ((r.kind ≡ kind) × (r.id ≢ "") × In r rs))
  unfolding filter_resources
  filter_resources-In out [] = ground arith
  filter_resources-In out (x ∷ rs) = ground (
    arith,
    filter_resources-In out rs,
    filter_resources-In (out ++ x ∷ []) rs,
    In-snoc r x out,
    In-of_contains x out,
  )

gate-valid :
    (t : TenantId) (sub : Subject)
    → gate t sub ≡ ok tt
    → (valid t ≡ true) × (valid sub.tenant ≡ true)
unfolding gate scope_gate
gate-valid t sub h = ground arith

list_resources-gate :
    (m : MemPermissionStore) (t : TenantId) (sub : Subject) (act : Action) (kind : String)
    {rs : List Resource} {unbounded : Bool}
    → list_resources (engine m) t sub act kind ≡ ok (rs, unbounded)
    → gate t sub ≡ ok tt
unfolding list_resources
list_resources-gate m t sub act kind h = ground arith

-- What a listing of resources over the store is.
listed :
    (m : MemPermissionStore) (t : TenantId) (sub : Subject) (act : Action) (kind : String)
    (r : Resource) {rs : List Resource} {unbounded : Bool}
    → UniqueKeys m.grants
    → act ≢ ""
    → gate t sub ≡ ok tt
    → list_resources (engine m) t sub act kind ≡ ok (rs, unbounded)
    → (unbounded ≡ is_superuser m t sub)
      × (In r rs
          ↔ ((is_superuser m t sub ≡ false) × IsOfType kind r × (holds t sub m r act ≡ true)))
unfolding list_resources resources_with_permission
listed m t sub act kind r {rs} {unbounded} u n gated h = elim (Bool-cases (is_superuser m t sub)) [
  | inl y ↦
      let order =
        sort_by-SameMembers (λ (a b : Resource). string_lt a.id b.id) (filter_resources kind [] [])
          r in
      let f = filter_resources-In t sub act kind r [] [] in
      let same : sort_by (λ (a b : Resource). string_lt a.id b.id) (filter_resources kind [] [])
          ≡ rs =
        ground (arith, gated) in
      (
        ground (arith, gated),
        (
          λ i. absurd (ground (arith, f.0 (order.0 (subst (In r) (sym same) i)))),
          λ w. absurd (ground arith),
        ),
      )
  | inr f ↦
      let found = resources_with t sub act kind [] m.grants in
      let order =
        sort_by-SameMembers (λ (a b : Resource). string_lt a.id b.id)
          (filter_resources kind [] found) r in
      let kept = filter_resources-In t sub act kind r [] found in
      let with = resources_with-Held t sub act kind r [] m.grants in
      let at = Held-lookup t sub act kind r m.grants u in
      let same : sort_by (λ (a b : Resource). string_lt a.id b.id) (filter_resources kind [] found)
          ≡ rs =
        ground (arith, gated) in
      (
        ground (arith, gated),
        (
          λ i.
              let j = kept.0 (order.0 (subst (In r) (sym same) i)) in
              elim j [
                | inl z ↦ absurd z
                | inr w ↦
                    let (k, d, i') = w in
                    elim (with.0 i') [ inl z ↦ absurd z | inr v ↦ (f, (k, d), at.0 v.2) ]
              ],
          λ w.
              subst (In r) same
                (order.1 (kept.1 (inr (w.1.0, w.1.1, with.1 (inr (w.1.0, w.1.1, at.1 w.2)))))),
        ),
      )
]

-- After any history of grants on an empty store, whenever the set engine lists the resources of a
-- type on which a subject may perform an action that is not empty, a resource of that type is
-- listed, or the list is reported as unbounded, exactly if the engine's check of that resource
-- allows the action; nothing else is listed.
pub list_resources-check_keys :
    (cs : List Change) (t : TenantId) (sub : Subject) (act : Action) (kind : String) (r : Resource)
    {rs : List Resource} {unbounded : Bool}
    → act ≢ ""
    → list_resources (engine (run cs new_mem_permission_store)) t sub act kind ≡ ok (rs, unbounded)
    → (IsOfType kind r × (check (engine (run cs new_mem_permission_store)) t sub act r ≡ ok allow))
      ↔ ((IsOfType kind r × (unbounded ≡ true)) ⊎ In r rs)
list_resources-check_keys cs t sub act kind r {rs} {unbounded} n h =
    let m = run cs new_mem_permission_store in
    let gated = list_resources-gate m t sub act kind {rs = rs} {unbounded = unbounded} h in
    let (scope, home) = gate-valid t sub gated in
    let a =
      listed m t sub act kind r {rs = rs} {unbounded = unbounded}
        (run-UniqueKeys cs new_mem_permission_store tt) n gated h in
    let allowed = check_store m t sub act r scope home in ground (arith, a, allowed)
