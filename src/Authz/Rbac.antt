-- ===== src/Authz/Rbac.antt =====
-- authz/rbac.go: the role engine, an `Authorizer` over a store of bindings.
pub mod Effective
pub mod Decides
pub mod Stored
pub mod Subjects
pub mod Review
pub mod Resources
pub mod Local
pub mod Listing
pub mod Bulk
use tamper.Prelude.{
  ℕ, String, String_eq, ℕ_eq, Bool, true, false, not, ◌&&◌, ◌||◌, ◌==◌, Option, none, some, List,
  [], ◌∷◌, ◌++◌, contains, if◌then◌else◌, leb, ltb, Result, ok, err, ◌>>=◌, ◌>>◌, fail_if,
  map_results,
}
use tamper.Prelude.Dict.{lookup}
use tamper.Prelude.Sorting.{sort_by, string_lt}
use tamper.Tenant.Ident.{TenantId, TenantId_eq, valid, to_string}
use tamper.Authz.Types.{
  Error, tenant_required, unknown_action, Subject, Subject_eq, Resource, Resource_eq, singleton,
  Action, Role, Decision, CheckRequest, Binding, gate, scope_gate, BindingStore,
}
use tamper.Authz.Policy.{Hierarchy, Policy, Requirement, rank, validate}

pub record Rbac : Type 0 where
  pub store : BindingStore
  pub h : Hierarchy
  pub p : Policy

unfoldable pub new_rbac : BindingStore → Hierarchy → Policy → Result Error Rbac
new_rbac store h p = do validate h p; ok (record { store = store; h = h; p = p })

-- The binding is of this scope, this subject and this resource, each of them whole.
unfoldable pub matches : TenantId → Subject → Resource → Binding → Bool
matches tenant_id sub res b = b.tenant == tenant_id && b.subject == sub && b.resource == res

-- The loop of `effective`: the best role so far, with its rank.
unfoldable pub best_of :
    Hierarchy → TenantId → Subject → Resource → Role × ℕ → List Binding → Role × ℕ
best_of h tenant_id sub res best [] = best
best_of h tenant_id sub res best (b ∷ bs) =
    let r = rank h res.kind b.role in
    best_of h tenant_id sub res
      (if matches tenant_id sub res b && ltb best.1 r then (b.role, r) else best) bs

unfoldable pub effective : Rbac → TenantId → Subject → Resource → Result Error (Role × ℕ)
unfolding best_of matches
effective e tenant_id sub res = do
  bs ← e.store.bindings_for tenant_id sub res
  ok (best_of e.h tenant_id sub res ("", 0) bs)

-- The resource that a requirement consults: the checked one if it is of the requirement's type,
-- the singleton of that type otherwise.
unfoldable pub target_of : Requirement → Resource → Resource
target_of req res = if not (req.kind == res.kind) then singleton req.kind else res

abbrev pub allow : Decision
allow = record { allowed = true }

abbrev pub deny : Decision
deny = record { allowed = false }

-- The loop of `Check` over the requirements of the action.
unfoldable pub check_requirements :
    Rbac → TenantId → Subject → Resource → List Requirement → Result Error Decision
unfolding effective target_of
check_requirements e tenant_id sub res [] = ok deny
check_requirements e tenant_id sub res (req ∷ reqs) =
    let rest = check_requirements e tenant_id sub res reqs in
    effective e tenant_id sub (target_of req res) >>= λ best.
    if leb (rank e.h req.kind req.min) best.1 then ok allow else rest

unfoldable pub check : Rbac → TenantId → Subject → Action → Resource → Result Error Decision
unfolding check_requirements
check e tenant_id sub act res = gate tenant_id sub >>= λ _. elim (lookup act e.p) [
  | none ↦ ok deny
  | some reqs ↦ check_requirements e tenant_id sub res reqs
]

unfoldable pub check_bulk : Rbac → TenantId → List CheckRequest → Result Error (List Decision)
unfolding check map_results
check_bulk e tenant_id reqs = do
  scope_gate tenant_id
  map_results (λ (r : CheckRequest). check e tenant_id r.subject r.action r.resource) reqs

-- The loop of `ListResources` over the requirements: whether access is unbounded, and the lowest
-- rank that a requirement of the asked type needs (0 where there is none).
unfoldable pub scan_requirements :
    Rbac → TenantId → Subject → String → Bool → ℕ → List Requirement → Result Error (Bool × ℕ)
unfolding effective
scan_requirements e tenant_id sub resource_type unbounded lowest [] = ok (unbounded, lowest)
scan_requirements e tenant_id sub resource_type unbounded lowest (req ∷ reqs) =
    let r = rank e.h resource_type req.min in
    let same =
      scan_requirements e tenant_id sub resource_type unbounded
        (if lowest == 0 || ltb r lowest then r else lowest) reqs in
    let skip = scan_requirements e tenant_id sub resource_type unbounded lowest reqs in
    let grant = scan_requirements e tenant_id sub resource_type true lowest reqs in
    if req.kind == resource_type
    then same
    else if unbounded
    then skip
    else (effective e tenant_id sub (singleton req.kind) >>= λ best.
        if leb (rank e.h req.kind req.min) best.1 then grant else skip)

-- The loop of `ListResources` over the bindings.
unfoldable pub collect_resources :
    Rbac → TenantId → Subject → String → ℕ → List Resource → List Binding → List Resource
collect_resources e tenant_id sub resource_type lowest out [] = out
collect_resources e tenant_id sub resource_type lowest out (b ∷ bs) =
    collect_resources e tenant_id sub resource_type lowest
      (if b.tenant == tenant_id
          && b.subject == sub
          && b.resource.kind == resource_type
          && not (b.resource.id == "")
          && leb lowest (rank e.h resource_type b.role)
          && not (contains b.resource out)
        then out ++ b.resource ∷ []
        else out)
      bs

unfoldable pub list_resources :
    Rbac → TenantId → Subject → Action → String → Result Error (List Resource × Bool)
unfolding scan_requirements collect_resources
list_resources e tenant_id sub act resource_type = gate tenant_id sub >>= λ _.
    elim (lookup act e.p) [
      | none ↦ err unknown_action
      | some reqs ↦ scan_requirements e tenant_id sub resource_type false 0 reqs >>= λ scan.
          if scan.1 == 0
          then ok ([], scan.0)
          else e.store.bindings_for_subject tenant_id sub resource_type >>= λ bs. ok (
            sort_by (λ a b. string_lt a.id b.id)
                (collect_resources e tenant_id sub resource_type scan.1 [] bs),
            scan.0,
          )
    ]

-- The order of `sortSubjects`.
unfoldable pub subject_lt : Subject → Subject → Bool
subject_lt a b =
    if not (a.kind == b.kind)
    then string_lt a.kind b.kind
    else if not (a.id == b.id)
    then string_lt a.id b.id
    else string_lt (to_string a.tenant) (to_string b.tenant)

-- The inner loop of `ListSubjects`, over the bindings on one target.
unfoldable pub collect_subjects :
    Rbac → TenantId → Resource → ℕ → List Subject → List Binding → Result Error (List Subject)
collect_subjects e tenant_id target min_rank out [] = ok out
collect_subjects e tenant_id target min_rank out (b ∷ bs) =
    let skip = collect_subjects e tenant_id target min_rank out bs in
    let add = collect_subjects e tenant_id target min_rank (out ++ b.subject ∷ []) bs in
    if not (b.tenant == tenant_id) || not (b.resource == target)
    then skip
    else if ltb (rank e.h target.kind b.role) min_rank || contains b.subject out
    then skip
    else if not (valid b.subject.tenant)
    then err tenant_required
    else add

-- The outer loop of `ListSubjects`, over the requirements.
unfoldable pub subjects_of_requirements :
    Rbac → TenantId → Resource → List Subject → List Requirement → Result Error (List Subject)
unfolding target_of collect_subjects
subjects_of_requirements e tenant_id res out [] = ok out
subjects_of_requirements e tenant_id res out (req ∷ reqs) =
    e.store.bindings_on_resource tenant_id (target_of req res) >>= λ bs.
    collect_subjects e tenant_id (target_of req res) (rank e.h req.kind req.min) out bs >>= λ out'.
    subjects_of_requirements e tenant_id res out' reqs

unfoldable pub list_subjects :
    Rbac → TenantId → Action → Resource → Result Error (List Subject × Bool)
unfolding subjects_of_requirements
list_subjects e tenant_id act res = scope_gate tenant_id >>= λ _. elim (lookup act e.p) [
  | none ↦ err unknown_action
  | some reqs ↦
      subjects_of_requirements e tenant_id res [] reqs >>= λ out. ok (sort_by subject_lt out, false)
]
