-- ===== src/Authz/PermissionSet.antt =====
-- authz/permissionset.go: the set engine, an `Authorizer` over a store of permission keys. A Go
-- set of keys is the list of its elements.
use tamper.Prelude.{
  String, String_eq, Bool, true, false, not, ◌||◌, ◌==◌, List, [], ◌∷◌, ◌++◌, contains,
  if◌then◌else◌, Result, ok, err, ◌>>=◌, ◌>>◌, map_results,
}
use tamper.Prelude.Sorting.{sort_by, string_lt}
use tamper.Tenant.Ident.{TenantId, valid}
use tamper.Authz.Types.{
  Error, tenant_required, Subject, Subject_eq, Resource, Resource_eq, Action, Decision,
  CheckRequest, gate, scope_gate,
}
use tamper.Authz.Rbac.{allow, deny, subject_lt}

abbrev pub superuser_key : String
superuser_key = "*"

pub record PermissionSetResult : Type 0 where
  pub keys : List String
  pub superuser : Bool

unfoldable pub allows : PermissionSetResult → Action → Bool
allows r act = if r.superuser then true else contains act r.keys

-- The port of the store of effective permission keys.
pub record PermissionStore : Type 0 where
  pub permissions_for : TenantId → Subject → Resource → Result Error PermissionSetResult
  pub resources_with_permission :
      TenantId → Subject → String → String → Result Error (List Resource × Bool)
  pub subjects_with_permission : TenantId → String → Resource → Result Error (List Subject)

pub record PermissionSet : Type 0 where
  pub store : PermissionStore

unfoldable pub check :
    PermissionSet → TenantId → Subject → Action → Resource → Result Error Decision
unfolding allows
check e tenant_id sub act res = gate tenant_id sub >>= λ _.
    if act == ""
    then ok deny
    else e.store.permissions_for tenant_id sub res >>= λ set.
        if set.superuser then ok allow else if allows set act then ok allow else ok deny

unfoldable pub check_bulk :
    PermissionSet → TenantId → List CheckRequest → Result Error (List Decision)
unfolding check map_results
check_bulk e tenant_id reqs = do
  scope_gate tenant_id
  map_results (λ (r : CheckRequest). check e tenant_id r.subject r.action r.resource) reqs

-- The loop of `ListResources`.
unfoldable pub filter_resources : String → List Resource → List Resource → List Resource
filter_resources resource_type out [] = out
filter_resources resource_type out (r ∷ rs) =
    filter_resources resource_type
      (if not (r.kind == resource_type) || r.id == "" || contains r out then out else out ++ r ∷ [])
      rs

unfoldable pub list_resources :
    PermissionSet → TenantId → Subject → Action → String → Result Error (List Resource × Bool)
unfolding filter_resources
list_resources e tenant_id sub act resource_type = gate tenant_id sub >>= λ _.
    if act == ""
    then ok ([], false)
    else e.store.resources_with_permission tenant_id sub act resource_type >>= λ found.
        ok (
          sort_by (λ a b. string_lt a.id b.id) (filter_resources resource_type [] found.0),
          found.1,
        )

-- The loop of `ListSubjects`.
unfoldable pub filter_subjects : List Subject → List Subject → Result Error (List Subject)
filter_subjects out [] = ok out
filter_subjects out (s ∷ ss) =
    let rest = filter_subjects (if contains s out then out else out ++ s ∷ []) ss in
    if not (valid s.tenant) then err tenant_required else rest

unfoldable pub list_subjects :
    PermissionSet → TenantId → Action → Resource → Result Error (List Subject × Bool)
unfolding filter_subjects
list_subjects e tenant_id act res = scope_gate tenant_id >>= λ _.
    if act == ""
    then ok ([], false)
    else e.store.subjects_with_permission tenant_id act res >>= λ found.
        filter_subjects [] found >>= λ out. ok (sort_by subject_lt out, false)
