-- ===== src/Authz/MemPermissions.antt =====
-- authz/mempermissionstore.go: the in-memory store of permission keys. The mutex makes each method
-- one step; a set of keys is the list of its elements.
pub mod Keys
pub mod Decides
pub mod Listing
use tamper.Prelude.{
  String, String_eq, Bool, true, false, not, ◌&&◌, ◌||◌, ◌==◌, ◌≡◌, Eq, dec_pair, dec_via, Option,
  none, some, List, [], ◌∷◌, ◌++◌, contains, if◌then◌else◌, Result, ok, err, ◌>>=◌, ◌>>◌, arith,
}
use tamper.Prelude.Dict.{Dict, lookup, insert}
use tamper.Tenant.Ident.{TenantId, TenantId-dec, TenantId_eq}
use tamper.Authz.Types.{
  Error, Subject, Subject-dec, Subject_eq, Resource, Resource-dec, Resource_eq, gate, scope_gate,
}
use tamper.Authz.PermissionSet.{superuser_key, PermissionSetResult, PermissionStore}

pub record PermGrantKey : Type 0 where
  pub tenant : TenantId
  pub sub : Subject
  pub res : Resource

pub record PermSuperKey : Type 0 where
  pub tenant : TenantId
  pub sub : Subject

pub PermGrantKey-fields :
    (a b : PermGrantKey)
    → ◌≡◌ {A = TenantId × (Subject × Resource)}
        (a.tenant, (a.sub, a.res))
        (b.tenant, (b.sub, b.res))
    → a ≡ b
PermGrantKey-fields a b e = ground arith

pub PermSuperKey-fields :
    (a b : PermSuperKey) → ◌≡◌ {A = TenantId × Subject} (a.tenant, a.sub) (b.tenant, b.sub) → a ≡ b
PermSuperKey-fields a b e = ground arith

unfoldable pub PermGrantKey-dec : Discrete PermGrantKey
unfolding dec_via dec_pair TenantId-dec Subject-dec Resource-dec
PermGrantKey-dec =
    dec_via (λ a. (a.tenant, (a.sub, a.res))) PermGrantKey-fields
      (dec_pair TenantId-dec (dec_pair Subject-dec Resource-dec))

unfoldable pub PermSuperKey-dec : Discrete PermSuperKey
unfolding dec_via dec_pair TenantId-dec Subject-dec
PermSuperKey-dec =
    dec_via (λ a. (a.tenant, a.sub)) PermSuperKey-fields (dec_pair TenantId-dec Subject-dec)

instance abbrev pub PermGrantKey_eq : Eq PermGrantKey
PermGrantKey_eq = record { dec = PermGrantKey-dec }

instance abbrev pub PermSuperKey_eq : Eq PermSuperKey
PermSuperKey_eq = record { dec = PermSuperKey-dec }

pub record MemPermissionStore : Type 0 where
  pub grants : Dict PermGrantKey (List String)
  pub superusers : List PermSuperKey

abbrev pub new_mem_permission_store : MemPermissionStore
new_mem_permission_store = record { grants = []; superusers = [] }

-- `m.grants[k]`, the empty set for a missing key.
abbrev pub keys_of : Option (List String) → List String
keys_of none = []
keys_of (some set) = set

-- The loop of `Grant`, which leaves the superuser's key out.
unfoldable pub add_keys : List String → List String → List String
add_keys set [] = set
add_keys set (key ∷ keys) =
    add_keys (if key == superuser_key || contains key set then set else set ++ key ∷ []) keys

unfoldable pub grant :
    TenantId
    → Subject
    → Resource
    → List String
    → MemPermissionStore
    → Result Error MemPermissionStore
unfolding add_keys
grant tenant_id sub res keys m = do
  gate tenant_id sub
  ok (record m {
    grants =
        insert (record { tenant = tenant_id; sub = sub; res = res })
          (add_keys
            (keys_of (lookup (record { tenant = tenant_id; sub = sub; res = res }) m.grants)) keys)
          m.grants;
  })

unfoldable pub grant_superuser :
    TenantId → Subject → MemPermissionStore → Result Error MemPermissionStore
grant_superuser tenant_id sub m = do
  gate tenant_id sub
  ok (record m { superusers = record { tenant = tenant_id; sub = sub } ∷ m.superusers })

abbrev pub is_superuser : MemPermissionStore → TenantId → Subject → Bool
is_superuser m tenant_id sub = contains (record { tenant = tenant_id; sub = sub }) m.superusers

unfoldable pub permissions_for :
    MemPermissionStore → TenantId → Subject → Resource → Result Error PermissionSetResult
permissions_for m tenant_id sub res = gate tenant_id sub >>= λ _.
    if is_superuser m tenant_id sub
    then ok (record { keys = []; superuser = true })
    else ok (record {
      keys = keys_of (lookup (record { tenant = tenant_id; sub = sub; res = res }) m.grants);
      superuser = false;
    })

-- The loop of `ResourcesWithPermission`.
unfoldable pub resources_with :
    TenantId
    → Subject
    → String
    → String
    → List Resource
    → Dict PermGrantKey (List String)
    → List Resource
resources_with tenant_id sub key resource_type out [] = out
resources_with tenant_id sub key resource_type out ((gk, set) ∷ grants) =
    resources_with tenant_id sub key resource_type
      (if not (gk.tenant == tenant_id)
          || not (gk.sub == sub)
          || not (gk.res.kind == resource_type)
          || gk.res.id == ""
        then out
        else if contains key set
        then out ++ gk.res ∷ []
        else out)
      grants

unfoldable pub resources_with_permission :
    MemPermissionStore → TenantId → Subject → String → String → Result Error (List Resource × Bool)
unfolding resources_with
resources_with_permission m tenant_id sub key resource_type = gate tenant_id sub >>= λ _.
    if is_superuser m tenant_id sub
    then ok ([], true)
    else ok (resources_with tenant_id sub key resource_type [] m.grants, false)

-- The loop of `SubjectsWithPermission` over the grants.
unfoldable pub subjects_with :
    TenantId → String → Resource → List Subject → Dict PermGrantKey (List String) → List Subject
subjects_with tenant_id key res out [] = out
subjects_with tenant_id key res out ((gk, set) ∷ grants) =
    subjects_with tenant_id key res
      (if not (gk.tenant == tenant_id)
          || not (gk.res == res)
          || not (contains key set)
          || contains gk.sub out
        then out
        else out ++ gk.sub ∷ [])
      grants

-- Its loop over the superusers.
unfoldable pub add_superusers : TenantId → List Subject → List PermSuperKey → List Subject
add_superusers tenant_id out [] = out
add_superusers tenant_id out (sk ∷ superusers) =
    add_superusers tenant_id
      (if not (sk.tenant == tenant_id) || contains sk.sub out then out else out ++ sk.sub ∷ [])
      superusers

unfoldable pub subjects_with_permission :
    MemPermissionStore → TenantId → String → Resource → Result Error (List Subject)
unfolding subjects_with add_superusers
subjects_with_permission m tenant_id key res = do
  scope_gate tenant_id
  ok (add_superusers tenant_id (subjects_with tenant_id key res [] m.grants) m.superusers)

abbrev pub mem_as_permissions : MemPermissionStore → PermissionStore
mem_as_permissions m = record {
  permissions_for = permissions_for m;
  resources_with_permission = resources_with_permission m;
  subjects_with_permission = subjects_with_permission m;
}
