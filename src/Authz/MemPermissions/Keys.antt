-- ===== src/Authz/MemPermissions/Keys.antt =====
-- Which keys a history of grants leaves (authz/mempermissionstore.go).
use tamper.Prelude.{
  String, String_eq, Bool, true, false, not, ◌&&◌, ◌||◌, ◌==◌, ◌≡◌, ◌∙◌, ap, List, [], ◌∷◌, ◌++◌,
  contains, if◌then◌else◌, Result, ok, err, arith,
}
use tamper.Prelude.Dict.{lookup, lookup-insert}
use tamper.Tenant.Ident.{TenantId, TenantId_eq, valid}
use tamper.Authz.Types.{Error, Subject, Subject_eq, Resource, Resource_eq, gate, scope_gate}
use tamper.Authz.PermissionSet.{superuser_key}
use tamper.Authz.MemPermissions.{
  PermGrantKey, PermGrantKey_eq, PermSuperKey_eq, MemPermissionStore, keys_of, add_keys, grant,
  grant_superuser, is_superuser,
}

-- The writes of the store; one that is refused leaves it as it was.
pub data Change : Type 0 where
  granted : TenantId → Subject → Resource → List String → Change
  made_superuser : TenantId → Subject → Change

abbrev pub after : MemPermissionStore → Result Error MemPermissionStore → MemPermissionStore
after m (ok m') = m'
after m (err e) = m

unfoldable pub apply : Change → MemPermissionStore → MemPermissionStore
apply (granted t sub res keys) m = after m (grant t sub res keys m)
apply (made_superuser t sub) m = after m (grant_superuser t sub m)

unfoldable pub run : List Change → MemPermissionStore → MemPermissionStore
run [] m = m
run (c ∷ cs) m = run cs (apply c m)

contains-snoc :
    (x b : String) (l : List String)
    → contains x (l ++ b ∷ []) ≡ (if x == b then true else contains x l)
unfolding contains
contains-snoc x b [] = ground arith
contains-snoc x b (y ∷ l) = ground (arith, contains-snoc x b l)

contains-add_keys :
    (act : String) (set keys : List String)
    → contains act (add_keys set keys)
      ≡ (contains act set || (not (act == superuser_key) && contains act keys))
unfolding add_keys contains
contains-add_keys act set [] = ground arith
contains-add_keys act set (key ∷ keys) = ground (
  arith,
  contains-add_keys act set keys,
  contains-add_keys act (set ++ key ∷ []) keys,
  contains-snoc act key set,
)

-- A change grants the key to the subject on the resource; the superuser's key is never granted.
abbrev pub gives : TenantId → Subject → Resource → String → Change → Bool
gives t sub res act (made_superuser t' sub') = false
gives t sub res act (granted t' sub' res' keys) =
    t' == t && sub' == sub && res' == res && not (act == superuser_key) && contains act keys

-- A change makes the subject a superuser of the scope.
abbrev pub crowns : TenantId → Subject → Change → Bool
crowns t sub (made_superuser t' sub') = t' == t && sub' == sub
crowns t sub (granted t' sub' res' keys) = false

-- Some change of the history passes the test.
abbrev pub any_change : (Change → Bool) → List Change → Bool
any_change p [] = false
any_change p (c ∷ cs) = p c || any_change p cs

-- The store has the key for the subject on the resource.
abbrev pub holds : TenantId → Subject → MemPermissionStore → Resource → String → Bool
holds t sub m res act =
    contains act (keys_of (lookup (record { tenant = t; sub = sub; res = res }) m.grants))

module _ (t : TenantId) (sub : Subject) (scope : valid t ≡ true)
    (home : valid sub.tenant ≡ true) where
  apply-holds :
      (c : Change) (m : MemPermissionStore) (res : Resource) (act : String)
      → holds t sub (apply c m) res act ≡ (holds t sub m res act || gives t sub res act c)
  unfolding apply grant grant_superuser gate scope_gate
  apply-holds (made_superuser t' sub') m res act = ground arith
  apply-holds (granted t' sub' res' keys) m res act =
      let k : PermGrantKey = record { tenant = t'; sub = sub'; res = res' } in
      let set = keys_of (lookup k m.grants) in
      ground (
        arith,
        contains-add_keys act set keys,
        lookup-insert k (record { tenant = t; sub = sub; res = res }) (add_keys set keys) m.grants,
      )

  apply-is_superuser :
      (c : Change) (m : MemPermissionStore)
      → is_superuser (apply c m) t sub ≡ (is_superuser m t sub || crowns t sub c)
  unfolding apply grant grant_superuser gate scope_gate contains
  apply-is_superuser (granted t' sub' res' keys) m = ground arith
  apply-is_superuser (made_superuser t' sub') m = ground arith

  or_assoc : (a b c : Bool) → ((a || b) || c) ≡ (a || (b || c))
  or_assoc a b c = ground arith

  pub run-holds :
      (cs : List Change) (m : MemPermissionStore) (res : Resource) (act : String)
      → holds t sub (run cs m) res act
        ≡ (holds t sub m res act || any_change (gives t sub res act) cs)
  unfolding run
  run-holds [] m res act = ground arith
  run-holds (c ∷ cs) m res act =
      run-holds cs (apply c m) res act
      ∙ ap (λ b. b || any_change (gives t sub res act) cs) (apply-holds c m res act)
      ∙ or_assoc (holds t sub m res act) (gives t sub res act c)
          (any_change (gives t sub res act) cs)

  pub run-is_superuser :
      (cs : List Change) (m : MemPermissionStore)
      → is_superuser (run cs m) t sub ≡ (is_superuser m t sub || any_change (crowns t sub) cs)
  unfolding run
  run-is_superuser [] m = ground arith
  run-is_superuser (c ∷ cs) m =
      run-is_superuser cs (apply c m)
      ∙ ap (λ b. b || any_change (crowns t sub) cs) (apply-is_superuser c m)
      ∙ or_assoc (is_superuser m t sub) (crowns t sub c) (any_change (crowns t sub) cs)
