-- ===== src/Tenant/Inherited.antt =====
-- tenant/inherited.go: one axis of inheritance, a tenant's own items or those of the nearest
-- ancestor that has some, if its switch allows it. `none` for the store or the policy is Go's nil.
use tamper.Prelude.{
  Bool, true, false, not, ◌≡◌, refl, ap, ◌∙◌, Bool-cases, ◌&&◌, inl, inr, ◌⊎◌, Option, none, some,
  List, [], ◌∷◌, ◌++◌, All, if◌then◌else◌, is_empty, Result, ok, err, ◌>>=◌, >>=-eq-ok, arith,
}
use tamper.Tenant.Ident.{TenantId}
use tamper.Tenant.Errors.{Error, is_not_found, is_dangling}
use tamper.Tenant.Store.{Store}
use tamper.Tenant.Hierarchy.{ancestors}

-- The application's switch for one axis.
abbrev pub Inheritance : Type 0
Inheritance = TenantId → Result Error Bool

abbrev pub InheritFunc {ℓ} : Type ℓ → Type ℓ
InheritFunc T = TenantId → Result Error (List T)

module _ {ℓ} {T : Type ℓ} (own : InheritFunc T) where
  -- The loop over the ancestors.
  unfoldable pub lend : Inheritance → List TenantId → Result Error (List T)
  lend allow [] = ok []
  lend allow (a ∷ chain) =
      let rest = lend allow chain in
      own a >>= λ lent.
      if is_empty lent then rest else allow a >>= λ allowed. if not allowed then ok [] else ok lent

  -- What the walk's errors come to: an unknown tenant has nothing, any other error stays.
  abbrev pub walk_error : Error → Result Error (List T)
  walk_error e = if is_dangling e then err e else if is_not_found e then ok [] else err e

  unfoldable pub inherited : Option Store → Option Inheritance → TenantId → Result Error (List T)
  unfolding lend
  inherited s allow id = own id >>= λ items. if not (is_empty items) then ok items else elim s [
    | none ↦ ok items
    | some store ↦ elim allow [
      | none ↦ ok items
      | some policy ↦ elim (ancestors store id) [
        | ok chain ↦ lend policy chain
        | err e ↦ walk_error e
      ]
    ]
  ]

  -- The tenants of a list have nothing of their own.
  abbrev pub HaveNothing : List TenantId → Type ℓ
  HaveNothing = All (λ a. own a ≡ ok [])

  -- The nearest lender: the first of a chain that has items.
  pub record Lender (chain : List TenantId) (a : TenantId) (items : List T) : Type ℓ where
    pub before : List TenantId
    pub behind : List TenantId
    pub split : chain ≡ before ++ a ∷ behind
    pub passed : HaveNothing before
    pub lends : own a ≡ ok items
    pub some_items : is_empty items ≡ false

  -- What a walk over a chain answers.
  abbrev pub Answer : Inheritance → List TenantId → List T → Type ℓ
  Answer allow chain items =
      (HaveNothing chain × (items ≡ []))
      ⊎ ((a : TenantId) × (lent : List T) × Lender chain a lent
          × (((allow a ≡ ok true) × (items ≡ lent)) ⊎ ((allow a ≡ ok false) × (items ≡ []))))

  Answer-pass :
      (allow : Inheritance) (a : TenantId) (chain : List TenantId) (items : List T)
      → own a ≡ ok []
      → Answer allow chain items
      → Answer allow (a ∷ chain) items
  Answer-pass allow a chain items e (inl (none_has, n)) = inl ((e, none_has), n)
  Answer-pass allow a chain items e (inr (b, lent, l, v)) = inr (
    b,
    lent,
    record {
      before = a ∷ l.before;
      behind = l.behind;
      split = ap (◌∷◌ a) l.split;
      passed = (e, l.passed);
      lends = l.lends;
      some_items = l.some_items;
    },
    v,
  )

  nearest :
      (a : TenantId) (chain : List TenantId) (lent : List T)
      → own a ≡ ok lent
      → is_empty lent ≡ false
      → Lender (a ∷ chain) a lent
  nearest a chain lent e n = record {
    before = [];
    behind = chain;
    split = refl;
    passed = tt;
    lends = e;
    some_items = n;
  }

  empty-nil : (l : List T) → is_empty l ≡ true → l ≡ []
  empty-nil [] h = refl
  empty-nil (x ∷ l) h = cc

  switch :
      (asked : Result Error Bool) (allowed : Bool) (lent items : List T)
      → asked ≡ ok allowed
      → ◌≡◌ {A = Result Error (List T)} (if not allowed then ok [] else ok lent) (ok items)
      → ((asked ≡ ok true) × (items ≡ lent)) ⊎ ((asked ≡ ok false) × (items ≡ []))
  switch asked true lent items e h = inl (e, ground arith)
  switch asked false lent items e h = inr (e, ground arith)

  lend-Answer :
      (allow : Inheritance) (chain : List TenantId) {items : List T}
      → lend allow chain ≡ ok items
      → Answer allow chain items
  unfolding lend
  lend-Answer allow [] h = inl (tt, ground arith)
  lend-Answer allow (a ∷ chain) {items} h =
      let (lent, read, rest) = >>=-eq-ok (own a) _ h in
      elim (Bool-cases (is_empty lent)) [
        | inl t ↦
            let nil = empty-nil lent t in
            Answer-pass allow a chain items (read ∙ ap ok nil)
              (lend-Answer allow chain (rw t at rest))
        | inr f ↦
            let (allowed, asked, last) = >>=-eq-ok (allow a) _ (rw f at rest) in
            inr
              (a, lent, nearest a chain lent read f, switch (allow a) allowed lent items asked last)
      ]

  -- What a tenant has of its own is its answer, whatever its ancestors have.
  pub inherited_own :
      (s : Option Store) (allow : Option Inheritance) (id : TenantId) (items : List T)
      → own id ≡ ok items
      → is_empty items ≡ false
      → inherited s allow id ≡ ok items
  unfolding inherited
  inherited_own s allow id items e n = rw (e, n)

  -- A tenant with nothing of its own gets, along the chain of its ancestors, what the nearest
  -- ancestor with items has if that ancestor's switch allows it, and nothing if the switch
  -- refuses: ancestors without items are passed over and their switches are not asked, and no
  -- ancestor behind the lender counts.
  pub inherited-Answer :
      (store : Store) (policy : Inheritance) (id : TenantId) (chain : List TenantId)
      {items : List T}
      → own id ≡ ok []
      → ancestors store id ≡ ok chain
      → inherited (some store) (some policy) id ≡ ok items
      → Answer policy chain items
  unfolding inherited
  inherited-Answer store policy id chain e w h = lend-Answer policy chain (rw (e, w) at h)

  -- A tenant with nothing of its own whose walk fails gets nothing if the walk's error is that
  -- the tenant is unknown, and that error itself if it is any other: corrupt parentage stays an
  -- error, also where a missing parent is the cause.
  pub inherited_walk_error :
      (store : Store) (policy : Inheritance) (id : TenantId) (x : Error)
      → own id ≡ ok []
      → ancestors store id ≡ err x
      → inherited (some store) (some policy) id
        ≡ (if is_not_found x && not (is_dangling x) then ok [] else err x)
  unfolding inherited
  inherited_walk_error store policy id x e w = rw (e, w) (ground arith)
