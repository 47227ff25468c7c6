-- ===== src/Tenant/Hierarchy/Walk.antt =====
-- The walk of `Ancestors` (tenant/hierarchy.go) against the chain of parents that it looks for.
use tamper.Prelude.{
  ℕ, zero, suc, ◌+◌, ◌≤◌, ◌<◌, String_eq, ◌≟◌, ◌≡◌, ◌≢◌, refl, sym, subst, ◌∙◌, false-ne-true, some,
  inl, inr, List, [], ◌∷◌, ◌++◌, leb, length, contains, In, In-of_contains, contains_of_In, Result,
  ok, err, Result-cases, Bool-cases, length-append, arith,
}
use mathlib.Core.List.{append-nil, append_assoc}
use tamper.Tenant.Ident.{TenantId, TenantId_eq, to_string, from_stored}
use tamper.Tenant.Errors.{Error, hierarchy_cycle, hierarchy_depth, hierarchy_dangling}
use tamper.Tenant.Store.{Store, Descriptor}
use tamper.Tenant.Hierarchy.Chains.{Above, Climbs, Stuck, NoRepeat, seen_after}
use tamper.Tenant.Hierarchy.{climb}

-- One round of the loop, by its tests.
data Round (s : Store) (seen chain : List TenantId) (d : Descriptor) : Type 0 where
  root : d.parent_id ≡ "" → Round s seen chain d
  loop : d.parent_id ≢ "" → In (from_stored d.parent_id) seen → Round s seen chain d
  deep :
      d.parent_id ≢ ""
      → (¬ In (from_stored d.parent_id) seen)
      → 32 ≤ length chain
      → Round s seen chain d
  broken :
      d.parent_id ≢ ""
      → (¬ In (from_stored d.parent_id) seen)
      → length chain < 32
      → (x : Error) → s.by_id (to_string (from_stored d.parent_id)) ≡ err x
      → Round s seen chain d
  up :
      d.parent_id ≢ ""
      → (¬ In (from_stored d.parent_id) seen)
      → length chain < 32
      → (d' : Descriptor) → s.by_id (to_string (from_stored d.parent_id)) ≡ ok d'
      → Round s seen chain d

round : (s : Store) (seen chain : List TenantId) (d : Descriptor) → Round s seen chain d
round s seen chain d = elim (d.parent_id ≟ "") [
  | yes p ↦ root p
  | no p ↦ elim (Bool-cases (contains (from_stored d.parent_id) seen)) [
    | inl t ↦ loop p (In-of_contains _ seen t)
    | inr f ↦
        let fresh : ¬ In (from_stored d.parent_id) seen =
          λ m. false-ne-true (sym f ∙ contains_of_In (from_stored d.parent_id) seen m) in
        elim (Bool-cases (leb 32 (length chain))) [
          | inl t ↦ deep p fresh (ground arith)
          | inr g ↦ elim (Result-cases (s.by_id (to_string (from_stored d.parent_id)))) [
            | inl (d', e) ↦ up p fresh (ground arith) d' e
            | inr (x, e) ↦ broken p fresh (ground arith) x e
          ]
        ]
  ]
]

module _ (s : Store) where
  -- What a walk comes to, from the middle of the loop.
  abbrev pub Outcome :
      List TenantId → List TenantId → Descriptor → Result Error (List TenantId) → Type 0
  Outcome seen chain d (ok r) =
      (rest : List TenantId) × (r ≡ chain ++ rest)
      × Above s d rest
      × NoRepeat seen rest
      × (length chain + length rest ≤ 32)
  Outcome seen chain d (err x) =
      (path : List TenantId) × (e : Descriptor) × Climbs s d path e
      × NoRepeat seen path
      × Stuck s (seen_after seen path) e (length chain + length path) x

  Outcome-up :
      (seen chain : List TenantId) (d d' : Descriptor) (r : Result Error (List TenantId))
      → d.parent_id ≢ ""
      → ¬ In (from_stored d.parent_id) seen
      → s.by_id (to_string (from_stored d.parent_id)) ≡ ok d'
      → Outcome (from_stored d.parent_id ∷ seen) (chain ++ from_stored d.parent_id ∷ []) d' r
      → Outcome seen chain d r
  Outcome-up seen chain d d' (ok r) p n e (rest, eq, above, fresh, len) = (
    from_stored d.parent_id ∷ rest,
    eq ∙ append_assoc chain (from_stored d.parent_id ∷ []) rest,
    (p, refl, (d', e, above)),
    (n, fresh),
    omega (arith, length-append chain (from_stored d.parent_id ∷ [])),
  )
  Outcome-up seen chain d d' (err x) p n e (path, f, climbs, fresh, stuck) = (
    from_stored d.parent_id ∷ path,
    f,
    (p, refl, (d', e, climbs)),
    (n, fresh),
    subst (λ k. Stuck s (seen_after (from_stored d.parent_id ∷ seen) path) f k x)
        (omega (arith, length-append chain (from_stored d.parent_id ∷ []))) stuck,
  )

  pub climb-Outcome :
      (fuel : ℕ) (seen chain : List TenantId) (d : Descriptor)
      → length chain ≤ 32
      → 33 ≤ length chain + fuel
      → (r : Result Error (List TenantId)) × (climb fuel s seen chain d ≡ some r)
        × Outcome seen chain d r
  unfolding climb
  climb-Outcome zero seen chain d b h = absurd (omega arith)
  climb-Outcome (suc fuel) seen chain d b h = elim (round s seen chain d) [
    | root p ↦ (ok chain, ground arith, ([], sym (append-nil chain), p, tt, ground arith))
    | loop p m ↦ (
      err hierarchy_cycle,
      ground (arith, contains_of_In (from_stored d.parent_id) seen m),
      ([], d, refl, tt, (p, m)),
    )
    | deep p n l ↦ (
      err hierarchy_depth,
      ground (arith, In-of_contains (from_stored d.parent_id) seen),
      ([], d, refl, tt, (p, n, ground arith)),
    )
    | broken p n l x e ↦ (
      err (hierarchy_dangling x),
      ground (arith, In-of_contains (from_stored d.parent_id) seen),
      ([], d, refl, tt, (p, n, ground arith, e)),
    )
    | up p n l d' e ↦
        let pid = from_stored d.parent_id in
        let (r, q, o) =
          climb-Outcome fuel (pid ∷ seen) (chain ++ pid ∷ []) d'
            (omega (arith, length-append chain (pid ∷ [])))
            (omega (arith, length-append chain (pid ∷ []))) in
        (r, ground (arith, In-of_contains pid seen), Outcome-up seen chain d d' r p n e o)
  ]

  pub ok-climb :
      (rest : List TenantId) (fuel : ℕ) (seen chain : List TenantId) (d : Descriptor)
      → Above s d rest
      → NoRepeat seen rest
      → length chain + length rest ≤ 32
      → length rest < fuel
      → climb fuel s seen chain d ≡ some (ok (chain ++ rest))
  unfolding climb
  ok-climb rest zero seen chain d a n b f = absurd (omega arith)
  ok-climb [] (suc fuel) seen chain d a n b f = ground (arith, append-nil chain)
  ok-climb (p ∷ rest) (suc fuel) seen chain d a n b f =
      let d' = a.2.0 in
      let ih =
        ok-climb rest fuel (p ∷ seen) (chain ++ p ∷ []) d' a.2.2 n.1
          (omega (arith, length-append chain (p ∷ []))) (omega arith) in
      ground (arith, ih, In-of_contains p seen, append_assoc chain (p ∷ []) rest)
