-- ===== src/Scim/Nesting/Verdict.antt =====
-- What `DetectCycle` promises (scim/nesting.go).
use tamper.Prelude.{
  ℕ, zero, suc, ◌+◌, ◌≤◌, String, String_eq, ◌≟◌, ◌≡◌, ◌≢◌, refl, sym, subst, ◌⊎◌, inl, inr, some,
  List, [], ◌∷◌, In, length, Result, ok, err, Result-cases, arith,
}
use tamper.Prelude.Counting.{length-Distinct}
use tamper.Scim.Nesting.{
  Error, group_required, cyclic_group, list_parents, GroupMemberQueries, visit, search,
  detect_cycle,
}
use tamper.Scim.Nesting.Ancestry.{
  contains_member, contains_ancestor, IsAbove, IsAcyclic, above_parent, insert_row,
  insert_row-IsAcyclic,
}
use tamper.Scim.Nesting.Search.{
  visit_err, visit-Distinct, IsSearch, IsSearch-start, IsSearch-round, seen_above,
}

-- The groups of the table: every parent that the store lists is one of them.
abbrev pub IsTable : GroupMemberQueries → List String → Type 0
IsTable q groups = (b a : String) (ps : List String) → q b ≡ ok ps → In a ps → In a groups

-- What each answer says of the table.
abbrev pub Verdict : GroupMemberQueries → String → String → Result Error (Unit {0}) → Type 0
Verdict q parent candidate (ok u) = ¬ IsAbove q candidate parent
Verdict q parent candidate (err cyclic_group) = IsAbove q candidate parent
Verdict q parent candidate (err (list_parents x)) =
    (n : String) × IsAbove q n parent × (q n ≡ err x)
Verdict q parent candidate (err group_required) = (parent ≡ "") ⊎ (candidate ≡ "")

module _ (q : GroupMemberQueries) (candidate parent : String) (groups : List String)
    (table : IsTable q groups) (member : In parent groups) (other : parent ≢ candidate) where
  in_table : (a : String) → IsAbove q a parent → In a groups
  in_table a (inl e) = subst (λ x. In x groups) (sym e) member
  in_table a (inr (contains_member {ps = ps} read i)) = table parent a ps read i
  in_table a (inr (contains_ancestor {c = c} {ps = ps} v read i)) = table c a ps read i

  fits :
      (visited queue : List String)
      → IsSearch q candidate parent visited queue
      → length visited ≤ length groups
  fits visited queue inv =
      length-Distinct visited groups inv.distinct (λ a i. in_table a (inv.above a i))

  search_round :
      (fuel : ℕ) (visited queue parents : List String) (next : String)
      {out : List String × List String} {r : Result Error (Unit {0})}
      → q next ≡ ok parents
      → visit candidate visited queue parents ≡ ok out
      → search fuel q candidate out.0 out.1 ≡ some r
      → search (suc fuel) q candidate visited (next ∷ queue) ≡ some r
  unfolding search
  search_round fuel visited queue parents next {out} {r} read went e =
      rw (read, search, went, search) e

  search-Verdict :
      (fuel : ℕ) (visited queue : List String)
      → IsSearch q candidate parent visited queue
      → length groups + length queue ≤ fuel + length visited
      → (r : Result Error (Unit {0})) × (search fuel q candidate visited queue ≡ some r)
        × Verdict q parent candidate r
  unfolding search
  search-Verdict fuel visited [] inv enough = (
    ok tt,
    refl,
    λ w. elim w [
      | inl e ↦ other (sym e)
      | inr v ↦ (seen_above q candidate parent visited candidate inv v).1 refl
    ],
  )
  search-Verdict zero visited (next ∷ queue) inv enough =
      absurd (omega (arith, fits visited (next ∷ queue) inv))
  search-Verdict (suc fuel) visited (next ∷ queue) inv enough = elim (Result-cases (q next)) [
    | inr (x, failed) ↦ (
      err (list_parents x),
      rw (failed, search) refl,
      (next, inv.above next (inv.queued next (inl refl)), failed),
    )
    | inl (parents, read) ↦ elim (Result-cases (visit candidate visited queue parents)) [
      | inr (x, stopped) ↦
          let (is_cyclic, i) = visit_err candidate visited queue parents {x = x} stopped in
          (
            err cyclic_group,
            rw (read, search, stopped, is_cyclic, search) refl,
            inr (
                above_parent q candidate parent next (inv.above next (inv.queued next (inl refl)))
                  read i),
          )
      | inl (out, went) ↦
          let counted =
            (visit-Distinct candidate visited queue parents {out = out} went inv.distinct).1 in
          let (r, e, v) =
            search-Verdict fuel out.0 out.1
              (IsSearch-round q candidate parent visited queue parents next {out = out} inv read
                went)
              (omega (arith, enough, counted)) in
          (r, search_round fuel visited queue parents next {out = out} {r = r} read went e, v)
    ]
  ]

-- Whatever the table, and with fuel for its groups, the check of a new member gives an answer, and
-- the answer is right: it passes only if the candidate is neither the group itself nor contains
-- it, directly or through other groups; a cycle is reported only if it is the group or contains
-- it; else the answer is the store's error for the group or one above it, or that an argument was
-- left out. The group is one of the table.
pub detect_cycle-Verdict :
    (q : GroupMemberQueries) (groups : List String) (parent candidate : String) (fuel : ℕ)
    → IsTable q groups
    → In parent groups
    → length groups ≤ fuel
    → (r : Result Error (Unit {0})) × (detect_cycle fuel q parent candidate ≡ some r)
      × Verdict q parent candidate r
unfolding detect_cycle
detect_cycle-Verdict q groups parent candidate fuel table member enough = elim (parent ≟ "") [
  | yes p ↦ (err group_required, ground arith, inl p)
  | no p ↦ elim (candidate ≟ "") [
    | yes c ↦ (err group_required, ground arith, inr c)
    | no c ↦ elim (parent ≟ candidate) [
      | yes e ↦ (err cyclic_group, ground arith, inl (sym e))
      | no n ↦
          let (r, found, v) =
            search-Verdict q candidate parent groups table member n fuel (parent ∷ []) (parent ∷ [])
              (IsSearch-start q candidate parent) (omega arith) in
          (r, ground (arith, found), v)
    ]
  ]
]

-- A member that the check lets in keeps the groups free of cycles: where no group contains
-- itself, none does after the new row.
pub detect_cycle-IsAcyclic :
    (q : GroupMemberQueries) (groups : List String) (parent candidate : String) (fuel : ℕ)
    → IsTable q groups
    → In parent groups
    → length groups ≤ fuel
    → IsAcyclic q
    → detect_cycle fuel q parent candidate ≡ some (ok tt)
    → IsAcyclic (insert_row parent candidate q)
detect_cycle-IsAcyclic q groups parent candidate fuel table member enough acyclic passed =
    let (r, e, v) = detect_cycle-Verdict q groups parent candidate fuel table member enough in
    let same : r ≡ ok tt = ground arith in
    insert_row-IsAcyclic q parent candidate acyclic (subst (Verdict q parent candidate) same v)
