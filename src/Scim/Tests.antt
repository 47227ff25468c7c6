-- ===== src/Scim/Tests.antt =====
-- A table of four groups (scim/nesting.go): all contains staff and staff contains eng and ops.
mod Filters
use tamper.Prelude.{
  ℕ, ◌<◌, String, String-dec, String_eq, ◌==◌, ◌≡◌, refl, ap, ◌⊎◌, inl, inr, some, List, [], ◌∷◌,
  In, contains, if◌then◌else◌, Result, ok, err, arith,
}
use tamper.Scim.Nesting.{cyclic_group, GroupMemberQueries, visit, search, detect_cycle}
use tamper.Scim.Nesting.Ancestry.{
  Ancestor, contains_member, contains_ancestor, IsAcyclic, insert_row,
}
use tamper.Scim.Nesting.Verdict.{IsTable, Verdict, detect_cycle-Verdict, detect_cycle-IsAcyclic}

program : Unit {0}
unfolding String-dec contains visit search detect_cycle
program = tt

abbrev table : GroupMemberQueries
table g =
    if g == "eng"
    then ok ("staff" ∷ [])
    else if g == "ops"
    then ok ("staff" ∷ [])
    else if g == "staff"
    then ok ("all" ∷ [])
    else ok []

abbrev groups : List String
groups = "all" ∷ "staff" ∷ "eng" ∷ "ops" ∷ []

checks :
    (detect_cycle 4 table "eng" "all" ≡ some (err cyclic_group))
    × (detect_cycle 4 table "eng" "eng" ≡ some (err cyclic_group))
    × (detect_cycle 4 table "eng" "ops" ≡ some (ok tt))
unfolding program
checks = (refl, refl, refl)

table-IsTable : IsTable table groups
table-IsTable b a ps read i = ground arith

-- A containing group stands higher in the table than its members.
abbrev height : String → ℕ
height g =
    if g == "all"
    then 3
    else if g == "staff"
    then 2
    else if g == "eng"
    then 1
    else if g == "ops"
    then 1
    else 0

edge_cases :
    (a b : String) (ps : List String)
    → table b ≡ ok ps
    → In a ps
    → ((b ≡ "eng") × (a ≡ "staff"))
      ⊎ (((b ≡ "ops") × (a ≡ "staff")) ⊎ ((b ≡ "staff") × (a ≡ "all")))
edge_cases a b ps read i = ground arith

height_edge : (a b : String) (ps : List String) → table b ≡ ok ps → In a ps → height b < height a
unfolding program
height_edge a b ps read i = elim (edge_cases a b ps read i) [
  | inl (p, q) ↦
      let hb : height b ≡ 1 = ap height p in let ha : height a ≡ 2 = ap height q in omega arith
  | inr c ↦ elim c [
    | inl (p, q) ↦
        let hb : height b ≡ 1 = ap height p in let ha : height a ≡ 2 = ap height q in omega arith
    | inr (p, q) ↦
        let hb : height b ≡ 2 = ap height p in let ha : height a ≡ 3 = ap height q in omega arith
  ]
]

height-Ancestor : (a b : String) → Ancestor table a b → height b < height a
height-Ancestor a b (contains_member {ps = ps} read i) = height_edge a b ps read i
height-Ancestor a b (contains_ancestor {c = c} {ps = ps} v read i) =
    omega (arith, height-Ancestor c b v, height_edge a c ps read i)

table-IsAcyclic : IsAcyclic table
table-IsAcyclic a w = absurd (omega (arith, height-Ancestor a a w))

detect_cycle-Verdict_example :
    (r : Result _ (Unit {0})) × (detect_cycle 4 table "eng" "all" ≡ some r)
    × Verdict table "eng" "all" r
detect_cycle-Verdict_example =
    detect_cycle-Verdict table groups "eng" "all" 4 table-IsTable (inr (inr (inl refl)))
      (omega arith)

detect_cycle-IsAcyclic_example : IsAcyclic (insert_row "eng" "ops" table)
unfolding program
detect_cycle-IsAcyclic_example =
    detect_cycle-IsAcyclic table groups "eng" "ops" 4 table-IsTable (inr (inr (inl refl)))
      (omega arith) table-IsAcyclic refl
