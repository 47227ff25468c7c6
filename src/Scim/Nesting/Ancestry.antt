-- ===== src/Scim/Nesting/Ancestry.antt =====
-- The graph of groups within groups, and what one more edge does to it (scim/nesting.go).
use tamper.Prelude.{
  String, String_eq, ◌==◌, ◌≟◌, ◌≡◌, sym, ap, ◌∙◌, subst, ◌⊎◌, inl, inr, List, ◌∷◌, In,
  if◌then◌else◌, ok, err, Result-cases, arith,
}
use tamper.Scim.Nesting.{GroupMemberQueries}

-- `a` contains `b`, directly or through other groups.
pub data Ancestor (q : GroupMemberQueries) : String → String → Type 0 where
  contains_member : {a b : String} {ps : List String} → q b ≡ ok ps → In a ps → Ancestor q a b
  contains_ancestor :
      {a b c : String} {ps : List String} → Ancestor q c b → q c ≡ ok ps → In a ps → Ancestor q a b

-- `a` is the group itself or contains it.
abbrev pub IsAbove : GroupMemberQueries → String → String → Type 0
IsAbove q a b = (a ≡ b) ⊎ Ancestor q a b

-- No group contains itself.
abbrev pub IsAcyclic : GroupMemberQueries → Type 0
IsAcyclic q = (a : String) → ¬ Ancestor q a a

-- The parents of a group above `b` are ancestors of `b`.
pub above_parent :
    (q : GroupMemberQueries) (a b c : String) {ps : List String}
    → IsAbove q c b
    → q c ≡ ok ps
    → In a ps
    → Ancestor q a b
above_parent q a b c (inl e) read i = contains_member (ap q (sym e) ∙ read) i
above_parent q a b c (inr w) read i = contains_ancestor w read i

Ancestor-trans :
    (q : GroupMemberQueries) (a b c : String) → Ancestor q a b → Ancestor q b c → Ancestor q a c
Ancestor-trans q a b c (contains_member read i) w = contains_ancestor w read i
Ancestor-trans q a b c (contains_ancestor {c = d} v read i) w =
    contains_ancestor (Ancestor-trans q d b c v w) read i

-- The table after the row (parent, candidate) was inserted.
unfoldable pub insert_row : String → String → GroupMemberQueries → GroupMemberQueries
insert_row parent candidate q b = elim (q b) [
  | err e ↦ err e
  | ok ps ↦ ok (if b == candidate then parent ∷ ps else ps)
]

insert_row-cases :
    (q : GroupMemberQueries) (parent candidate a b : String) {ps : List String}
    → insert_row parent candidate q b ≡ ok ps
    → In a ps
    → ((old : List String) × (q b ≡ ok old) × In a old) ⊎ ((a ≡ parent) × (b ≡ candidate))
unfolding insert_row
insert_row-cases q parent candidate a b {ps} h i = elim (Result-cases (q b)) [
  | inl (old, read) ↦ elim (b ≟ candidate) [
    | yes e ↦
        let same : parent ∷ old ≡ ps = ground arith in
        elim (subst (In a) (sym same) i) [ inl p ↦ inr (p, e) | inr j ↦ inl (old, read, j) ]
    | no n ↦ let same : old ≡ ps = ground arith in inl (old, read, subst (In a) (sym same) i)
  ]
  | inr (e, failed) ↦ absurd (ground arith)
]

-- An ancestry in the larger table was one before, or goes through the new edge.
through_row :
    (q : GroupMemberQueries) (parent candidate a b : String)
    → Ancestor (insert_row parent candidate q) a b
    → Ancestor q a b ⊎ (IsAbove q a parent × IsAbove q candidate b)
through_row q parent candidate a b (contains_member read i) =
    elim (insert_row-cases q parent candidate a b read i) [
      | inl (old, r, j) ↦ inl (contains_member r j)
      | inr (p, e) ↦ inr (inl p, inl (sym e))
    ]
through_row q parent candidate a b (contains_ancestor {c = c} v read i) =
    elim (insert_row-cases q parent candidate a c read i) [
      | inl (old, r, j) ↦ elim (through_row q parent candidate c b v) [
        | inl w ↦ inl (contains_ancestor w r j)
        | inr (up, down) ↦ inr (inr (above_parent q a parent c up r j), down)
      ]
      | inr (p, e) ↦ elim (through_row q parent candidate c b v) [
        | inl w ↦ inr (inl p, inr (subst (λ x. Ancestor q x b) e w))
        | inr (up, down) ↦ inr (inl p, down)
      ]
    ]

-- A new edge keeps the graph free of cycles if its lower end is not above its upper end.
pub insert_row-IsAcyclic :
    (q : GroupMemberQueries) (parent candidate : String)
    → IsAcyclic q
    → ¬ IsAbove q candidate parent
    → IsAcyclic (insert_row parent candidate q)
insert_row-IsAcyclic q parent candidate acyclic n a w =
    elim (through_row q parent candidate a a w) [
      | inl v ↦ acyclic a v
      | inr (up, down) ↦ elim up [
        | inl p ↦ n (subst (IsAbove q candidate) p down)
        | inr u ↦ elim down [
          | inl e ↦ n (inr (subst (λ x. Ancestor q x parent) (sym e) u))
          | inr d ↦ n (inr (Ancestor-trans q candidate a parent d u))
        ]
      ]
    ]
