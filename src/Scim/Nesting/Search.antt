-- ===== src/Scim/Nesting/Search.antt =====
-- What one round of the search keeps (scim/nesting.go).
use tamper.Prelude.{
  ◌+◌, String, String_eq, ◌≡◌, refl, sym, ap, ◌∙◌, subst, ◌⊎◌, inl, inr, ◌↔◌, List, [], ◌∷◌, ◌++◌,
  In, Distinct, length, length-append, In-append_left, In-append_right, In-append_cases,
  In-of_contains, contains_of_In, ok, err, arith,
}
use tamper.Scim.Nesting.{Error, cyclic_group, GroupMemberQueries, visit}
use tamper.Scim.Nesting.Ancestry.{
  Ancestor, contains_member, contains_ancestor, IsAbove, above_parent,
}

In-snoc : (a x : String) (l : List String) → In a (l ++ x ∷ []) ↔ (In a l ⊎ (a ≡ x))
In-snoc a x l = (
  λ i. ground (arith, In-append_cases a l (x ∷ []) i),
  λ c. elim c [
    | inl i ↦ In-append_left a l (x ∷ []) i
    | inr q ↦ In-append_right a l (x ∷ []) (inl q)
  ],
)

module _ (candidate : String) where
  -- What the inner loop does to `visited` and `queue`, for one group.
  visit-In :
      (a : String) (visited queue parents : List String) {out : List String × List String}
      → visit candidate visited queue parents ≡ ok out
      → (In a out.0 ↔ (In a visited ⊎ In a parents))
        × (In a queue → In a out.1)
        × (In a out.1 → In a queue ⊎ In a parents)
        × (In a out.0 → In a visited ⊎ In a out.1)
  unfolding visit
  visit-In a visited queue [] h = ground arith
  visit-In a visited queue (p ∷ parents) {out} h = ground (
    arith,
    visit-In a visited queue parents {out = out},
    visit-In a (p ∷ visited) (queue ++ p ∷ []) parents {out = out},
    In-snoc a p queue,
    In-of_contains p visited,
  )

  -- No group is put in twice, and what is new to the one is new to the other.
  pub visit-Distinct :
      (visited queue parents : List String) {out : List String × List String}
      → visit candidate visited queue parents ≡ ok out
      → Distinct visited
      → Distinct out.0 × (length out.0 + length queue ≡ length visited + length out.1)
  unfolding visit
  visit-Distinct visited queue [] h d = ground arith
  visit-Distinct visited queue (p ∷ parents) {out} h d = ground (
    arith,
    visit-Distinct visited queue parents {out = out},
    visit-Distinct (p ∷ visited) (queue ++ p ∷ []) parents {out = out},
    length-append queue (p ∷ []),
    contains_of_In p visited,
  )

  visit_ok :
      (visited queue parents : List String) {out : List String × List String}
      → visit candidate visited queue parents ≡ ok out
      → ¬ In candidate parents
  unfolding visit
  visit_ok visited queue [] h = ground arith
  visit_ok visited queue (p ∷ parents) {out} h = ground (
    arith,
    visit_ok visited queue parents {out = out},
    visit_ok (p ∷ visited) (queue ++ p ∷ []) parents {out = out},
  )

  pub visit_err :
      (visited queue parents : List String) {x : Error}
      → visit candidate visited queue parents ≡ err x
      → (x ≡ cyclic_group) × In candidate parents
  unfolding visit
  visit_err visited queue [] h = absurd (ground arith)
  visit_err visited queue (p ∷ parents) {x} h = ground (
    arith,
    visit_err visited queue parents {x = x},
    visit_err (p ∷ visited) (queue ++ p ∷ []) parents {x = x},
  )

module _ (q : GroupMemberQueries) (candidate parent : String) where
  -- The parents of the group were read: the candidate is not one, and all were seen.
  pub record IsSettled (visited : List String) (a : String) : Type 0 where
    pub parents : List String
    pub read : q a ≡ ok parents
    pub innocent : ¬ In candidate parents
    pub seen : (p : String) → In p parents → In p visited

  -- What holds whenever the outer loop tests its queue.
  pub record IsSearch (visited queue : List String) : Type 0 where
    pub start : In parent visited
    pub above : (a : String) → In a visited → IsAbove q a parent
    pub queued : (a : String) → In a queue → In a visited
    pub handled : (a : String) → In a visited → In a queue ⊎ IsSettled visited a
    pub distinct : Distinct visited

  pub IsSearch-start : IsSearch (parent ∷ []) (parent ∷ [])
  IsSearch-start = record {
    start = inl refl;
    above = λ a i. elim i [ inl e ↦ inl e | inr n ↦ absurd n ];
    queued = λ a i. i;
    handled = λ a i. inl i;
    distinct = (λ n. n, tt);
  }

  pub IsSearch-round :
      (visited queue parents : List String) (next : String) {out : List String × List String}
      → IsSearch visited (next ∷ queue)
      → q next ≡ ok parents
      → visit candidate visited queue parents ≡ ok out
      → IsSearch out.0 out.1
  IsSearch-round visited queue parents next {out} inv read h =
      let at = λ (a : String). visit-In candidate a visited queue parents {out = out} h in
      let grown = λ (a : String) (i : In a visited). (at a).0.1 (inl i) in
      record {
        start = grown parent inv.start;
        above = λ a i. elim ((at a).0.0 i) [
          | inl j ↦ inv.above a j
          | inr j ↦
              inr
                (above_parent q a parent next (inv.above next (inv.queued next (inl refl))) read j)
        ];
        queued = λ a i. elim ((at a).2 i) [
          | inl j ↦ grown a (inv.queued a (inr j))
          | inr j ↦ (at a).0.1 (inr j)
        ];
        handled = λ a i. elim ((at a).3 i) [
          | inr j ↦ inl j
          | inl j ↦ elim (inv.handled a j) [
            | inl k ↦ elim k [
              | inl e ↦ inr (record {
                parents = parents;
                read = ap q e ∙ read;
                innocent = visit_ok candidate visited queue parents {out = out} h;
                seen = λ p m. (at p).0.1 (inr m);
              })
              | inr k' ↦ inl ((at a).1 k')
            ]
            | inr s ↦ inr (record {
              parents = s.parents;
              read = s.read;
              innocent = s.innocent;
              seen = λ p m. grown p (s.seen p m);
            })
          ]
        ];
        distinct = (visit-Distinct candidate visited queue parents {out = out} h inv.distinct).0;
      }

  seen_edge :
      (visited : List String) (a c : String) {ps : List String}
      → IsSearch visited []
      → In c visited
      → q c ≡ ok ps
      → In a ps
      → In a visited × (¬ (candidate ≡ a))
  seen_edge visited a c {ps} inv i read m = elim (inv.handled c i) [
    | inl n ↦ absurd n
    | inr s ↦
        let same : ps ≡ s.parents = cc (read, s.read) in
        let m' = subst (In a) same m in
        (s.seen a m', λ e. s.innocent (subst (λ x. In x s.parents) (sym e) m'))
  ]

  -- Once the queue is empty, everything above the group was seen, and is not the candidate.
  pub seen_above :
      (visited : List String) (a : String)
      → IsSearch visited []
      → Ancestor q a parent
      → In a visited × (¬ (candidate ≡ a))
  seen_above visited a inv (contains_member read i) =
      seen_edge visited a parent inv inv.start read i
  seen_above visited a inv (contains_ancestor {c = c} v read i) =
      seen_edge visited a c inv (seen_above visited c inv v).0 read i
