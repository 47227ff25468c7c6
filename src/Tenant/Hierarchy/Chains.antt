-- ===== src/Tenant/Hierarchy/Chains.antt =====
-- Chains of parents, and why a walk up the parents stops (tenant/hierarchy.go).
use tamper.Prelude.{
  ℕ, ◌<◌, ◌≡◌, ◌≢◌, refl, ◌⊎◌, inl, inr, ◌↔◌, List, [], ◌∷◌, In, Distinct, ok, err, arith,
}
use tamper.Tenant.Ident.{TenantId, to_string, from_stored}
use tamper.Tenant.Errors.{Error, hierarchy_cycle, hierarchy_depth, hierarchy_dangling}
use tamper.Tenant.Store.{Store, Descriptor}

-- `chain` is the parents above a tenant whose row is `d`, nearest first, up to a root.
abbrev pub Above : Store → Descriptor → List TenantId → Type 0
Above s d [] = d.parent_id ≡ ""
Above s d (b ∷ l) =
    (d.parent_id ≢ "")
    × (b ≡ from_stored d.parent_id)
    × ((d' : Descriptor) × (s.by_id (to_string b) ≡ ok d') × Above s d' l)

-- No element of the chain was seen before it.
abbrev pub NoRepeat : List TenantId → List TenantId → Type 0
NoRepeat seen [] = Unit
NoRepeat seen (b ∷ l) = (¬ In b seen) × NoRepeat (b ∷ seen) l

-- From the row `d`, the parents in `path` are read one after the other, up to the row `e`.
abbrev pub Climbs : Store → Descriptor → List TenantId → Descriptor → Type 0
Climbs s d [] e = d ≡ e
Climbs s d (b ∷ l) e =
    (d.parent_id ≢ "")
    × (b ≡ from_stored d.parent_id)
    × ((d' : Descriptor) × (s.by_id (to_string b) ≡ ok d') × Climbs s d' l e)

-- Why a walk that has read `path` and stands at the row `d` goes no further: the parent was seen
-- before, or the chain is as long as it may be, or the store does not give the parent.
abbrev pub Stuck : Store → List TenantId → Descriptor → ℕ → Error → Type 0
Stuck s seen d n hierarchy_cycle = (d.parent_id ≢ "") × In (from_stored d.parent_id) seen
Stuck s seen d n hierarchy_depth =
    (d.parent_id ≢ "") × (¬ In (from_stored d.parent_id) seen) × (n ≡ 32)
Stuck s seen d n (hierarchy_dangling x) =
    (d.parent_id ≢ "")
    × (¬ In (from_stored d.parent_id) seen)
    × (n < 32)
    × (s.by_id (to_string (from_stored d.parent_id)) ≡ err x)
Stuck s seen d n _ = ⊥

-- The chain of a walk, as the loop's variable `seen` holds it.
abbrev pub seen_after : List TenantId → List TenantId → List TenantId
seen_after seen [] = seen
seen_after seen (b ∷ l) = seen_after (b ∷ seen) l

pub NoRepeat-unseen :
    (a : TenantId) (seen l : List TenantId) → NoRepeat seen l → In a l → ¬ In a seen
NoRepeat-unseen a seen (b ∷ l) n (inl e) m = n.0 (ground arith)
NoRepeat-unseen a seen (b ∷ l) n (inr i) m = NoRepeat-unseen a (b ∷ seen) l n.1 i (inr m)
NoRepeat-unseen a seen [] n i m = i

pub Distinct-of_NoRepeat : (seen l : List TenantId) → NoRepeat seen l → Distinct l
Distinct-of_NoRepeat seen [] n = tt
Distinct-of_NoRepeat seen (b ∷ l) n =
    (λ m. NoRepeat-unseen b (b ∷ seen) l n.1 m (inl refl), Distinct-of_NoRepeat (b ∷ seen) l n.1)

pub NoRepeat-of_Distinct :
    (seen l : List TenantId)
    → Distinct l
    → ((a : TenantId) → In a l → ¬ In a seen)
    → NoRepeat seen l
NoRepeat-of_Distinct seen [] d f = tt
NoRepeat-of_Distinct seen (b ∷ l) d f = (
  f b (inl refl),
  NoRepeat-of_Distinct (b ∷ seen) l d.1 (λ a i m. ground (arith, f a (inr i), d.0)),
)

pub In-seen_after :
    (a : TenantId) (seen l : List TenantId) → In a (seen_after seen l) ↔ (In a seen ⊎ In a l)
In-seen_after a seen [] = ground arith
In-seen_after a seen (b ∷ l) = ground (arith, In-seen_after a (b ∷ seen) l)

-- Only membership counts in the list of what was seen.
pub Stuck-ext :
    (s : Store) (seen seen' : List TenantId) (d : Descriptor) (n : ℕ) (x : Error)
    → ((a : TenantId) → In a seen ↔ In a seen')
    → Stuck s seen d n x
    → Stuck s seen' d n x
Stuck-ext s seen seen' d n hierarchy_cycle f st = (st.0, (f _).0 st.1)
Stuck-ext s seen seen' d n hierarchy_depth f st = (st.0, λ m. st.1 ((f _).1 m), st.2)
Stuck-ext s seen seen' d n (hierarchy_dangling x) f st = (st.0, λ m. st.1 ((f _).1 m), st.2, st.3)
Stuck-ext s seen seen' d n _ f st = absurd st
