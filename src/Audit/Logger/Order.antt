-- ===== src/Audit/Logger/Order.antt =====
-- The table in the order of its times: the queries read it as it stands.
use tamper.Prelude.{
  ℕ, ◌<◌, ◌≤◌, ◌≡◌, refl, sym, ◌∙◌, Bool, Option, none, some, [], ◌∷◌, ◌++◌, keep, arith,
}
use tamper.Prelude.Sorting.{sort_by, place}
use tamper.Audit.Event.{Event}
use tamper.Audit.Logger.{Table, Logger, row_before, list_events_for_verify, latest, watermark, bump}

-- Each row is later than the one before it, the first one later than t.
abbrev pub Ordered : ℕ → Table → Type 0
Ordered t [] = Unit
Ordered t (r ∷ db) = (t < r.at) × Ordered r.at db

-- The time of the last row.
abbrev pub end_of : ℕ → Table → ℕ
end_of t [] = t
end_of t (r ∷ db) = end_of r.at db

pub Ordered-weaken : (s t : ℕ) (db : Table) → s ≤ t → Ordered t db → Ordered s db
Ordered-weaken s t [] h o = tt
Ordered-weaken s t (r ∷ db) h o = (omega arith, o.1)

pub end_of-le : (t : ℕ) (db : Table) → Ordered t db → t ≤ end_of t db
end_of-le t [] o = omega arith
end_of-le t (r ∷ db) o = omega (arith, end_of-le r.at db o.1)

place-Ordered : (r : Event) (db : Table) → Ordered r.at db → place row_before r db ≡ r ∷ db
unfolding place row_before
place-Ordered r [] o = refl
place-Ordered r (s ∷ db) o = ground arith

-- The walk meets the rows in the order in which they were written.
pub list_events_for_verify-Ordered :
    (t : ℕ) (db : Table) → Ordered t db → list_events_for_verify db ≡ db
unfolding list_events_for_verify sort_by
list_events_for_verify-Ordered t [] o = refl
list_events_for_verify-Ordered t (r ∷ db) o =
    rw (list_events_for_verify-Ordered r.at db o.1) (place-Ordered r db o.1)

-- The newest row is the last one.
abbrev pub last_row : Table → Option Event
last_row [] = none
last_row (r ∷ []) = some r
last_row (r ∷ s ∷ db) = last_row (s ∷ db)

latest_row :
    (t : ℕ) (r : Event) (db : Table)
    → Ordered t (r ∷ db)
    → (s : Event) × (latest (r ∷ db) ≡ some s)
      × (last_row (r ∷ db) ≡ some s)
      × (s.at ≡ end_of t (r ∷ db))
unfolding latest row_before
latest_row t r [] o = (r, refl, refl, refl)
latest_row t r (s ∷ db) o =
    let (x, a, b, c) = latest_row r.at s db o.1 in
    (x, ground (arith, end_of-le s.at db o.1.1), b, c)

pub latest-Ordered : (t : ℕ) (db : Table) → Ordered t db → latest db ≡ last_row db
unfolding latest
latest-Ordered t [] o = refl
latest-Ordered t (r ∷ db) o = let (x, a, b, c) = latest_row t r db o in a ∙ sym b

-- A row that is logged comes after every row that is there.
pub bump-end_of :
    (l : Logger) (db : Table) (at : ℕ)
    → 0 < at
    → Ordered 0 db
    → end_of 0 db < bump (watermark l db) at
unfolding bump watermark latest
bump-end_of l [] at h o = ground arith
bump-end_of l (r ∷ db) at h o = let (x, a, b, c) = latest_row 0 r db o in ground arith

pub Ordered-append :
    (t : ℕ) (db : Table) (r : Event) → Ordered t db → end_of t db < r.at → Ordered t (db ++ r ∷ [])
Ordered-append t [] r o h = (h, tt)
Ordered-append t (s ∷ db) r o h = (o.0, Ordered-append s.at db r o.1 h)

-- Taking out the rows before a time leaves the last ones.
pub Ordered-keep : (p : Event → Bool) (t : ℕ) (db : Table) → Ordered t db → Ordered t (keep p db)
unfolding keep
Ordered-keep p t [] o = tt
Ordered-keep p t (r ∷ db) o =
    ground (arith, Ordered-keep p r.at db o.1, Ordered-weaken t r.at (keep p db))
