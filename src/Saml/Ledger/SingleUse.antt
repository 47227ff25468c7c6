-- ===== src/Saml/Ledger/SingleUse.antt =====
-- The sweep does not show: a key is fresh exactly if it was not taken before or its time is over
-- (saml/memstore.go).
use tamper.Prelude.{
  ℕ, ◌≤◌, String, String_eq, Bool, not, ◌&&◌, ◌==◌, ◌≡◌, refl, none, List, [], ◌∷◌, if◌then◌else◌,
  ltb, leb, arith,
}
use tamper.Prelude.Dict.{lookup, lookup-insert, Fresh, UniqueKeys, UniqueKeys-insert, lookup-Fresh}
use tamper.Saml.Ledger.{Ledger, sweep, is_live, consume_assertion}

Fresh-sweep : (now : ℕ) (k : String) (seen : Ledger) → Fresh k seen → Fresh k (sweep now seen)
unfolding sweep
Fresh-sweep now k [] f = tt
Fresh-sweep now k ((j, exp) ∷ seen) f = ground (arith, Fresh-sweep now k seen f.1)

UniqueKeys-sweep : (now : ℕ) (seen : Ledger) → UniqueKeys seen → UniqueKeys (sweep now seen)
unfolding sweep
UniqueKeys-sweep now [] u = tt
UniqueKeys-sweep now ((j, exp) ∷ seen) u =
    ground (arith, UniqueKeys-sweep now seen u.1, Fresh-sweep now j seen u.0)

-- A row that is not over stays, and one that is over is gone.
lookup-sweep :
    (now : ℕ) (k : String) (seen : Ledger)
    → UniqueKeys seen
    → lookup k (sweep now seen) ≡ (if is_live now (lookup k seen) then lookup k seen else none)
unfolding sweep lookup
lookup-sweep now k [] u = ground arith
lookup-sweep now k ((j, exp) ∷ seen) u =
    ground (arith, lookup-sweep now k seen u.1, lookup-Fresh k seen)

-- What one call does, whatever it swept: the key is fresh if it has no live row; and at any later
-- time the live rows are those of before, with that of a fresh key.
module _ (key : String) (expires_at now : ℕ) (seen : Ledger) (u : UniqueKeys seen) where
  pub consume_assertion-fresh :
      (consume_assertion key expires_at now seen).0 ≡ not (is_live now (lookup key seen))
  unfolding consume_assertion
  consume_assertion-fresh = ground (arith, lookup-sweep now key seen u)

  pub consume_assertion-live :
      (k : String) (later : ℕ)
      → now ≤ later
      → is_live later (lookup k (consume_assertion key expires_at now seen).1) ≡ (
          if not (is_live now (lookup key seen)) && k == key
          then ltb later expires_at
          else is_live later (lookup k seen))
  unfolding consume_assertion
  consume_assertion-live k later le = ground (
    arith,
    lookup-sweep now key seen u,
    lookup-sweep now k seen u,
    lookup-insert key k expires_at (sweep now seen),
  )

  pub consume_assertion-UniqueKeys : UniqueKeys (consume_assertion key expires_at now seen).1
  unfolding consume_assertion
  consume_assertion-UniqueKeys =
      ground (arith, UniqueKeys-sweep now seen u, UniqueKeys-insert key expires_at (sweep now seen))

-- A call, with the time at which the clock is read.
pub record Call : Type 0 where
  pub key : String
  pub expires_at : ℕ
  pub now : ℕ

-- The answers of a ledger to a sequence of calls.
unfoldable pub answers : Ledger → List Call → List Bool
answers seen [] = []
answers seen (c ∷ cs) =
    let r = consume_assertion c.key c.expires_at c.now seen in r.0 ∷ answers r.1 cs

-- The promise: until when each key is taken. A key that is not taken any more is fresh, and is
-- taken by the call; nothing else changes.
abbrev pub promised : (String → ℕ) → List Call → List Bool
promised taken [] = []
promised taken (c ∷ cs) =
    leb (taken c.key) c.now
    ∷ promised (λ k. if leb (taken c.key) c.now && k == c.key then c.expires_at else taken k) cs

-- The clock does not go back.
abbrev pub IsClocked : ℕ → List Call → Type 0
IsClocked t [] = Unit
IsClocked t (c ∷ cs) = (t ≤ c.now) × IsClocked c.now cs

-- From the time `t` on, the live rows are the keys that are taken.
abbrev Agrees : ℕ → Ledger → (String → ℕ) → Type 0
Agrees t seen taken =
    (k : String) (later : ℕ) → t ≤ later → is_live later (lookup k seen) ≡ ltb later (taken k)

-- The keys that are taken after a call.
abbrev after : Call → (String → ℕ) → String → ℕ
after c taken j = if leb (taken c.key) c.now && j == c.key then c.expires_at else taken j

Agrees-after :
    (t : ℕ) (seen : Ledger) (taken : String → ℕ) (c : Call)
    → UniqueKeys seen
    → Agrees t seen taken
    → t ≤ c.now
    → Agrees c.now (consume_assertion c.key c.expires_at c.now seen).1 (after c taken)
Agrees-after t seen taken c u a le j later l = ground (
  arith,
  consume_assertion-live c.key c.expires_at c.now seen u j later l,
  a c.key c.now le,
  a j later (omega (arith, le, l)),
)

answers_of :
    (t : ℕ) (seen : Ledger) (taken : String → ℕ) (cs : List Call)
    → UniqueKeys seen
    → Agrees t seen taken
    → IsClocked t cs
    → answers seen cs ≡ promised taken cs
unfolding answers
answers_of t seen taken [] u a k = refl
answers_of t seen taken (c ∷ cs) u a (le, k) =
    let fresh : (consume_assertion c.key c.expires_at c.now seen).0 ≡ leb (taken c.key) c.now =
      ground (arith, consume_assertion-fresh c.key c.expires_at c.now seen u, a c.key c.now le) in
    let rest : answers (consume_assertion c.key c.expires_at c.now seen).1 cs
        ≡ promised (after c taken) cs =
      answers_of c.now (consume_assertion c.key c.expires_at c.now seen).1 (after c taken) cs
        (consume_assertion-UniqueKeys c.key c.expires_at c.now seen u)
        (Agrees-after t seen taken c u a le) k in
    cc (fresh, rest)

nothing_live : (k : String) (later : ℕ) → is_live later (lookup {V = ℕ} k []) ≡ ltb later 0
unfolding lookup
nothing_live k later = ground arith

-- On a clock that does not go back, an empty ledger answers any sequence of calls as promised: a
-- key is fresh exactly if no call took it before, or the time for which the last one took it is
-- over. The sweep of the expired rows never shows.
pub answers-promised :
    (t : ℕ) (cs : List Call) → IsClocked t cs → answers [] cs ≡ promised (λ k. 0) cs
answers-promised t cs k = answers_of t [] (λ k. 0) cs tt (λ k later l. nothing_live k later) k
