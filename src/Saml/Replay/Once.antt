-- ===== src/Saml/Replay/Once.antt =====
-- An assertion is accepted once (saml/parse.go, saml/replay.go, saml/memstore.go).
use tamper.Prelude.{
  ℕ, ◌+◌, ◌≤◌, ◌<◌, String, String_eq, true, ◌≡◌, refl, sym, subst, ◌⊎◌, inl, inr, Option, some,
  List, [], ◌∷◌, All, ok, err, ◌>>=◌, Result-cases, arith,
}
use tamper.Prelude.Dict.{lookup, UniqueKeys}
use tamper.Saml.Ledger.{Ledger, is_live, consume_assertion}
use tamper.Saml.Ledger.SingleUse.{
  consume_assertion-fresh, consume_assertion-live, consume_assertion-UniqueKeys,
}
use tamper.Saml.Replay.{
  assertion_replayed, Assertion, Windows, correlate, assertion_replay_key, replay_expiry, Provider,
  accept,
}

-- A presentation of an assertion to a provider, with the request that the flow issued and the time.
pub record Presentation : Type 0 where
  pub provider : Provider
  pub assertion : Option Assertion
  pub expected : String
  pub now : ℕ

-- The ledger that the providers share, after a sequence of presentations to them.
unfoldable pub present : List Presentation → Ledger → Ledger
present [] seen = seen
present (x ∷ xs) seen = present xs (accept x.provider x.assertion x.expected x.now seen).1

-- The key has a row that is live up to the time.
abbrev IsTaken : String → ℕ → Ledger → Type 0
IsTaken key until seen = UniqueKeys seen × (is_live until (lookup key seen) ≡ true)

consume_assertion-IsTaken :
    (key other : String) (until expires_at now : ℕ) (seen : Ledger)
    → now ≤ until
    → IsTaken key until seen
    → IsTaken key until (consume_assertion other expires_at now seen).1
consume_assertion-IsTaken key other until expires_at now seen le (u, live) = (
  consume_assertion-UniqueKeys other expires_at now seen u,
  ground (arith, consume_assertion-live other expires_at now seen u key until le),
)

-- What one presentation does to the ledger, if anything.
accept-ledger :
    (p : Provider) (a : Option Assertion) (expected : String) (now : ℕ) (seen : Ledger)
    → ((accept p a expected now seen).1 ≡ seen)
      ⊎ ((key : String) × ((accept p a expected now seen).1
            ≡ (consume_assertion key (replay_expiry p.windows a now) now seen).1))
unfolding accept
accept-ledger p a expected now seen =
    elim (Result-cases (correlate a expected p.allow_idp_initiated)) [
      | inr (e, h) ↦ inl (rw (h, accept) refl)
      | inl (v, h) ↦ elim (Result-cases (assertion_replay_key p.digest p.id a)) [
        | inr (e, k) ↦ inl (rw (h, accept, k) refl)
        | inl (key, k) ↦ inr (key, rw (h, accept, k) refl)
      ]
    ]

accept-IsTaken :
    (x : Presentation) (key : String) (until : ℕ) (seen : Ledger)
    → x.now ≤ until
    → IsTaken key until seen
    → IsTaken key until (accept x.provider x.assertion x.expected x.now seen).1
accept-IsTaken x key until seen le taken =
    elim (accept-ledger x.provider x.assertion x.expected x.now seen) [
      | inl e ↦ subst (IsTaken key until) (sym e) taken
      | inr (other, e) ↦ subst (IsTaken key until) (sym e) (
          consume_assertion-IsTaken key other until
            (replay_expiry x.provider.windows x.assertion x.now) x.now seen le taken)
    ]

present-IsTaken :
    (xs : List Presentation) (key : String) (until : ℕ) (seen : Ledger)
    → All (λ x. x.now ≤ until) xs
    → IsTaken key until seen
    → IsTaken key until (present xs seen)
unfolding present
present-IsTaken [] key until seen a taken = taken
present-IsTaken (x ∷ xs) key until seen a taken =
    present-IsTaken xs key until _ a.1 (accept-IsTaken x key until seen a.0 taken)

-- What an acceptance leaves in the ledger.
accept_takes :
    (p : Provider) (a : Option Assertion) (expected : String) (now until : ℕ) (seen : Ledger)
    → UniqueKeys seen
    → (accept p a expected now seen).0 ≡ ok tt
    → now ≤ until
    → until < replay_expiry p.windows a now
    → (key : String) × (assertion_replay_key p.digest p.id a ≡ ok key)
      × IsTaken key until (accept p a expected now seen).1
unfolding accept
accept_takes p a expected now until seen u accepted le window =
    elim (Result-cases (correlate a expected p.allow_idp_initiated)) [
      | inr (e, h) ↦ let no_way = rw (h, accept) at accepted in absurd (ground arith)
      | inl (v, h) ↦ elim (Result-cases (assertion_replay_key p.digest p.id a)) [
        | inr (e, k) ↦ let no_way = rw (h, accept, k, accept) at accepted in absurd (ground arith)
        | inl (key, k) ↦
            let exp = replay_expiry p.windows a now in
            let passed = rw (h, accept, k, accept) at accepted in
            let after : (accept p a expected now seen).1 ≡ (consume_assertion key exp now seen).1 =
              rw (h, accept, k, accept) refl in
            (
              key,
              k,
              subst (IsTaken key until) (sym after) (
                consume_assertion-UniqueKeys key exp now seen u,
                ground (
                  arith,
                  consume_assertion-live key exp now seen u key until le,
                  consume_assertion-fresh key exp now seen u,
                ),
              ),
            )
      ]
    ]

-- An assertion whose key is taken is not accepted.
accept_taken :
    (p : Provider) (a : Option Assertion) (expected : String) (now : ℕ) (seen : Ledger)
    (key : String)
    → assertion_replay_key p.digest p.id a ≡ ok key
    → IsTaken key now seen
    → (accept p a expected now seen).0
      ≡ (correlate a expected p.allow_idp_initiated >>= λ _. err assertion_replayed)
unfolding accept
accept_taken p a expected now seen key k (u, live) =
    let spent = consume_assertion-fresh key (replay_expiry p.windows a now) now seen u in
    elim (Result-cases (correlate a expected p.allow_idp_initiated)) [
      | inr (e, h) ↦ rw (h, accept) refl
      | inl (v, h) ↦ rw (h, accept, k, accept) (rw (spent, live) refl)
    ]

-- An assertion that a provider accepted is not accepted again by it at a later time before its row
-- expires, whatever request the second flow issued and whatever was presented in between, to any
-- provider with the same ledger, at clocks that are not past the second presentation: where the
-- assertion answers the second flow, the answer is that it was replayed. The ledger has each key
-- once.
pub accept_once :
    (p : Provider) (a : Option Assertion) (first second : String) (now later : ℕ)
    (xs : List Presentation) (seen : Ledger)
    → UniqueKeys seen
    → (accept p a first now seen).0 ≡ ok tt
    → now ≤ later
    → All (λ x. x.now ≤ later) xs
    → later < replay_expiry p.windows a now
    → (accept p a second later (present xs (accept p a first now seen).1)).0
      ≡ (correlate a second p.allow_idp_initiated >>= λ _. err assertion_replayed)
accept_once p a first second now later xs seen u accepted le between window =
    let (key, k, taken) = accept_takes p a first now later seen u accepted le window in
    accept_taken p a second later _ key k
      (present-IsTaken xs key later (accept p a first now seen).1 between taken)

-- The row of an assertion outlives every instant at which the library still takes it, which is up
-- to its own instant, the delay of issue and the skew of clocks; it lives at least that long from
-- now on too, and no longer than the later of the two, so the floor never decides.
pub replay_expiry-bounds :
    (w : Windows) (a : Assertion) (now : ℕ)
    → ((a.issue_instant + w.max_issue_delay) + w.max_clock_skew ≤ replay_expiry w (some a) now)
      × ((now + w.max_issue_delay) + w.max_clock_skew ≤ replay_expiry w (some a) now)
      × ((replay_expiry w (some a) now ≡ (a.issue_instant + w.max_issue_delay) + w.max_clock_skew)
          ⊎ (replay_expiry w (some a) now ≡ (now + w.max_issue_delay) + w.max_clock_skew))
unfolding replay_expiry
replay_expiry-bounds w a now = ground arith
