-- ===== src/Saml/Ledger.antt =====
-- saml/memstore.go: `MemAssertionReplayStore`, the single-use ledger. A time is a number of
-- nanoseconds, `t.After(u)` is `u < t`; the mutex makes `ConsumeAssertion` one step, and the clock
-- that it reads is an argument.
pub mod SingleUse
use tamper.Prelude.{
  ℕ, String, String_eq, Bool, true, false, Option, none, some, List, [], ◌∷◌, if◌then◌else◌, ltb,
}
use tamper.Prelude.Dict.{Dict, lookup, insert}

-- `seen`: the time at which each key expires.
abbrev pub Ledger : Type 0
Ledger = Dict String ℕ

-- The sweep of the expired rows.
unfoldable pub sweep : ℕ → Ledger → Ledger
sweep now [] = []
sweep now ((k, exp) ∷ seen) =
    let rest = sweep now seen in if ltb now exp then (k, exp) ∷ rest else rest

-- `ok && exp.After(now)`.
abbrev pub is_live : ℕ → Option ℕ → Bool
is_live now none = false
is_live now (some exp) = ltb now exp

-- Whether the key is fresh, and the ledger after the call.
unfoldable pub consume_assertion : String → ℕ → ℕ → Ledger → Bool × Ledger
unfolding sweep
consume_assertion key expires_at now seen =
    let swept = sweep now seen in
    if is_live now (lookup key swept) then (false, swept) else (true, insert key expires_at swept)
