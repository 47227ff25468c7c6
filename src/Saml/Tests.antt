-- ===== src/Saml/Tests.antt =====
-- An assertion that an identity provider sent on its own, and one that answers a request.
use native.Mathlib.Decide.{ℕ_discrete}
use tamper.Prelude.{
  ℕ, ◌+◌, ◌≤◌, String, String-dec, ◌≡◌, ◌≢◌, refl, ◌⊎◌, ◌↔◌, true, false, none, some, List, [], ◌∷◌,
  All, length, is_empty, ok, err, arith,
}
use tamper.Prelude.Dict.{lookup, insert}
use tamper.Saml.Ledger.{sweep, consume_assertion}
use tamper.Saml.Ledger.SingleUse.{Call, answers, promised, answers-promised}
use tamper.Saml.Replay.{
  uncorrelated, assertion_replayed, idp_initiated_disabled, Assertion, confirmations, answered,
  Provider, agreed, common_answer, signed_in_response_to, correlate, trim_left, trim_right,
  trim_space, assertion_replay_key, replay_expiry, accept,
}
use tamper.Saml.Replay.Correlates.{correlate-All}
use tamper.Saml.Replay.Once.{Presentation, present, accept_once, replay_expiry-bounds}

program : Unit {0}
unfolding ℕ_discrete String-dec lookup insert sweep consume_assertion answers agreed common_answer
    signed_in_response_to correlate trim_left trim_right trim_space assertion_replay_key
    replay_expiry accept present
program = tt

abbrev unasked : Assertion
unasked = record {
  id = " a1";
  issuer = "https://idp";
  issue_instant = 100;
  subject = some (none ∷ []);
}

abbrev asked : Assertion
asked = record unasked { subject = some (some "r1" ∷ []) }

-- The digest is of no matter here, so it is the text itself.
abbrev provider : Provider
provider = record {
  id = "okta";
  allow_idp_initiated = true;
  digest = λ s. s;
  windows = record { max_issue_delay = 90; max_clock_skew = 180 };
}

verdicts :
    (correlate (some asked) "r1" false ≡ ok tt)
    × (correlate (some asked) "" true ≡ err uncorrelated)
    × (correlate (some unasked) "" true ≡ ok tt)
    × (correlate (some unasked) "" false ≡ err idp_initiated_disabled)
    × (correlate (some unasked) "r1" true ≡ err uncorrelated)
unfolding program
verdicts = (refl, refl, refl, refl, refl)

correlate-All_example : (correlate (some asked) "r1" false ≡ ok tt) ↔ (
    (is_empty (confirmations asked.subject) ≡ false)
    × All (λ c. answered c ≡ "r1") (confirmations asked.subject)
    × ((◌≢◌ {A = String} "r1" "") ⊎ (false ≡ true)))
correlate-All_example = correlate-All asked "r1" false

abbrev call : ℕ → ℕ → Call
call now expires_at = record { key = "k"; expires_at = expires_at; now = now }

abbrev calls : List Call
calls = call 10 20 ∷ call 15 40 ∷ call 20 30 ∷ []

answers-promised_example : answers [] calls ≡ promised (λ k. 0) calls
answers-promised_example = answers-promised 5 calls (omega arith, (omega arith, (omega arith, tt)))

outcomes : answers [] calls ≡ true ∷ false ∷ true ∷ []
unfolding program
outcomes = refl

-- Another provider, with the same ledger.
abbrev other_provider : Provider
other_provider = record provider { id = "entra" }

-- In between, another provider takes another assertion, and then this very one under its own key.
abbrev between : List Presentation
between =
    record {
      provider = other_provider;
      assertion = some (record unasked { id = "a2" });
      expected = "";
      now = 150;
    }
    ∷ record { provider = other_provider; assertion = some unasked; expected = ""; now = 160 }
    ∷ []

-- All three were let in.
rows : length (present between (accept provider (some unasked) "" 110 []).1) ≡ 3
unfolding program
rows = refl

-- It answers no request, so the second flow refuses it as replayed.
accept_once_example :
    (accept provider
      (some unasked)
      ""
      200
      (present between (accept provider (some unasked) "" 110 []).1)).0
    ≡ err assertion_replayed
unfolding program
accept_once_example =
    accept_once provider (some unasked) "" "" 110 200 between [] tt refl (omega arith)
      (omega arith, (omega arith, tt)) (omega arith)

replay_expiry-bounds_example :
    ((100 + 90) + 180 ≤ replay_expiry provider.windows (some unasked) 110)
    × ((110 + 90) + 180 ≤ replay_expiry provider.windows (some unasked) 110)
    × ((replay_expiry provider.windows (some unasked) 110 ≡ (100 + 90) + 180)
        ⊎ (replay_expiry provider.windows (some unasked) 110 ≡ (110 + 90) + 180))
replay_expiry-bounds_example = replay_expiry-bounds provider.windows unasked 110
