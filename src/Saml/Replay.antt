-- ===== src/Saml/Replay.antt =====
-- saml/replay.go, and the end of `ParseAssertion` (saml/parse.go): an assertion that the SAML
-- library has validated is accepted if it answers this flow and was not presented before. The
-- library, its two windows of time and the digest are parameters; a time is a number of
-- nanoseconds. An assertion is what the code reads of the library's type, `none` being nil.
pub mod Correlates
pub mod Once
use Prim.Native.Char.{code}
use Prim.Native.String.{◌++◌}
use tamper.Prelude.{
  ℕ, ◌+◌, String, String_eq, ℕ_eq, Bool, not, ◌&&◌, ◌||◌, ◌==◌, Option, none, some, List, [], ◌∷◌,
  if◌then◌else◌, is_empty, leb, ltb, Result, ok, err, ◌>>=◌, ◌>>◌, fail_if,
}
use tamper.Saml.Ledger.{Ledger, consume_assertion}

pub data Error : Type 0 where
  uncorrelated idp_initiated_disabled no_subject_confirmation : Error
  assertion_invalid assertion_replayed : Error

-- A subject confirmation: the `InResponseTo` of its data, if it has data.
abbrev pub Confirmation : Type 0
Confirmation = Option String

pub record Assertion : Type 0 where
  pub id : String
  pub issuer : String
  pub issue_instant : ℕ
  pub subject : Option (List Confirmation)

-- The confirmations of the subject, none where the subject is nil.
abbrev pub confirmations : Option (List Confirmation) → List Confirmation
confirmations none = []
confirmations (some cs) = cs

-- `v`, the empty text where there is no data.
abbrev pub answered : Confirmation → String
answered none = ""
answered (some v) = v

-- The loop after its first round.
unfoldable pub agreed : String → List Confirmation → Result Error String
agreed seen [] = ok seen
agreed seen (c ∷ cs) =
    let rest = agreed seen cs in if not (answered c == seen) then err uncorrelated else rest

-- The loop, with the check before it.
unfoldable pub common_answer : List Confirmation → Result Error String
unfolding agreed
common_answer [] = err no_subject_confirmation
common_answer (c ∷ cs) = agreed (answered c) cs

unfoldable pub signed_in_response_to : Option Assertion → Result Error String
unfolding common_answer
signed_in_response_to none = err no_subject_confirmation
signed_in_response_to (some a) = common_answer (confirmations a.subject)

-- The decision that binds an assertion to the flow.
unfoldable pub correlate : Option Assertion → String → Bool → Result Error (Unit {0})
unfolding signed_in_response_to
correlate a expected allow_idp_initiated = signed_in_response_to a >>= λ got.
    if not (expected == "") && got == expected
    then ok tt
    else if not (expected == "")
    then err uncorrelated
    else if not (got == "")
    then err uncorrelated
    else if allow_idp_initiated
    then ok tt
    else err idp_initiated_disabled

-- White space of Unicode, as `strings.TrimSpace` takes it.
abbrev pub is_white : ℕ → Bool
is_white c =
    (leb 9 c && leb c 13)
    || c == 32
    || c == 133
    || c == 160
    || c == 5760
    || (leb 8192 c && leb c 8202)
    || c == 8232
    || c == 8233
    || c == 8239
    || c == 8287
    || c == 12288

unfoldable pub trim_left : String → String
trim_left String.[] = ""
trim_left (String.◌∷◌ c s) =
    let rest = trim_left s in if is_white (code c) then rest else String.◌∷◌ c s

unfoldable pub trim_right : String → String
trim_right String.[] = ""
trim_right (String.◌∷◌ c s) =
    let rest = trim_right s in if rest == "" && is_white (code c) then "" else String.◌∷◌ c rest

unfoldable pub trim_space : String → String
unfolding trim_left trim_right
trim_space s = trim_right (trim_left s)

-- `digest` is the hexadecimal SHA-256 of the bytes that were written.
unfoldable pub assertion_replay_key :
    (String → String) → String → Option Assertion → Result Error String
unfolding trim_space
assertion_replay_key digest provider_id none = err assertion_invalid
assertion_replay_key digest provider_id (some a) =
    let id = trim_space a.id in
    if id == ""
    then err assertion_invalid
    else ok (digest (provider_id ++ ("\0" ++ (trim_space a.issuer ++ ("\0" ++ id)))))

-- The library's `MaxIssueDelay` and `MaxClockSkew`.
pub record Windows : Type 0 where
  pub max_issue_delay : ℕ
  pub max_clock_skew : ℕ

-- `base`: the later of now and the assertion's own instant.
abbrev pub base_time : Option Assertion → ℕ → ℕ
base_time none now = now
base_time (some x) now = if ltb now x.issue_instant then x.issue_instant else now

unfoldable pub replay_expiry : Windows → Option Assertion → ℕ → ℕ
replay_expiry w a now =
    let exp = (base_time a now + w.max_issue_delay) + w.max_clock_skew in
    let floor = now + w.max_clock_skew in if ltb exp floor then floor else exp

-- What a provider is configured with, and what its process uses.
pub record Provider : Type 0 where
  pub id : String
  pub allow_idp_initiated : Bool
  pub digest : String → String
  pub windows : Windows

-- `ParseAssertion` from the library's answer on, over the in-memory ledger: whether the assertion
-- was accepted, and the ledger after it.
unfoldable pub accept :
    Provider → Option Assertion → String → ℕ → Ledger → Result Error (Unit {0}) × Ledger
unfolding correlate assertion_replay_key replay_expiry
accept p a expected now seen = elim (correlate a expected p.allow_idp_initiated) [
  | err e ↦ (err e, seen)
  | ok u ↦ elim (assertion_replay_key p.digest p.id a) [
    | err e ↦ (err e, seen)
    | ok key ↦
        let r = consume_assertion key (replay_expiry p.windows a now) now seen in
        (if not r.0 then err assertion_replayed else ok tt, r.1)
  ]
]
