-- ===== src/Saml/Replay/Correlates.antt =====
-- Which assertions answer a flow (saml/replay.go).
use tamper.Prelude.{
  String, String_eq, Bool, true, false, ◌≡◌, ◌≢◌, refl, sym, subst, ◌⊎◌, ◌↔◌, some, List, [], ◌∷◌,
  All, is_empty, ok, >>=-eq-ok, arith,
}
use tamper.Saml.Replay.{
  Confirmation, Assertion, confirmations, answered, agreed, common_answer, signed_in_response_to,
  correlate,
}

agreed-All :
    (seen got : String) (cs : List Confirmation)
    → (agreed seen cs ≡ ok got) ↔ ((seen ≡ got) × All (λ c. answered c ≡ seen) cs)
unfolding agreed
agreed-All seen got [] = ground arith
agreed-All seen got (c ∷ cs) = ground (arith, agreed-All seen got cs)

common_answer-All :
    (cs : List Confirmation) (got : String)
    → (common_answer cs ≡ ok got) ↔ ((is_empty cs ≡ false) × All (λ c. answered c ≡ got) cs)
unfolding common_answer
common_answer-All [] got = ground arith
common_answer-All (c ∷ cs) got =
    let at = agreed-All (answered c) got cs in
    (
      λ h. (refl, ((at.0 h).0, subst (λ x. All (λ d. answered d ≡ x) cs) (at.0 h).0 (at.0 h).1)),
      λ w. let (e, same) = w.1 in at.1 (e, subst (λ x. All (λ d. answered d ≡ x) cs) (sym e) same),
    )

-- An assertion answers a flow exactly if it has a confirmation, every confirmation answers the
-- request that the flow issued, and where the flow issued none the provider allows that.
pub correlate-All :
    (a : Assertion) (expected : String) (allow : Bool)
    → (correlate (some a) expected allow ≡ ok tt) ↔ (
        (is_empty (confirmations a.subject) ≡ false)
        × All (λ c. answered c ≡ expected) (confirmations a.subject)
        × ((expected ≢ "") ⊎ (allow ≡ true)))
unfolding correlate signed_in_response_to
correlate-All a expected allow = (
  λ h.
      let (got, common, rest) = >>=-eq-ok (common_answer (confirmations a.subject)) _ h in
      let all = (common_answer-All (confirmations a.subject) got).0 common in
      let same : got ≡ expected = ground arith in
      (
        all.0,
        subst (λ x. All (λ c. answered c ≡ x) (confirmations a.subject)) same all.1,
        ground arith,
      ),
  λ w.
      let common = (common_answer-All (confirmations a.subject) expected).1 (w.0, w.1) in
      ground (arith, common, w.2),
)
