-- ===== src/Tests/Decisions.antt =====
-- The theorems on the signal decision, at one candidate that is READY.
use astra_froge.Common.{ℕ, String, ◌≡◌, refl, Option, ok}
use astra_froge.Schemas.Signals.{ScannerCandidate, SignalDecision}
use astra_froge.Decisions.Reasons.{sort_codes}
use astra_froge.Decisions.Decide
use astra_froge.Decisions.Eligible.{version, rejected, IsEligible, decide_total, decide-IsEligible}
use astra_froge.Tests.Market.{naturals, candidate}

abbrev decision_key : ScannerCandidate ℕ → Option String → String
decision_key c source = "key"

abbrev strip : String → String
strip text = text

abbrev decision : SignalDecision ℕ
decision =
    Decide.decision_of naturals decision_key 10 candidate
      (version naturals strip decision_key 10 candidate)
      (rejected naturals strip decision_key 10 candidate)
      (Decide.is_eligible naturals (rejected naturals strip decision_key 10 candidate) candidate)

decide_total_example : Decide.decide naturals strip decision_key 10 candidate ≡ ok decision
decide_total_example = decide_total naturals strip decision_key 10 candidate

decide-IsEligible_example : IsEligible naturals strip decision_key 10 candidate decision
unfolding Decide.facts_conflict Decide.trigger_status sort_codes
decide-IsEligible_example =
    decide-IsEligible naturals strip decision_key 10 candidate decision decide_total_example refl
