-- ===== src/Signals/Values.antt =====
-- `_candidate_values`, `_map_lifecycle` and the comparison of a record with its candidate.
use astra_froge.Common.{
  String, Bool, true, false, not, ◌&&◌, Option, none, some, List, [], ◌∷◌, eqb, ◌==◌, option_eq,
}
use astra_froge.Schemas.{ScannerGrade, a_plus, grade_a, b_plus, reject, same_direction, same_setup}
use astra_froge.Schemas.Decimals.{Decimals}
use astra_froge.Schemas.Signals.{
  CandidateLifecycle, ScannerCandidate, SignalLifecycle, SignalRecord, same_lifecycle,
  same_candidate_lifecycle,
}

-- `lifecycle in _TERMINAL_LIFECYCLES`
abbrev pub is_terminal : SignalLifecycle → Bool
is_terminal SignalLifecycle.active = false
is_terminal SignalLifecycle.watch = false
is_terminal SignalLifecycle.expired = true
is_terminal SignalLifecycle.invalidated = true
is_terminal SignalLifecycle.rejected = true
is_terminal SignalLifecycle.risk_blocked = true

-- `_map_lifecycle`
abbrev pub map_lifecycle : CandidateLifecycle → SignalLifecycle
map_lifecycle CandidateLifecycle.qualified = SignalLifecycle.active
map_lifecycle CandidateLifecycle.watch_near = SignalLifecycle.watch
map_lifecycle CandidateLifecycle.detected = SignalLifecycle.watch
map_lifecycle CandidateLifecycle.expired = SignalLifecycle.expired
map_lifecycle CandidateLifecycle.invalidated = SignalLifecycle.invalidated
map_lifecycle CandidateLifecycle.rejected = SignalLifecycle.rejected

-- `f"SCANNER_{lifecycle.value}"`
abbrev pub scanner_reason : CandidateLifecycle → String
scanner_reason CandidateLifecycle.detected = "SCANNER_DETECTED"
scanner_reason CandidateLifecycle.watch_near = "SCANNER_WATCH_NEAR"
scanner_reason CandidateLifecycle.qualified = "SCANNER_QUALIFIED"
scanner_reason CandidateLifecycle.rejected = "SCANNER_REJECTED"
scanner_reason CandidateLifecycle.invalidated = "SCANNER_INVALIDATED"
scanner_reason CandidateLifecycle.expired = "SCANNER_EXPIRED"

-- `a == b`, for values that may be missing and for lists
abbrev pub same_option : {A : Type 0} → (A → A → Bool) → Option A → Option A → Bool
same_option same none none = true
same_option same none (some b) = false
same_option same (some a) none = false
same_option same (some a) (some b) = same a b

abbrev pub same_texts : List String → List String → Bool
same_texts [] [] = true
same_texts [] (_ ∷ _) = false
same_texts (_ ∷ _) [] = false
same_texts (a ∷ xs) (b ∷ ys) = a == b && same_texts xs ys

abbrev pub same_grade : ScannerGrade → ScannerGrade → Bool
same_grade a_plus a_plus = true
same_grade grade_a grade_a = true
same_grade b_plus b_plus = true
same_grade reject reject = true
same_grade _ _ = false

abbrev pub same_bool : Bool → Bool → Bool
same_bool true b = b
same_bool false b = not b

module _ {N : Type 0} where
  -- The values of a candidate, with its stop, in a record.
  unfoldable pub with_values : SignalRecord N → ScannerCandidate N → Option N → SignalRecord N
  with_values existing candidate stop = record existing {
    symbol = candidate.symbol;
    direction = candidate.direction;
    setup = candidate.setup;
    setup_name = candidate.setup_name;
    scanner_lifecycle = candidate.lifecycle;
    grade = candidate.grade;
    score = candidate.score;
    confidence = candidate.confidence;
    entry_ready = candidate.entry_ready;
    entry_trigger_price = candidate.entry_trigger_price;
    stop_loss_price = stop;
    reference_close_time = candidate.reference_close_time;
    setup_confirmed_at = candidate.setup_confirmed_at;
    expires_at = candidate.expires_at;
    qualification_expires_at = candidate.qualification_expires_at;
    evaluated_at = candidate.evaluated_at;
    source_run_id = candidate.evidence.source_run_id;
    universe_rank = candidate.universe_rank;
    quote_volume = candidate.quote_volume;
    spread_bps = candidate.spread_bps;
    accepted_reasons = candidate.accepted_reasons;
    audit_codes = candidate.audit_codes;
  }

module _ {N : Type 0} (d : Decimals N) where
  -- No value of the candidate differs from the record's: `not changed`.
  unfoldable pub same_values :
      SignalRecord N → ScannerCandidate N → Option N → SignalLifecycle → Bool
  same_values existing candidate stop lifecycle =
      existing.symbol == candidate.symbol
      && same_direction existing.direction candidate.direction
      && same_setup existing.setup candidate.setup
      && existing.setup_name == candidate.setup_name
      && same_candidate_lifecycle existing.scanner_lifecycle candidate.lifecycle
      && same_option same_grade existing.grade candidate.grade
      && same_option eqb existing.score candidate.score
      && same_option eqb existing.confidence candidate.confidence
      && same_bool existing.entry_ready candidate.entry_ready
      && d.eqb existing.entry_trigger_price candidate.entry_trigger_price
      && same_option d.eqb existing.stop_loss_price stop
      && eqb existing.reference_close_time candidate.reference_close_time
      && eqb existing.setup_confirmed_at candidate.setup_confirmed_at
      && eqb existing.expires_at candidate.expires_at
      && same_option eqb existing.qualification_expires_at candidate.qualification_expires_at
      && eqb existing.evaluated_at candidate.evaluated_at
      && option_eq existing.source_run_id candidate.evidence.source_run_id
      && eqb existing.universe_rank candidate.universe_rank
      && d.eqb existing.quote_volume candidate.quote_volume
      && d.eqb existing.spread_bps candidate.spread_bps
      && same_texts existing.accepted_reasons candidate.accepted_reasons
      && same_texts existing.audit_codes candidate.audit_codes
      && same_lifecycle existing.lifecycle lifecycle
