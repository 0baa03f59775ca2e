-- ===== src/Decisions/Decide.antt =====
-- `SignalDecisionEngine.decide`, and the validation of the decision that it returns.
use astra_froge.Common.{
  ℕ, ◌+◌, String, Bool, true, false, not, ◌&&◌, ◌||◌, Option, none, some, List, [], ◌∷◌, ltb, leb,
  if◌then◌else◌, ◌==◌, Result, ok, ◌>>◌, raise_if, validation_error,
}
use astra_froge.Schemas.{ScannerGrade, a_plus, grade_a, b_plus, reject}
use astra_froge.Schemas.Decimals.{Decimals}
use astra_froge.Schemas.Signals.{
  CandidateLifecycle, ScannerCandidate, SignalDecisionStatus, EntryTriggerStatus, SignalDecision,
}
use astra_froge.Decisions.Reasons.{append_unique, append_if, Reasons, sort_codes, unique_texts}

-- Tests of optional numbers: `value is not None and value < limit`, and `... >= limit`.
abbrev pub is_below : Option ℕ → ℕ → Bool
is_below none limit = false
is_below (some n) limit = ltb n limit

abbrev pub is_at_least : Option ℕ → ℕ → Bool
is_at_least none limit = false
is_at_least (some n) limit = leb limit n

abbrev pub is_missing : {A : Type 0} → Option A → Bool
is_missing none = true
is_missing (some _) = false

abbrev pub is_top_grade : Option ScannerGrade → Bool
is_top_grade (some a_plus) = true
is_top_grade (some grade_a) = true
is_top_grade _ = false

abbrev pub is_b_plus : Option ScannerGrade → Bool
is_b_plus (some b_plus) = true
is_b_plus _ = false

abbrev pub is_reject : Option ScannerGrade → Bool
is_reject (some reject) = true
is_reject _ = false

abbrev pub is_pending : EntryTriggerStatus → Bool
is_pending EntryTriggerStatus.pending = true
is_pending _ = false

abbrev pub is_trigger_ready : EntryTriggerStatus → Bool
is_trigger_ready EntryTriggerStatus.ready = true
is_trigger_ready _ = false

abbrev pub is_trigger_invalid : EntryTriggerStatus → Bool
is_trigger_invalid EntryTriggerStatus.invalid = true
is_trigger_invalid _ = false

abbrev pub is_empty : List String → Bool
is_empty [] = true
is_empty (_ ∷ _) = false

-- The code of a lifecycle that is over.
abbrev pub lifecycle_reason : CandidateLifecycle → List String → List String
lifecycle_reason CandidateLifecycle.invalidated values =
    append_unique values "CANDIDATE_INVALIDATED"
lifecycle_reason CandidateLifecycle.expired values = append_unique values "CANDIDATE_EXPIRED"
lifecycle_reason CandidateLifecycle.rejected values = append_unique values "SETUP_INVALIDATED"
lifecycle_reason _ values = values

-- `min(a, b)`
abbrev pub earlier : ℕ → ℕ → ℕ
earlier a b = if leb a b then a else b

-- `validate_consistent_state`
unfoldable pub validate_consistent_state :
    {N : Type 0} → SignalDecision N → Result (SignalDecision N)
validate_consistent_state decision = do
  raise_if (is_b_plus decision.grade && decision.is_ready) validation_error
  raise_if (is_reject decision.grade && decision.is_ready) validation_error
  raise_if
      (elim decision.decision_status [
        | SignalDecisionStatus.ready ↦
            not decision.is_ready
            || not decision.selected
            || not (is_trigger_ready decision.entry_trigger_status)
            || not (is_top_grade decision.grade)
            || not (is_empty decision.rejection_reasons)
            || not decision.fresh
        | SignalDecisionStatus.near_setup ↦
            decision.is_ready || decision.selected || not (is_empty decision.rejection_reasons)
        | SignalDecisionStatus.rejected ↦
            decision.is_ready || decision.selected || is_empty decision.rejection_reasons
      ])
      validation_error
  ok decision

module _ {N : Type 0} (d : Decimals N) where
  abbrev pub is_unpriced : N → Bool
  is_unpriced price = d.ltb price d.zero || d.eqb price d.zero

  -- `_facts_conflict`
  unfoldable pub facts_conflict : ScannerCandidate N → Bool
  facts_conflict c =
      is_missing c.score
      || is_missing c.confidence
      || is_missing c.grade
      || ltb c.setup_confirmed_at c.reference_close_time
      || ltb c.evaluated_at c.setup_confirmed_at
      || leb c.expires_at c.setup_confirmed_at
      || is_unpriced c.entry_trigger_price
      || is_b_plus c.grade && is_below c.score 80
      || is_top_grade c.grade && is_below c.score 85

  -- `_trigger_status`
  unfoldable pub trigger_status : ScannerCandidate N → EntryTriggerStatus
  trigger_status c =
      if is_unpriced c.entry_trigger_price
      then EntryTriggerStatus.invalid
      else if c.entry_ready
      then EntryTriggerStatus.ready
      else EntryTriggerStatus.pending

  -- `_optional_decimal`
  unfoldable pub optional_decimal : Option N → Option N
  optional_decimal none = none
  optional_decimal (some value) =
      if not (d.is_finite value) || d.ltb value d.zero then none else some value

  -- The version of the source snapshot, where it is a text that is not blank.
  abbrev pub source_version : (String → String) → Option String → Option String
  source_version strip none = none
  source_version strip (some version) = if strip version == "" then none else some version

  -- The reasons up to the audit codes.
  abbrev pub early_rejections : Option String → ScannerCandidate N → List String
  early_rejections version c = append_if (is_below c.confidence 60) "CONFIDENCE_BELOW_60" (
      append_if (is_below c.score 80) "SCORE_BELOW_80" (
        append_if (is_reject c.grade) "SCORE_BELOW_80" (
          lifecycle_reason c.lifecycle (
            append_if (facts_conflict c) "CONFLICTING_STRATEGY_FIELDS" (
              append_if (leb c.expires_at c.evaluated_at) "SIGNAL_DECISION_EXPIRED" (
                append_if c.stale "SOURCE_SNAPSHOT_STALE"
                  (append_if (is_missing version) "MISSING_SOURCE_PROVENANCE" [])))))))

  -- The reasons with the audit codes.
  abbrev pub sorted_reasons : Option String → ScannerCandidate N → Reasons
  sorted_reasons version c = sort_codes c.audit_codes (record {
    rejection = early_rejections version c;
    watch = [];
    strategy = unique_texts c.evidence.strategy_reason_codes [];
  })

  -- All reasons to reject.
  abbrev pub rejections : Option String → ScannerCandidate N → List String
  rejections version c =
      append_if (is_trigger_invalid (trigger_status c)) "ENTRY_TRIGGER_INVALID"
        (sorted_reasons version c).rejection

  -- `ready`
  abbrev pub is_eligible : List String → ScannerCandidate N → Bool
  is_eligible rejected c =
      (is_empty rejected && not c.stale)
      && is_top_grade c.grade
      && (is_at_least c.score 85 && is_at_least c.confidence 70)
      && is_trigger_ready (trigger_status c)

  abbrev pub decided : List String → Bool → SignalDecisionStatus
  decided [] ready = if ready then SignalDecisionStatus.ready else SignalDecisionStatus.near_setup
  decided (_ ∷ _) ready = SignalDecisionStatus.rejected

  -- The reasons to watch that a near setup adds.
  abbrev pub near_reasons : SignalDecisionStatus → ScannerCandidate N → List String → List String
  near_reasons SignalDecisionStatus.near_setup c values =
      append_if (is_at_least c.confidence 60 && is_below c.confidence 70) "CONFIDENCE_WATCH_ONLY" (
        append_if (is_b_plus c.grade) "GRADE_B_PLUS_WATCH_ONLY"
          (append_if (is_pending (trigger_status c)) "ENTRY_NOT_READY" values))
  near_reasons _ c values = values

  abbrev pub ready_expiry : ℕ → Option ℕ → ℕ → ℕ
  ready_expiry expires_at none qualification = expires_at
  ready_expiry expires_at (some entry_close) qualification =
      earlier expires_at (entry_close + qualification)

  -- `_decision_expiry`; `qualification` is `QUALIFICATION_EXPIRY`.
  unfoldable pub decision_expiry : ℕ → ScannerCandidate N → SignalDecisionStatus → ℕ
  decision_expiry qualification c SignalDecisionStatus.ready =
      ready_expiry c.expires_at c.evidence.entry_snapshot_close_time qualification
  decision_expiry qualification c _ = c.expires_at

  -- The fields of the decision.
  abbrev pub decision_of :
      (ScannerCandidate N → Option String → String)
      → ℕ
      → ScannerCandidate N
      → Option String
      → List String
      → Bool
      → SignalDecision N
  decision_of decision_key qualification c version rejected ready = record {
    decision_key = decision_key c version;
    symbol = c.symbol;
    direction = c.direction;
    setup = c.setup;
    setup_name = c.setup_name;
    decision_status = decided rejected ready;
    grade = c.grade;
    score = c.score;
    confidence = c.confidence;
    risk_reward = optional_decimal c.evidence.risk_reward;
    entry_trigger_status = trigger_status c;
    selected = ready;
    is_ready = ready;
    rejection_reasons = rejected;
    watch_reasons = near_reasons (decided rejected ready) c (sorted_reasons version c).watch;
    strategy_reasons = (sorted_reasons version c).strategy;
    source_snapshot_version = version;
    evaluated_at = c.evaluated_at;
    expires_at = decision_expiry qualification c (decided rejected ready);
    fresh = is_empty rejected && not c.stale;
  }

  -- `decide`. `decision_key` is the SHA-256 digest of the decision's identity.
  unfoldable pub decide :
      (String → String)
      → (ScannerCandidate N → Option String → String)
      → ℕ
      → ScannerCandidate N
      → Result (SignalDecision N)
  unfolding append_unique sort_codes unique_texts trigger_status optional_decimal decision_expiry
      validate_consistent_state
  decide strip decision_key qualification c =
      let version = source_version strip c.evidence.source_snapshot_version in
      let rejected = rejections version c in
      validate_consistent_state
        (decision_of decision_key qualification c version rejected (is_eligible rejected c))
