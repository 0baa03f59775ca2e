-- ===== src/Commands/Approval.antt =====
-- `_current_approval` and `_validate_signal`.
use astra_froge.Common.{
  ℕ, String, Bool, true, false, not, ◌||◌, Option, none, some, List, [], ◌∷◌, ltb, leb, find?, ◌==◌,
  Result, ok, ◌>>=◌, ◌>>◌, raise_if, or_raise, Error, app_error,
}
use astra_froge.Schemas.{ScannerGrade, a_plus, grade_a}
use astra_froge.Schemas.Signals.{
  SignalLifecycle, active, SignalDecisionStatus, EntryTriggerStatus, SignalRecord,
}
use astra_froge.Schemas.Risk.{RiskDecision, approved, RiskAssessment}
use astra_froge.Commands.Facts.{AccountSnapshot, Facts}

-- `_blocked`
abbrev pub blocked : String → Error
blocked code = app_error 409 code

-- Tests of enumerated fields, where `None` is no member.
abbrev pub decision_is_ready : Option SignalDecisionStatus → Bool
decision_is_ready (some SignalDecisionStatus.ready) = true
decision_is_ready _ = false

abbrev pub trigger_is_ready : Option EntryTriggerStatus → Bool
trigger_is_ready (some EntryTriggerStatus.ready) = true
trigger_is_ready _ = false

abbrev pub is_active : SignalLifecycle → Bool
is_active active = true
is_active _ = false

abbrev pub is_executable_grade : Option ScannerGrade → Bool
is_executable_grade (some a_plus) = true
is_executable_grade (some grade_a) = true
is_executable_grade _ = false

abbrev pub is_approved : RiskDecision → Bool
is_approved approved = true
is_approved _ = false

-- `not value`, for an optional text and for a list
abbrev pub is_missing : Option String → Bool
is_missing none = true
is_missing (some text) = text == ""

abbrev pub is_listed : List String → Bool
is_listed [] = false
is_listed (_ ∷ _) = true

abbrev pub is_none : {A : Type 0} → Option A → Bool
is_none none = true
is_none (some _) = false

-- `signal.qualification_expires_at or signal.expires_at`
abbrev pub expiry_or : Option ℕ → ℕ → ℕ
expiry_or none at = at
expiry_or (some at) _ = at

abbrev pub expiry : {N : Type 0} → SignalRecord N → ℕ
expiry signal = expiry_or signal.qualification_expires_at signal.expires_at

-- `_validate_signal`
unfoldable pub validate_signal : {N : Type 0} → ℕ → SignalRecord N → Result (Unit {0})
validate_signal now signal = do
  raise_if (not (decision_is_ready signal.decision_status)) (blocked "DECISION_NOT_READY")
  raise_if (not (is_active signal.lifecycle)) (blocked "SIGNAL_NOT_ACTIVE")
  raise_if (not (is_executable_grade signal.grade)) (blocked "GRADE_NOT_EXECUTABLE")
  raise_if
      (not (trigger_is_ready signal.entry_trigger_status)
        || not signal.entry_ready
        || not signal.is_ready
        || not signal.selected)
      (blocked "ENTRY_TRIGGER_NOT_READY")
  raise_if (is_listed signal.rejection_reasons || is_listed signal.watch_reasons)
      (blocked "DECISION_HAS_BLOCKING_OR_WATCH_REASONS")
  raise_if (not signal.decision_fresh) (blocked "DECISION_STALE")
  raise_if (is_missing signal.decision_key) (blocked "MISSING_DECISION_KEY")
  raise_if (is_missing signal.source_snapshot_version) (blocked "MISSING_SOURCE_PROVENANCE")
  raise_if (leb (expiry signal) now) (blocked "EXECUTION_DECISION_EXPIRED")

-- The comparison `status.snapshot_id != snapshot.snapshot_id`.
abbrev pub names : Option String → String → Bool
names none id = false
names (some text) id = text == id

module _ {N : Type 0} where
  -- `_current_approval`
  unfoldable pub current_approval :
      Facts N → String → Result (SignalRecord N × RiskAssessment N × AccountSnapshot N)
  unfolding validate_signal
  current_approval facts signal_id = do
    raise_if (not facts.has_snapshots) (blocked "ACCOUNT_SNAPSHOT_UNAVAILABLE")
    snapshot ← or_raise facts.refreshed (blocked "ACCOUNT_SNAPSHOT_REFRESH_FAILED")
    raise_if (not facts.status_fresh || not (names facts.status_snapshot_id snapshot.snapshot_id))
        (blocked "ACCOUNT_SNAPSHOT_STALE")
    raise_if (not snapshot.source_healthy || not snapshot.can_trade)
        (blocked "ACCOUNT_NOT_EXECUTABLE")
    signal ← or_raise (facts.get_signal signal_id) (app_error 404 "SIGNAL_NOT_FOUND")
    validate_signal facts.checked_at signal
    assessment ←
        or_raise (find? (λ item. item.signal_id == signal_id) facts.assessments)
          (blocked "RISK_ASSESSMENT_MISSING")
    raise_if (ltb assessment.updated_at snapshot.captured_at) (blocked "RISK_ASSESSMENT_STALE")
    raise_if
        (not (is_approved assessment.decision)
          || not assessment.approved_for_execution
          || not (is_none assessment.blocked_reason))
        (blocked "RISK_NOT_APPROVED")
    ok (signal, assessment, snapshot)
