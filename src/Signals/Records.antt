-- ===== src/Signals/Records.antt =====
-- The life of one record: `_create_record`, `_update_record` and `_transition`.
use astra_froge.Common.{
  ℕ, ◌+◌, String, Bool, false, Option, none, some, List, [], ◌∷◌, ◌++◌, length, contains,
  if◌then◌else◌,
}
use astra_froge.Schemas.Decimals.{Decimals}
use astra_froge.Schemas.Signals.{
  ScannerCandidate, SignalLifecycle, SignalTransition, SignalRecord, same_lifecycle,
}
use astra_froge.Signals.Values.{is_terminal, scanner_reason, with_values, same_values}

-- The next entry of a history.
abbrev pub extended : List SignalTransition → SignalLifecycle → ℕ → String → List SignalTransition
extended history lifecycle changed_at reason =
    history
    ++ record {
      sequence = length history + 1;
      lifecycle = lifecycle;
      changed_at = changed_at;
      reason = reason;
    }
      ∷ []

-- `changed_at if lifecycle in _TERMINAL_LIFECYCLES else otherwise`
abbrev pub terminal_time : SignalLifecycle → ℕ → Option ℕ → Option ℕ
terminal_time lifecycle changed_at otherwise =
    if is_terminal lifecycle then some changed_at else otherwise

module _ {N : Type 0} where
  -- `_create_record`; `signal_id` is the digest of the candidate's id.
  unfoldable pub create_record :
      (String → String) → ScannerCandidate N → Option N → SignalLifecycle → SignalRecord N
  create_record signal_id candidate stop lifecycle = record {
    signal_id = signal_id candidate.candidate_id;
    candidate_id = candidate.candidate_id;
    decision_key = none;
    version = 1;
    symbol = candidate.symbol;
    direction = candidate.direction;
    setup = candidate.setup;
    setup_name = candidate.setup_name;
    lifecycle = lifecycle;
    scanner_lifecycle = candidate.lifecycle;
    decision_status = none;
    entry_trigger_status = none;
    selected = false;
    is_ready = false;
    rejection_reasons = [];
    watch_reasons = [];
    strategy_reasons = [];
    source_snapshot_version = none;
    decision_fresh = false;
    risk_reward = none;
    grade = candidate.grade;
    score = candidate.score;
    confidence = candidate.confidence;
    entry_ready = candidate.entry_ready;
    entry_trigger_price = candidate.entry_trigger_price;
    stop_loss_price = stop;
    reference_close_time = candidate.reference_close_time;
    setup_confirmed_at = candidate.setup_confirmed_at;
    expires_at = candidate.expires_at;
    qualification_expires_at = candidate.qualification_expires_at;
    evaluated_at = candidate.evaluated_at;
    created_at = some candidate.evaluated_at;
    updated_at = some candidate.evaluated_at;
    terminal_at = terminal_time lifecycle candidate.evaluated_at none;
    source_run_id = candidate.evidence.source_run_id;
    universe_rank = candidate.universe_rank;
    quote_volume = candidate.quote_volume;
    spread_bps = candidate.spread_bps;
    accepted_reasons = candidate.accepted_reasons;
    audit_codes = candidate.audit_codes;
    lifecycle_history =
        extended [] lifecycle candidate.evaluated_at (scanner_reason candidate.lifecycle);
  }

  -- `_transition`
  unfoldable pub transition : SignalRecord N → SignalLifecycle → ℕ → String → SignalRecord N
  transition existing lifecycle changed_at reason =
      if same_lifecycle existing.lifecycle lifecycle then existing else record existing {
        version = existing.version + 1;
        lifecycle = lifecycle;
        updated_at = some changed_at;
        terminal_at = terminal_time lifecycle changed_at none;
        audit_codes =
            if contains existing.audit_codes reason
            then existing.audit_codes
            else existing.audit_codes ++ reason ∷ [];
        lifecycle_history = extended existing.lifecycle_history lifecycle changed_at reason;
      }

module _ {N : Type 0} (d : Decimals N) where
  -- A record that its candidate has changed.
  abbrev pub changed_record :
      SignalRecord N → ScannerCandidate N → Option N → SignalLifecycle → Bool → SignalRecord N
  changed_record existing candidate stop lifecycle stays =
      record (with_values existing candidate stop) {
        lifecycle = lifecycle;
        version = existing.version + 1;
        updated_at = some candidate.evaluated_at;
        terminal_at =
            if stays
            then existing.terminal_at
            else terminal_time lifecycle candidate.evaluated_at existing.terminal_at;
        lifecycle_history =
            if stays
            then existing.lifecycle_history
            else extended existing.lifecycle_history lifecycle candidate.evaluated_at
                (scanner_reason candidate.lifecycle);
      }

  -- `_update_record`
  unfoldable pub update_record :
      SignalRecord N → ScannerCandidate N → Option N → SignalLifecycle → SignalRecord N
  unfolding with_values same_values
  update_record existing candidate stop lifecycle =
      if same_values d existing candidate stop lifecycle
      then existing
      else changed_record existing candidate stop lifecycle
          (same_lifecycle lifecycle existing.lifecycle)
