-- ===== src/Schemas/Signals.antt =====
-- app/schemas/signals.py, app/schemas/signal_decision.py, and the candidates of
-- app/schemas/scanner.py. Times are instants in microseconds; the scores are whole numbers.
use astra_froge.Common.{ℕ, String, Bool, true, false, Option, List}
use astra_froge.Schemas.Scanner.{ScannerDirection, ScannerSetup, ScannerGrade}

-- `CandidateLifecycle`
pub data CandidateLifecycle : Type 0 where
  detected watch_near qualified rejected invalidated expired : CandidateLifecycle

-- What the services read of the dictionary `evidence`: an entry is `none` where it is missing or not
-- of the type that is asked for.
pub record Evidence (N : Type 0) : Type 0 where
  pub source_run_id : Option String
  pub source_snapshot_version : Option String
  -- the items of the list that are texts
  pub strategy_reason_codes : List String
  -- the value that `Decimal(str(value))` reads
  pub risk_reward : Option N
  pub entry_snapshot_close_time : Option ℕ

-- `ScannerCandidate`
pub record ScannerCandidate (N : Type 0) : Type 0 where
  pub candidate_id : String
  pub symbol : String
  pub direction : ScannerDirection
  pub setup : ScannerSetup
  pub setup_name : String
  pub timeframe : String
  pub reference_close_time : ℕ
  pub setup_confirmed_at : ℕ
  pub expires_at : ℕ
  pub qualification_expires_at : Option ℕ
  pub lifecycle : CandidateLifecycle
  pub score : Option ℕ
  pub confidence : Option ℕ
  pub grade : Option ScannerGrade
  pub entry_ready : Bool
  pub stale : Bool
  pub universe_rank : ℕ
  pub quote_volume : N
  pub spread_bps : N
  pub level : Option N
  pub selected_ema : Option N
  pub entry_trigger_price : N
  pub evaluated_at : ℕ
  pub accepted_reasons : List String
  pub audit_codes : List String
  pub evidence : Evidence N
  pub score_components : List (String × N)

-- `SignalDecisionStatus`
pub data SignalDecisionStatus : Type 0 where
  ready near_setup rejected : SignalDecisionStatus

-- `EntryTriggerStatus`
pub data EntryTriggerStatus : Type 0 where
  ready pending invalid : EntryTriggerStatus

-- `SignalDecision`
pub record SignalDecision (N : Type 0) : Type 0 where
  pub decision_key : String
  pub symbol : String
  pub direction : ScannerDirection
  pub setup : ScannerSetup
  pub setup_name : String
  pub decision_status : SignalDecisionStatus
  pub grade : Option ScannerGrade
  pub score : Option ℕ
  pub confidence : Option ℕ
  pub risk_reward : Option N
  pub entry_trigger_status : EntryTriggerStatus
  pub selected : Bool
  pub is_ready : Bool
  pub rejection_reasons : List String
  pub watch_reasons : List String
  pub strategy_reasons : List String
  pub source_snapshot_version : Option String
  pub evaluated_at : ℕ
  pub expires_at : ℕ
  pub fresh : Bool

-- `SignalLifecycle`
pub data SignalLifecycle : Type 0 where
  active watch expired invalidated rejected risk_blocked : SignalLifecycle

-- `SignalTransition`
pub record SignalTransition : Type 0 where
  pub sequence : ℕ
  pub lifecycle : SignalLifecycle
  pub changed_at : ℕ
  pub reason : String

-- `SignalRecord`; its field `ready` is `is_ready` here.
pub record SignalRecord (N : Type 0) : Type 0 where
  pub signal_id : String
  pub candidate_id : String
  pub decision_key : Option String
  pub version : ℕ
  pub symbol : String
  pub direction : ScannerDirection
  pub setup : ScannerSetup
  pub setup_name : String
  pub lifecycle : SignalLifecycle
  pub scanner_lifecycle : CandidateLifecycle
  pub decision_status : Option SignalDecisionStatus
  pub entry_trigger_status : Option EntryTriggerStatus
  pub selected : Bool
  pub is_ready : Bool
  pub rejection_reasons : List String
  pub watch_reasons : List String
  pub strategy_reasons : List String
  pub source_snapshot_version : Option String
  pub decision_fresh : Bool
  pub risk_reward : Option N
  pub grade : Option ScannerGrade
  pub score : Option ℕ
  pub confidence : Option ℕ
  pub entry_ready : Bool
  pub entry_trigger_price : N
  pub stop_loss_price : Option N
  pub reference_close_time : ℕ
  pub setup_confirmed_at : ℕ
  pub expires_at : ℕ
  pub qualification_expires_at : Option ℕ
  pub evaluated_at : ℕ
  pub created_at : Option ℕ
  pub updated_at : Option ℕ
  pub terminal_at : Option ℕ
  pub source_run_id : Option String
  pub universe_rank : ℕ
  pub quote_volume : N
  pub spread_bps : N
  pub accepted_reasons : List String
  pub audit_codes : List String
  pub lifecycle_history : List SignalTransition

-- `a is b`, for two lifecycles
abbrev pub same_lifecycle : SignalLifecycle → SignalLifecycle → Bool
same_lifecycle active active = true
same_lifecycle watch watch = true
same_lifecycle expired expired = true
same_lifecycle invalidated invalidated = true
same_lifecycle rejected rejected = true
same_lifecycle risk_blocked risk_blocked = true
same_lifecycle _ _ = false

abbrev pub same_candidate_lifecycle : CandidateLifecycle → CandidateLifecycle → Bool
same_candidate_lifecycle detected detected = true
same_candidate_lifecycle watch_near watch_near = true
same_candidate_lifecycle qualified qualified = true
same_candidate_lifecycle rejected rejected = true
same_candidate_lifecycle invalidated invalidated = true
same_candidate_lifecycle expired expired = true
same_candidate_lifecycle _ _ = false
