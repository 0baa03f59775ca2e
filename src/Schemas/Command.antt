-- ===== src/Schemas/Command.antt =====
-- app/schemas/execution_command.py and the tables of app/persistence/models.py. `N` is the type of
-- decimals; times are UTC instants, counted in microseconds.
use astra_froge.Common.{ℕ, String, Bool, true, false, Option, List}
use astra_froge.Schemas.Scanner.{ScannerDirection, ScannerSetup, ScannerGrade}

-- `ExecutionCommandState`
pub data ExecutionCommandState : Type 0 where
  pending claimed submitting entry_confirmed protection_pending protected : ExecutionCommandState
  completed blocked failed recovery_required expired : ExecutionCommandState

-- `ExecutionCommand`
pub record ExecutionCommand (N : Type 0) : Type 0 where
  pub command_id : String
  pub idempotency_key : String
  pub deterministic_execution_identity : String
  pub signal_id : String
  pub decision_key : String
  pub risk_decision_id : String
  pub symbol : String
  pub direction : ScannerDirection
  pub setup : ScannerSetup
  pub grade : ScannerGrade
  pub source_snapshot_version : String
  pub entry_trigger_price : N
  pub stop_loss_price : N
  pub take_profit_price : N
  pub take_profit_r_multiple : N
  pub approved_quantity : N
  pub approved_notional : N
  pub approved_margin : N
  pub leverage : ℕ
  pub account_snapshot_id : String
  pub state : ExecutionCommandState
  pub created_at : ℕ
  pub updated_at : ℕ
  pub expires_at : ℕ
  pub entry_client_order_id : String
  pub stop_client_order_id : String
  pub take_profit_client_order_id : String
  pub entry_exchange_order_id : Option String
  pub stop_exchange_order_id : Option String
  pub take_profit_exchange_order_id : Option String
  pub executed_quantity : Option N
  pub average_entry_price : Option N
  pub claim_token : Option String
  pub worker_id : Option String
  pub claimed_at : Option ℕ
  pub failure_reason : Option String
  pub audit_codes : List String

-- `ExecutionCommandRow`; `payload_json` is the command that it serialises.
pub record ExecutionCommandRow (N : Type 0) : Type 0 where
  pub command_id : String
  pub idempotency_key : String
  pub signal_id : String
  pub decision_key : String
  pub risk_decision_id : String
  pub source_snapshot_version : String
  pub symbol : String
  pub state : ExecutionCommandState
  pub payload : ExecutionCommand N
  pub claim_token : Option String
  pub worker_id : Option String
  pub claimed_at : Option ℕ
  pub failure_reason : Option String
  pub entry_exchange_order_id : Option String
  pub stop_exchange_order_id : Option String
  pub take_profit_exchange_order_id : Option String
  pub created_at : ℕ
  pub updated_at : ℕ
  pub expires_at : ℕ

-- `ExecutionCommandTransitionRow`, less the payload that repeats its columns
pub record ExecutionCommandTransitionRow : Type 0 where
  pub event_id : String
  pub command_id : String
  pub sequence : ℕ
  pub from_state : Option ExecutionCommandState
  pub to_state : ExecutionCommandState
  pub reason : String
  pub changed_at : ℕ

-- `a is b`, for two states
abbrev pub same_state : ExecutionCommandState → ExecutionCommandState → Bool
same_state pending pending = true
same_state claimed claimed = true
same_state submitting submitting = true
same_state entry_confirmed entry_confirmed = true
same_state protection_pending protection_pending = true
same_state protected protected = true
same_state completed completed = true
same_state blocked blocked = true
same_state failed failed = true
same_state recovery_required recovery_required = true
same_state expired expired = true
same_state _ _ = false
