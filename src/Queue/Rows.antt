-- ===== src/Queue/Rows.antt =====
-- How a transition changes the stored command and its row (`_apply_transition`), and the row that
-- `create` inserts.
use astra_froge.Common.{ℕ, String, Option, List, [], ◌∷◌, ◌++◌, if◌then◌else◌, contains}
use astra_froge.Schemas.{ExecutionCommandState, ExecutionCommand, ExecutionCommandRow}

-- One entry of the dictionary `updates`.
pub data Update (N : Type 0) : Type 0 where
  claim_token worker_id failure_reason : Option String → Update N
  claimed_at : Option ℕ → Update N
  entry_exchange_order_id stop_exchange_order_id : Option String → Update N
  take_profit_exchange_order_id : Option String → Update N
  executed_quantity average_entry_price : Option N → Update N

-- The audit codes after a transition: a reason is listed once.
abbrev pub add_audit_code : String → List String → List String
add_audit_code reason codes = if contains codes reason then codes else codes ++ reason ∷ []

module _ {N : Type 0} where
  unfoldable pub apply_update : Update N → ExecutionCommand N → ExecutionCommand N
  apply_update (Update.claim_token v) c = record c { claim_token = v }
  apply_update (Update.worker_id v) c = record c { worker_id = v }
  apply_update (Update.failure_reason v) c = record c { failure_reason = v }
  apply_update (Update.claimed_at v) c = record c { claimed_at = v }
  apply_update (Update.entry_exchange_order_id v) c = record c { entry_exchange_order_id = v }
  apply_update (Update.stop_exchange_order_id v) c = record c { stop_exchange_order_id = v }
  apply_update (Update.take_profit_exchange_order_id v) c = record c {
    take_profit_exchange_order_id = v;
  }
  apply_update (Update.executed_quantity v) c = record c { executed_quantity = v }
  apply_update (Update.average_entry_price v) c = record c { average_entry_price = v }

  -- `command.model_copy(update=updates)`
  unfoldable pub model_copy : List (Update N) → ExecutionCommand N → ExecutionCommand N
  unfolding apply_update
  model_copy [] c = c
  model_copy (u ∷ us) c = model_copy us (apply_update u c)

  -- The command that a transition stores.
  unfoldable pub moved_command :
      ExecutionCommandState → String → ℕ → List (Update N) → ExecutionCommand N → ExecutionCommand N
  unfolding model_copy
  moved_command to_state reason changed_at updates command = model_copy updates (record command {
    state = to_state;
    updated_at = changed_at;
    audit_codes = add_audit_code reason command.audit_codes;
  })

  -- The columns that `_apply_transition` copies from the command into its row.
  unfoldable pub moved_row :
      ExecutionCommandState → ℕ → ExecutionCommand N → ExecutionCommandRow N → ExecutionCommandRow N
  moved_row to_state changed_at command row = record row {
    state = to_state;
    payload = command;
    updated_at = changed_at;
    claim_token = command.claim_token;
    worker_id = command.worker_id;
    claimed_at = command.claimed_at;
    failure_reason = command.failure_reason;
    entry_exchange_order_id = command.entry_exchange_order_id;
    stop_exchange_order_id = command.stop_exchange_order_id;
    take_profit_exchange_order_id = command.take_profit_exchange_order_id;
  }

  -- The row that `create` inserts.
  unfoldable pub new_row : ExecutionCommand N → ExecutionCommandRow N
  new_row command = record {
    command_id = command.command_id;
    idempotency_key = command.idempotency_key;
    signal_id = command.signal_id;
    decision_key = command.decision_key;
    risk_decision_id = command.risk_decision_id;
    source_snapshot_version = command.source_snapshot_version;
    symbol = command.symbol;
    state = command.state;
    payload = command;
    claim_token = command.claim_token;
    worker_id = command.worker_id;
    claimed_at = command.claimed_at;
    failure_reason = command.failure_reason;
    entry_exchange_order_id = command.entry_exchange_order_id;
    stop_exchange_order_id = command.stop_exchange_order_id;
    take_profit_exchange_order_id = command.take_profit_exchange_order_id;
    created_at = command.created_at;
    updated_at = command.updated_at;
    expires_at = command.expires_at;
  }
