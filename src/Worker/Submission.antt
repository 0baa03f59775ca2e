-- ===== src/Worker/Submission.antt =====
-- The submission itself, its two exception handlers, and the whole of `process_one`.
use astra_froge.Common.{
  ℕ, String, some, List, [], ◌∷◌, if◌then◌else◌, Result, ok, err, app_error, contains,
}
use astra_froge.Schemas.{
  ExecutionCommandState, entry_confirmed, protection_pending, protected, completed, blocked,
  recovery_required, ExecutionCommand,
}
use astra_froge.Queue.Rows.{Update}
use astra_froge.Schemas.Decimals.{Decimals}
use astra_froge.Schemas.Execution.{DemoTradeRecord}
use astra_froge.Worker.Trade.{validate_trade}
use astra_froge.Worker.Actions.{
  Worker, Environment, Action, ◌>>=◌, ◌>>◌, pure, lift, finish, fail_gate, store,
}
use astra_froge.Worker.Cycle.{Next, stop, submit, prepare}

-- `_BLOCKED_PRE_SUBMISSION_CODES`
abbrev pub blocked_pre_submission_codes : List String
blocked_pre_submission_codes =
    "ACCOUNT_NOT_EXECUTABLE" ∷ "ACCOUNT_SNAPSHOT_REFRESH_FAILED" ∷ "ACCOUNT_SNAPSHOT_STALE"
    ∷ "APPROVED_MARGIN_CONFLICT" ∷ "APPROVED_NOTIONAL_CONFLICT" ∷ "APPROVED_QUANTITY_CONFLICT"
    ∷ "DECISION_KEY_SUPERSEDED" ∷ "DECISION_NOT_READY" ∷ "DECISION_STALE" ∷ "ENTRY_TRIGGER_CONFLICT"
    ∷ "ENTRY_TRIGGER_NOT_READY" ∷ "EXECUTION_COMMAND_EXPIRED" ∷ "EXECUTION_DECISION_EXPIRED"
    ∷ "EXECUTION_DIRECTION_CONFLICT" ∷ "EXISTING_EXCHANGE_POSITION_CONFLICT"
    ∷ "GRADE_NOT_EXECUTABLE" ∷ "LEVERAGE_CONFLICT" ∷ "MISSING_DECISION_KEY"
    ∷ "MISSING_SOURCE_PROVENANCE" ∷ "PLAN_NOT_EXECUTABLE" ∷ "RISK_ASSESSMENT_MISSING"
    ∷ "RISK_ASSESSMENT_STALE" ∷ "RISK_NOT_APPROVED" ∷ "SIGNAL_NOT_ACTIVE" ∷ "SIGNAL_NOT_FOUND"
    ∷ "SOURCE_SNAPSHOT_SUPERSEDED" ∷ "STOP_LOSS_CONFLICT" ∷ "TAKE_PROFIT_CONFLICT" ∷ []

-- The state to which a known failure leads.
abbrev pub failure_state : String → ExecutionCommandState
failure_state code =
    if contains blocked_pre_submission_codes code then blocked else recovery_required

module _ {N W : Type 0} where
  abbrev activated :
      Worker N W → Result (DemoTradeRecord N) × W → Result (DemoTradeRecord N) × Worker N W
  activated s (r, exchange) = (r, record s { exchange = exchange })

  -- `self._backend.activate(command.signal_id)`
  unfoldable pub activate : Environment N W → String → Action N W (DemoTradeRecord N)
  activate env signal_id s = activated s (env.activate signal_id s.exchange)

  abbrev pub after_failure_transition :
      Environment N W → Result (Unit {0}) × Worker N W → Result (Unit {0}) × Worker N W
  after_failure_transition env (ok _, s) = (ok tt, s)
  after_failure_transition env (err e, s) =
      (err e, fail_gate env "EXECUTION_COMMAND_PERSISTENCE_FAILED" s)

  -- `_safe_failure_transition`
  unfoldable pub safe_failure_transition :
      Environment N W → String → ExecutionCommandState → String → Action N W (Unit {0})
  unfolding store fail_gate
  safe_failure_transition env id to_state reason s =
      after_failure_transition env
        (store env id to_state reason (Update.failure_reason (some reason) ∷ []) s)

  -- The two `except` clauses, and the return after the `try` block.
  unfoldable pub conclude :
      Environment N W → ExecutionCommand N → Result (Unit {0}) × Worker N W → Result ℕ × Worker N W
  unfolding safe_failure_transition
  conclude env c (ok _, s) = finish "COMPLETED" 1 s
  conclude env c (err (app_error status code), s) =
      (safe_failure_transition env c.command_id (failure_state code) code >> finish code 0) s
  conclude env c (err e, s) =
      (safe_failure_transition env c.command_id recovery_required "WORKER_UNEXPECTED_FAILURE"
          >> finish "WORKER_UNEXPECTED_FAILURE" 0)
        s

  module _ (d : Decimals N) (multiple : N) where
    -- The body of the `try` block.
    unfoldable pub submission : Environment N W → ExecutionCommand N → Action N W (Unit {0})
    unfolding activate store validate_trade
    submission env c = do
      trade ← activate env c.signal_id
      lift (validate_trade d c trade)
      store env c.command_id entry_confirmed "ENTRY_FILL_VERIFIED" (
          Update.entry_exchange_order_id (some trade.exchange_order_id)
          ∷ Update.executed_quantity (some trade.executed_quantity)
          ∷ Update.average_entry_price (some trade.entry_price)
          ∷ [])
      store env c.command_id protection_pending "PROTECTION_VERIFICATION_STARTED" []
      store env c.command_id protected "STOP_AND_TAKE_PROFIT_VERIFIED" (
          Update.stop_exchange_order_id (some trade.stop_order_id)
          ∷ Update.take_profit_exchange_order_id (some trade.take_profit_order_id)
          ∷ [])
      store env c.command_id completed "PROTECTED_TRADE_DURABLY_STORED" []

    -- What follows the durable start of a submission.
    unfoldable pub perform : Environment N W → ExecutionCommand N → Action N W ℕ
    unfolding submission conclude
    perform env c s = conclude env c (submission env c s)

    abbrev pub next_step : Environment N W → Next N → Action N W ℕ
    next_step env stop = pure 0
    next_step env (submit c) = perform env c

    -- `process_one`
    unfoldable pub process_one : Environment N W → Action N W ℕ
    unfolding prepare perform
    process_one env = prepare d multiple env >>= next_step env
