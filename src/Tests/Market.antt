-- ===== src/Tests/Market.antt =====
-- What the services around the worker say of the command of the tests.
use Prim.Native.Nat.{◌-◌, ◌*◌, ◌/◌}
use astra_froge.Common.{ℕ, ◌+◌, true, false, none, some, [], ◌∷◌, ltb, eqb}
use astra_froge.Schemas.{long, ScannerSetup, a_plus}
use astra_froge.Schemas.Decimals.{Decimals}
use astra_froge.Schemas.Signals.{
  SignalLifecycle, SignalDecisionStatus, EntryTriggerStatus, SignalRecord, CandidateLifecycle,
  ScannerCandidate,
}
use astra_froge.Schemas.Risk.{RiskDecision, RiskAssessment}
use astra_froge.Recovery.Gate.{RecoveryState, Gate}
use astra_froge.Recovery.Lease.{Connection, answered}
use astra_froge.Commands.Facts.{AccountSnapshot, Facts}
use astra_froge.Schemas.Execution.{DemoTradeRecord, trade_open}

abbrev pub naturals : Decimals ℕ
naturals = record {
  zero = 0;
  eqb = eqb;
  ltb = ltb;
  add = λ a b. a + b;
  sub = λ a b. a - b;
  mul = λ a b. a * b;
  div = λ a b. a / b;
  abs = λ a. a;
  of_int = λ n. n;
  is_finite = λ a. true;
  to_int = λ a. some a;
}

abbrev pub signal : SignalRecord ℕ
signal = record {
  signal_id = "a";
  candidate_id = "c";
  version = 1;
  setup_name = "Breakout";
  scanner_lifecycle = CandidateLifecycle.qualified;
  strategy_reasons = [];
  risk_reward = none;
  score = some 90;
  confidence = some 80;
  entry_trigger_price = 100;
  stop_loss_price = some 90;
  reference_close_time = 1;
  setup_confirmed_at = 1;
  evaluated_at = 1;
  created_at = some 1;
  updated_at = some 1;
  terminal_at = none;
  source_run_id = some "run";
  universe_rank = 1;
  quote_volume = 1;
  spread_bps = 1;
  accepted_reasons = [];
  audit_codes = [];
  lifecycle_history = [];
  decision_key = some "decision";
  symbol = "BTCUSDT";
  direction = long;
  setup = ScannerSetup.breakout_retest;
  lifecycle = SignalLifecycle.active;
  decision_status = some SignalDecisionStatus.ready;
  entry_trigger_status = some EntryTriggerStatus.ready;
  selected = true;
  is_ready = true;
  rejection_reasons = [];
  watch_reasons = [];
  source_snapshot_version = some "v1";
  decision_fresh = true;
  grade = some a_plus;
  entry_ready = true;
  expires_at = 100;
  qualification_expires_at = none;
}

abbrev pub assessment : RiskAssessment ℕ
assessment = record {
  signal_id = "a";
  symbol = "BTCUSDT";
  setup = ScannerSetup.breakout_retest;
  setup_name = "Breakout";
  signal_lifecycle = SignalLifecycle.active;
  grade = some a_plus;
  score = some 90;
  confidence = some 80;
  stop_distance = some 10;
  risk_percent = 1;
  risk_budget_usdt = some 30;
  wallet_balance_usdt = some 3000;
  available_balance_usdt = some 3000;
  daily_realized_pnl_usdt = some 0;
  daily_unrealized_pnl_usdt = some 0;
  daily_net_pnl_usdt = some 0;
  daily_pnl_percent = some 0;
  open_position_count = 0;
  current_margin_exposure_usdt = 0;
  max_open_trades_limit = 4;
  audit_codes = [];
  direction = long;
  decision = RiskDecision.approved;
  blocked_reason = none;
  approved_for_execution = true;
  entry_trigger_price = 100;
  stop_loss_price = some 90;
  recommended_quantity = some 3;
  position_notional_usdt = some 300;
  required_margin_usdt = some 100;
  updated_at = 4;
}

abbrev pub snapshot : AccountSnapshot ℕ
snapshot = record {
  snapshot_id = "snapshot";
  captured_at = 3;
  source_healthy = true;
  can_trade = true;
  positions = record { symbol = "BTCUSDT"; position_amount = 0; leverage = 3 } ∷ [];
}

abbrev pub facts : Facts ℕ
facts = record {
  has_snapshots = true;
  refreshed = some snapshot;
  status_fresh = true;
  status_snapshot_id = some "snapshot";
  get_signal = λ id. some signal;
  assessments = assessment ∷ [];
  checked_at = 5;
  now = 5;
}

abbrev pub trade : DemoTradeRecord ℕ
trade = record {
  trade_id = "t";
  lifecycle = trade_open;
  signal_id = "a";
  symbol = "BTCUSDT";
  direction = long;
  entry_price = 101;
  stop_loss_price = 90;
  take_profit_price = 123;
  exchange_order_id = "1";
  client_order_id = "e";
  stop_order_id = "2";
  stop_client_order_id = "s";
  take_profit_order_id = "3";
  take_profit_client_order_id = "t";
  executed_quantity = 3;
  order_status = "FILLED";
}

-- The candidate of the signal.
abbrev pub candidate : ScannerCandidate ℕ
candidate = record {
  candidate_id = "c";
  symbol = "BTCUSDT";
  direction = long;
  setup = ScannerSetup.breakout_retest;
  setup_name = "Breakout";
  reference_close_time = 1;
  setup_confirmed_at = 2;
  expires_at = 100;
  timeframe = "15m";
  level = none;
  selected_ema = none;
  score_components = [];
  qualification_expires_at = some 50;
  lifecycle = CandidateLifecycle.qualified;
  score = some 90;
  confidence = some 80;
  grade = some a_plus;
  entry_ready = true;
  stale = false;
  universe_rank = 1;
  quote_volume = 1;
  spread_bps = 1;
  entry_trigger_price = 100;
  evaluated_at = 3;
  accepted_reasons = [];
  audit_codes = [];
  evidence = record {
    source_run_id = some "run";
    source_snapshot_version = some "v1";
    strategy_reason_codes = "RETEST" ∷ [];
    risk_reward = some 2;
    entry_snapshot_close_time = some 3;
  };
}

abbrev pub session : Connection
session = record { closed = false; invalidated = false; owns_lock = answered true }

abbrev pub ready_gate : Gate
ready_gate = record {
  state = RecoveryState.automation_ready;
  exchange_reconciled = true;
  signals_revalidated = true;
  automation_ready = true;
  last_recovery_at = some 2;
  recovery_error = none;
}
