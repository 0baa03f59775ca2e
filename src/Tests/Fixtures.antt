-- ===== src/Tests/Fixtures.antt =====
-- The data of the tests: numbers for decimals, texts for digests, and two commands.
use astra_froge.Common.{ℕ, String, Bool, false, none, [], ok, refl, ◌≡◌}
use astra_froge.Schemas.{long, ScannerSetup, a_plus, pending, ExecutionCommand}
use astra_froge.Queue.Tables.{Tables, by_identity}
use astra_froge.Queue.Repository.{sqlite, insert_command, create}
use astra_froge.Queue.Invariant.{IsValid}
use astra_froge.Queue.Invariant.{create-IsValid}

abbrev pub event_digest : String → ℕ → String
event_digest id n = id

abbrev pub token_digest : String → String → ℕ → String
token_digest id worker_id now = worker_id

abbrev pub no_locks : String → Bool
no_locks id = false

-- A long entry at 100 with its stop at 90 and its target at 120.
abbrev pub order : String → ℕ → ExecutionCommand ℕ
order id created_at = record {
  command_id = id;
  idempotency_key = id;
  deterministic_execution_identity = id;
  signal_id = id;
  decision_key = "decision";
  risk_decision_id = "risk";
  symbol = "BTCUSDT";
  direction = long;
  setup = ScannerSetup.breakout_retest;
  grade = a_plus;
  source_snapshot_version = "v1";
  entry_trigger_price = 100;
  stop_loss_price = 90;
  take_profit_price = 120;
  take_profit_r_multiple = 2;
  approved_quantity = 3;
  approved_notional = 300;
  approved_margin = 100;
  leverage = 3;
  account_snapshot_id = "snapshot";
  state = pending;
  created_at = created_at;
  updated_at = created_at;
  expires_at = 100;
  entry_client_order_id = "e";
  stop_client_order_id = "s";
  take_profit_client_order_id = "t";
  entry_exchange_order_id = none;
  stop_exchange_order_id = none;
  take_profit_exchange_order_id = none;
  executed_quantity = none;
  average_entry_price = none;
  claim_token = none;
  worker_id = none;
  claimed_at = none;
  failure_reason = none;
  audit_codes = [];
}

abbrev pub empty : Tables ℕ
empty = record { commands = []; transitions = [] }

abbrev pub one_command : Tables ℕ
one_command = insert_command event_digest (order "a" 1) empty

abbrev pub two_commands : Tables ℕ
two_commands = insert_command event_digest (order "b" 2) one_command

pub empty-IsValid : IsValid empty
empty-IsValid = record { rows = tt; distinct = tt; owned = tt }

pub created : create event_digest sqlite (order "a" 1) empty empty ≡ ok (order "a" 1, one_command)
unfolding create by_identity
created = refl

created_second :
    create event_digest sqlite (order "b" 2) one_command one_command
    ≡ ok (order "b" 2, two_commands)
unfolding create by_identity
created_second = refl

pub one_command-IsValid : IsValid one_command
one_command-IsValid =
    create-IsValid event_digest sqlite (order "a" 1) empty empty one_command (order "a" 1) refl
      empty-IsValid created

pub two_commands-IsValid : IsValid two_commands
two_commands-IsValid =
    create-IsValid event_digest sqlite (order "b" 2) one_command one_command two_commands
      (order "b" 2) refl one_command-IsValid created_second
