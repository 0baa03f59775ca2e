-- ===== src/Tests/Worker.antt =====
-- The theorems on the worker, the gate and the command service, at one command.
use astra_froge.Common.{
  ℕ, ◌+◌, ◌≡◌, ◌↔◌, refl, Bool, true, false, none, some, List, [], ◌∷◌, ok, err, Result, length,
  storage_error,
}
use astra_froge.Schemas.{ExecutionCommandState, ExecutionCommand}
use astra_froge.Queue.Tables.{locked_row, save_row}
use astra_froge.Queue.Repository.{sqlite, insert_command, transition, apply_transition}
use astra_froge.Queue.Claims.{claim_next, is_due, oldest, is_claimable, is_visible}
use astra_froge.Queue.Transitions.{is_allowed}
use astra_froge.Recovery.Gate.{require_ready}
use astra_froge.Recovery.GateLaws.{
  Call, ready_call, revalidated_call, reconciled_call, begin_call, run_history, Ready,
  require_ready_when,
}
use astra_froge.Commands.Revalidate.{revalidate}
use astra_froge.Commands.Status.{status}
use astra_froge.Commands.Consistency.{reported, status_complete}
use astra_froge.Schemas.Execution.{DemoTradeRecord}
use astra_froge.Worker.Trade.{validate_trade}
use astra_froge.Worker.Actions.{Worker, Environment}
use astra_froge.Worker.Cycle.{Next, submit, prepare}
use astra_froge.Worker.Submission.{perform, process_one}
use astra_froge.Worker.Validity.{IsValidRepository, exchange-prepare, process_one-IsValidRepository}
use astra_froge.Worker.Outcomes.{IsSettled, perform-IsSettled}
use astra_froge.Worker.Authority.{IsAuthorised, prepare-IsAuthorised}
use astra_froge.Worker.Locking.{perform-locked}
use astra_froge.Worker.Fills.{IsFillOf, validate_trade_iff}
use astra_froge.Tests.Fixtures.{
  event_digest, token_digest, no_locks, order, one_command, two_commands, one_command-IsValid,
}
use astra_froge.Tests.Market.{naturals, facts, trade, session, ready_gate}

validate_trade_iff_example :
    (validate_trade naturals (order "a" 1) trade ≡ ok tt) ↔ IsFillOf naturals (order "a" 1) trade
validate_trade_iff_example = validate_trade_iff naturals (order "a" 1) trade

accepted_trade : validate_trade naturals (order "a" 1) trade ≡ ok tt
unfolding validate_trade
accepted_trade = refl

status_complete_example : reported (status true (some two_commands)) ≡ length two_commands.commands
status_complete_example = status_complete true two_commands

-- The exchange counts the activations.
abbrev worker : Worker ℕ ℕ
worker = record {
  gate = ready_gate;
  lease = some session;
  repository = some one_command;
  exchange = 0;
  last_cycle_at = none;
  last_command_id = none;
  last_result = none;
}

abbrev env_with : Result (DemoTradeRecord ℕ) → Bool → Environment ℕ ℕ
env_with answer broken = record {
  execution_enabled = true;
  worker_id = "w1";
  now = 5;
  dialect = sqlite;
  locked = no_locks;
  facts = facts;
  drift = λ c. c;
  claim_fault = false;
  fault = λ s. elim s [
    | ExecutionCommandState.entry_confirmed ↦ broken
    | ExecutionCommandState.recovery_required ↦ broken
    | _ ↦ false
  ];
  activate = λ id n. (answer, n + 1);
  strip = λ text. text;
  event_digest = event_digest;
  token_digest = token_digest;
}

abbrev env : Environment ℕ ℕ
env = env_with (ok trade) false

abbrev prepared : Result (Next ℕ) × Worker ℕ ℕ
prepared = prepare naturals 2 env worker

abbrev next_command : Result (Next ℕ) → ExecutionCommand ℕ
next_command (ok (submit c)) = c
next_command _ = order "" 0

abbrev claimed_command : ExecutionCommand ℕ
claimed_command = next_command prepared.0

prepared_ok : prepared ≡ (ok (submit claimed_command), prepared.1)
unfolding prepare claim_next insert_command is_due oldest is_claimable is_visible apply_transition
    is_allowed revalidate transition locked_row save_row
prepared_ok = refl

prepare-IsAuthorised_example : IsAuthorised env naturals 2 worker prepared.1 claimed_command
prepare-IsAuthorised_example =
    prepare-IsAuthorised env naturals 2 claimed_command worker prepared.1 prepared_ok

exchange-prepare_example : prepared.1.exchange ≡ 0
exchange-prepare_example = exchange-prepare env naturals 2 worker

process_one-IsValidRepository_example :
    IsValidRepository (process_one naturals 2 env worker).1.repository
process_one-IsValidRepository_example =
    process_one-IsValidRepository env naturals 2 worker one_command-IsValid

abbrev performed : Result ℕ × Worker ℕ ℕ
performed = perform naturals 2 env claimed_command prepared.1

performed_ok : performed ≡ (ok 1, performed.1)
unfolding prepare perform claim_next insert_command is_due oldest is_claimable is_visible
    apply_transition is_allowed revalidate transition locked_row save_row
performed_ok = refl

perform-IsSettled_example : IsSettled env claimed_command.command_id 1 performed.1
perform-IsSettled_example =
    perform-IsSettled env naturals 2 claimed_command prepared.1 performed.1 1 performed_ok

-- The database is gone after the exchange has filled the entry.
abbrev broken_env : Environment ℕ ℕ
broken_env = env_with (ok trade) true

abbrev raised : Result ℕ × Worker ℕ ℕ
raised = perform naturals 2 broken_env claimed_command prepared.1

raised_error : raised ≡ (err storage_error, raised.1)
unfolding prepare perform claim_next insert_command is_due oldest is_claimable is_visible
    apply_transition is_allowed revalidate transition locked_row save_row
raised_error = refl

perform-locked_example : raised.1.gate.automation_ready ≡ false
perform-locked_example =
    perform-locked broken_env naturals 2 claimed_command prepared.1 raised.1 storage_error
      raised_error

abbrev history : List Call
history = ready_call 9 ∷ revalidated_call ∷ reconciled_call ∷ begin_call ∷ []

require_ready_when_example :
    (require_ready (run_history (λ text. text) history) ≡ ok tt) ↔ Ready history
require_ready_when_example = require_ready_when (λ text. text) history
