-- ===== src/Tests/Recovery.antt =====
-- The theorems on the startup recovery and the guarded entries, at one open trade.
use astra_froge.Common.{
  ℕ, ◌+◌, String, ◌==◌, ◌≡◌, ◌⊎◌, refl, true, none, some, [], ◌∷◌, ok, if◌then◌else◌,
}
use astra_froge.Schemas.{long, ScannerSetup, a_plus}
use astra_froge.Schemas.Signals.{SignalLifecycle}
use astra_froge.Schemas.Risk.{RiskDecision}
use astra_froge.Schemas.Execution.{DemoExecutionState, DemoPlanState}
use astra_froge.Recovery.Gate.{new_gate}
use astra_froge.Recovery.Lease.{answered}
use astra_froge.Recovery.Payloads.{AlgoPayload, PrivateClient}
use astra_froge.Recovery.Reconcile.{reconcile_exchange_state}
use astra_froge.Recovery.Reconciled.{IsReconciled, reconcile-IsReconciled}
use astra_froge.Recovery.Revalidate.{candidate_by_id}
use astra_froge.Recovery.Coordinator.{ScannerRunStatus, RecoveryContext, recover}
use astra_froge.Recovery.Recovered.{IsRecovery, recover-IsRecovery}
use astra_froge.Recovery.Guarded.{Backend, Guarded, activate, auto_execute_pending}
use astra_froge.Recovery.Entries.{IsPermitted, IsRefusal, activate-IsPermitted}
use astra_froge.Recovery.Cycles.{IsCycle, auto_execute_pending-IsCycle}
use astra_froge.Tests.Market.{naturals, signal, candidate, trade, session, ready_gate}

abbrev protective : String → String → AlgoPayload
protective client_order_id order_id = record {
  client_order_id = client_order_id;
  order_id = order_id;
  symbol = "BTCUSDT";
  status = some "NEW";
}

-- The exchange with the trade's position and its two protective orders.
abbrev client : PrivateClient ℕ
client = record {
  positions = ok (record { symbol = "BTCUSDT"; position_amt = some 3 } ∷ []);
  open_orders = ok [];
  open_algo_orders = ok (protective "s" "2" ∷ protective "t" "3" ∷ []);
  query_order = λ symbol id. ok (record {
    client_order_id = "e";
    order_id = "1";
    status = some "FILLED";
    executed_qty = some 3;
  });
  query_algo_order = λ symbol id. ok (if id == "s" then protective "s" "2" else protective "t" "3");
}

reconciles : reconcile_exchange_state naturals (some client) (trade ∷ []) ≡ ok tt
unfolding reconcile_exchange_state
reconciles = refl

reconcile-IsReconciled_example :
    (c : PrivateClient ℕ) × (some client ≡ some c) × IsReconciled naturals c (trade ∷ [])
reconcile-IsReconciled_example =
    reconcile-IsReconciled naturals (some client) (trade ∷ []) reconciles

abbrev context : RecoveryContext ℕ
context = record {
  execution_enabled = true;
  scanner_auto_start = true;
  leader = record {
    has_persistence = true;
    is_postgresql = true;
    session = session;
    try_lock = answered true;
  };
  client = some client;
  trades = trade ∷ [];
  run_now =
      ok (record { run_id = "run"; status = ScannerRunStatus.completed; completed_at = some 2 });
  signals = signal ∷ [];
  candidates = candidate ∷ [];
  risk_stop_price = some (λ id. some 90);
  now = 5;
  unlock = answered true;
  strip = λ s. s;
}

recover-IsRecovery_example : IsRecovery naturals context (recover naturals context new_gate none)
recover-IsRecovery_example = recover-IsRecovery naturals context new_gate none

recovers : (recover naturals context new_gate none).0 ≡ ok true
unfolding recover reconcile_exchange_state candidate_by_id new_gate
recovers = refl

-- The exchange counts the activations.
abbrev backend : Backend ℕ ℕ
backend = record {
  recovery_required = true;
  inner_state = λ n. DemoExecutionState.ready;
  inner_plans = λ n.
      record {
        signal_id = "a";
        symbol = "BTCUSDT";
        direction = long;
        setup = ScannerSetup.breakout_retest;
        setup_name = "Breakout";
        signal_lifecycle = SignalLifecycle.active;
        risk_decision = RiskDecision.approved;
        grade = some a_plus;
        score = some 90;
        confidence = some 80;
        entry_trigger_price = 100;
        stop_loss_price = some 90;
        recommended_quantity = some 3;
        take_profit_r_multiple = 2;
        updated_at = 4;
        audit_codes = [];
        plan_state = DemoPlanState.executable;
        blocked_reason = none;
        executable_now = true;
      }
      ∷ [];
  inner_activate = λ id n. (ok trade, n + 1);
  inner_auto_execute_pending = λ n. (ok 1, n + 1);
  drift = λ c. c;
  drift_at = λ id c. c;
  now = 5;
  strip = λ s. s;
}

abbrev guarded : Guarded ℕ
guarded = record { gate = ready_gate; lease = some session; exchange = 0 }

activate-IsPermitted_example :
    ((activate backend "a" guarded ≡ (ok trade, record guarded { exchange = 1 }))
      × IsPermitted backend guarded)
    ⊎ IsRefusal backend guarded (activate backend "a" guarded)
activate-IsPermitted_example = activate-IsPermitted backend "a" guarded refl

auto_execute_pending-IsCycle_example :
    (IsPermitted backend guarded × IsCycle backend guarded (auto_execute_pending backend guarded).1)
    ⊎ IsRefusal backend guarded (auto_execute_pending backend guarded)
auto_execute_pending-IsCycle_example = auto_execute_pending-IsCycle backend guarded refl

one_entry : (auto_execute_pending backend guarded).0 ≡ ok 1
unfolding auto_execute_pending
one_entry = refl
