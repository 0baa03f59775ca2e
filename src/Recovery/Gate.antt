-- ===== src/Recovery/Gate.antt =====
-- `AutomationRecoveryGate`, the one authority on whether automated entries are allowed.
use astra_froge.Common.{
  ℕ, String, Bool, true, false, not, ◌||◌, Option, none, some, if◌then◌else◌, ◌==◌, Result, ok, err,
  app_error, runtime_error,
}

-- `RecoveryState`
pub data RecoveryState : Type 0 where
  recovery_required recovering exchange_reconciled signals_revalidated : RecoveryState
  automation_ready recovery_failed : RecoveryState

-- The fields of the gate; `snapshot` is a copy of them.
pub record Gate : Type 0 where
  pub state : RecoveryState
  pub exchange_reconciled : Bool
  pub signals_revalidated : Bool
  pub automation_ready : Bool
  pub last_recovery_at : Option ℕ
  pub recovery_error : Option String

-- `__init__`
unfoldable pub new_gate : Gate
new_gate = record {
  state = RecoveryState.recovery_required;
  exchange_reconciled = false;
  signals_revalidated = false;
  automation_ready = false;
  last_recovery_at = none;
  recovery_error = none;
}

-- `begin`
unfoldable pub begin : Gate → Gate
begin g = record g {
  state = RecoveryState.recovering;
  exchange_reconciled = false;
  signals_revalidated = false;
  automation_ready = false;
  recovery_error = none;
}

-- `mark_exchange_reconciled`
unfoldable pub mark_exchange_reconciled : Gate → Gate
mark_exchange_reconciled g = record g {
  state = RecoveryState.exchange_reconciled;
  exchange_reconciled = true;
}

-- `mark_signals_revalidated`
unfoldable pub mark_signals_revalidated : Gate → Result Gate
mark_signals_revalidated g =
    if not g.exchange_reconciled
    then err (runtime_error "Exchange reconciliation must complete before signal revalidation")
    else ok (record g { state = RecoveryState.signals_revalidated; signals_revalidated = true })

-- `mark_ready`, at the time `now`
unfoldable pub mark_ready : ℕ → Gate → Result Gate
mark_ready now g =
    if not g.exchange_reconciled || not g.signals_revalidated
    then err (runtime_error "Recovery prerequisites are incomplete")
    else ok (record g {
      state = RecoveryState.automation_ready;
      automation_ready = true;
      last_recovery_at = some now;
      recovery_error = none;
    })

-- `fail`, at the time `now`; `strip` is Python's `str.strip`.
unfoldable pub fail : (String → String) → ℕ → String → Gate → Gate
fail strip now error g = record g {
  state = RecoveryState.recovery_failed;
  automation_ready = false;
  last_recovery_at = some now;
  recovery_error = some (if strip error == "" then "RECOVERY_FAILED" else strip error);
}

-- `require_ready`
unfoldable pub require_ready : Gate → Result (Unit {0})
require_ready g = if g.automation_ready then ok tt else err (app_error 409 "RECOVERY_NOT_COMPLETE")
