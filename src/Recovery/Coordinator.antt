-- ===== src/Recovery/Coordinator.antt =====
-- `StartupRecoveryCoordinator.recover`: the one path that makes the gate ready.
use astra_froge.Common.{
  ℕ, String, Bool, true, false, not, Option, none, List, Result, ok, err, ◌>>=◌, ◌>>◌, raise_if,
  or_raise, Error, recovery_failure, client_error,
}
use astra_froge.Schemas.Decimals.{Decimals}
use astra_froge.Schemas.Execution.{DemoTradeRecord}
use astra_froge.Schemas.Signals.{SignalRecord, ScannerCandidate}
use astra_froge.Recovery.Gate.{
  Gate, begin, mark_exchange_reconciled, mark_signals_revalidated, mark_ready, fail,
}
use astra_froge.Recovery.Lease.{Answer, AcquireContext, Lease, acquire, release}
use astra_froge.Recovery.Payloads.{PrivateClient}
use astra_froge.Recovery.Reconcile.{reconcile_exchange_state}
use astra_froge.Recovery.Revalidate.{revalidate_signals}

-- `ScannerRunStatus`
pub data ScannerRunStatus : Type 0 where
  running completed degraded failed skipped : ScannerRunStatus

-- The fields of a scanner's run that the recovery reads.
pub record ScannerRun : Type 0 where
  pub run_id : String
  pub status : ScannerRunStatus
  pub completed_at : Option ℕ

-- What one recovery meets: the settings, the database, the exchange, the durable trades, the scan
-- that it runs, the signals and candidates after that scan, and the clock at its end.
pub record RecoveryContext (N : Type 0) : Type 0 where
  pub execution_enabled : Bool
  pub scanner_auto_start : Bool
  pub leader : AcquireContext
  pub client : Option (PrivateClient N)
  pub trades : List (DemoTradeRecord N)
  pub run_now : Result ScannerRun
  pub signals : List (SignalRecord N)
  pub candidates : List (ScannerCandidate N)
  pub risk_stop_price : Option (String → Option N)
  pub now : ℕ
  pub unlock : Answer
  pub strip : String → String

-- The time at which a run completed, if it did.
abbrev pub completion : ScannerRunStatus → Option ℕ → Option ℕ
completion ScannerRunStatus.completed at = at
completion _ at = none

-- `close`
unfoldable pub close : Answer → Lease → Result (Unit {0}) × Lease
unfolding release
close unlock lease = release unlock lease

-- The code that a handler gives to the gate.
abbrev pub failure_code : Error → String
failure_code (recovery_failure code) = code
failure_code client_error = "EXCHANGE_RECONCILIATION_FAILED"
failure_code _ = "RECOVERY_UNEXPECTED_FAILURE"

-- Calls that change the gate and may raise; what was changed before a raise stays changed.
abbrev pub Step : Type 0
Step = Gate → Result (Unit {0}) × Gate

abbrev pub check : Result (Unit {0}) → Step
check r g = (r, g)

abbrev pub change : (Gate → Gate) → Step
change f g = (ok tt, f g)

abbrev pub attempted : Gate → Result Gate → Result (Unit {0}) × Gate
attempted g (ok g') = (ok tt, g')
attempted g (err e) = (err e, g)

abbrev pub attempt : (Gate → Result Gate) → Step
attempt f g = attempted g (f g)

abbrev pub and_then : Result (Unit {0}) × Gate → Step → Result (Unit {0}) × Gate
and_then (ok _, g) next = next g
and_then (err e, g) next = (err e, g)

abbrev pub then_step : Step → Step → Step
then_step first second g = and_then (first g) second

module _ {N : Type 0} (d : Decimals N) where
  -- `run_now` and the revalidation of the signals that follows it.
  unfoldable pub scan_and_revalidate : RecoveryContext N → Result (Unit {0})
  unfolding revalidate_signals
  scan_and_revalidate ctx = do
    run ← ctx.run_now
    at ←
        or_raise (completion run.status run.completed_at)
          (recovery_failure "SCANNER_REVALIDATION_FAILED")
    revalidate_signals d run.run_id at ctx.risk_stop_price ctx.candidates ctx.signals

  -- The checks before the leader lease is asked for.
  unfoldable pub check_settings : RecoveryContext N → Result (Unit {0})
  check_settings ctx = do
    raise_if (not ctx.execution_enabled) (recovery_failure "EXECUTION_DISABLED")
    raise_if (not ctx.leader.has_persistence)
        (recovery_failure "PERSISTENCE_REQUIRED_FOR_AUTOMATION")
    raise_if (not ctx.scanner_auto_start) (recovery_failure "SCANNER_AUTOMATION_DISABLED")

  -- The `try` block after the lease is held.
  unfoldable pub recovery_steps : RecoveryContext N → Step
  unfolding mark_exchange_reconciled mark_signals_revalidated mark_ready scan_and_revalidate
  recovery_steps ctx = then_step (check (reconcile_exchange_state d ctx.client ctx.trades)) (
      then_step (change mark_exchange_reconciled) (
        then_step (check (scan_and_revalidate ctx))
          (then_step (attempt mark_signals_revalidated) (attempt (mark_ready ctx.now)))))

  -- A failure: the gate is failed and the lease released; the release may raise in turn.
  abbrev pub fail_closed : RecoveryContext N → Error → Gate → Lease → Result Bool × Gate × Lease
  fail_closed ctx e g lease =
      let (r, lease') = release ctx.unlock lease in
      (r >>= (λ _. ok false), fail ctx.strip ctx.now (failure_code e) g, lease')

  abbrev pub finish_recovery :
      RecoveryContext N → Lease → Result (Unit {0}) × Gate → Result Bool × Gate × Lease
  finish_recovery ctx lease (ok _, g) = (ok true, g, lease)
  finish_recovery ctx lease (err e, g) = fail_closed ctx e g lease

  abbrev pub lead : RecoveryContext N → Gate → Result Bool × Lease → Result Bool × Gate × Lease
  lead ctx g (ok true, lease) = finish_recovery ctx lease (recovery_steps ctx g)
  lead ctx g (ok false, lease) =
      fail_closed ctx (recovery_failure "EXECUTION_LEADER_UNAVAILABLE") g lease
  lead ctx g (err e, lease) = fail_closed ctx e g lease

  abbrev pub lead_if :
      RecoveryContext N → Gate → Lease → Result (Unit {0}) → Result Bool × Gate × Lease
  lead_if ctx g lease (ok _) = lead ctx g (acquire ctx.leader lease)
  lead_if ctx g lease (err e) = fail_closed ctx e g lease

  -- `recover`
  unfoldable pub recover : RecoveryContext N → Gate → Lease → Result Bool × Gate × Lease
  unfolding begin fail acquire release recovery_steps check_settings
  recover ctx g lease = lead_if ctx (begin g) lease (check_settings ctx)
