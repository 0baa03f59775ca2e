-- ===== src/Recovery/Guarded.antt =====
-- `RecoveryGuardedExecutionService` and `LeaderValidatedExecutionService`: every new entry of the
-- order backend passes the gate and the leader's session.
use astra_froge.Common.{
  ℕ, ◌+◌, String, Bool, true, false, not, ◌&&◌, ◌||◌, none, some, List, [], ◌∷◌, map, if◌then◌else◌,
  ◌==◌, Result, ok, err, Error, app_error,
}
use astra_froge.Schemas.Execution.{
  DemoTradeRecord, DemoExecutionState, DemoPlanState, DemoExecutionPlan,
}
use astra_froge.Recovery.Gate.{Gate, require_ready}
use astra_froge.Recovery.Lease.{Connection, Lease, validate_leader_or_fail_closed}

-- The order backend behind the guards, `inner`, over the state of the exchange; and what happens to
-- the leader's session before the guard asks for it: at the start of a cycle, and before each entry.
pub record Backend (N W : Type 0) : Type 0 where
  pub recovery_required : Bool
  pub inner_state : W → DemoExecutionState
  pub inner_plans : W → List (DemoExecutionPlan N)
  pub inner_activate : String → W → Result (DemoTradeRecord N) × W
  pub inner_auto_execute_pending : W → Result ℕ × W
  pub drift : Connection → Connection
  pub drift_at : String → Connection → Connection
  pub now : ℕ
  pub strip : String → String

-- The gate and the lease, which the services share with others, and the exchange.
pub record Guarded (W : Type 0) : Type 0 where
  pub gate : Gate
  pub lease : Lease
  pub exchange : W

abbrev pub moved_session : (Connection → Connection) → Lease → Lease
moved_session f none = none
moved_session f (some c) = some (f c)

-- A plan while the recovery is not complete.
abbrev pub locked_plan : {N : Type 0} → DemoExecutionPlan N → DemoExecutionPlan N
locked_plan plan = elim plan.plan_state [
  | DemoPlanState.executable ↦ record plan {
    plan_state = DemoPlanState.blocked;
    blocked_reason = some "RECOVERY_NOT_COMPLETE";
    executable_now = false;
  }
  | _ ↦ plan
]

abbrev pub is_executable : {N : Type 0} → DemoExecutionPlan N → Bool
is_executable plan = elim plan.plan_state [ DemoPlanState.executable ↦ true | _ ↦ false ]

abbrev pub is_ready_state : DemoExecutionState → Bool
is_ready_state DemoExecutionState.ready = true
is_ready_state _ = false

-- The codes that end a cycle.
abbrev pub ends_cycle : Error → Bool
ends_cycle (app_error status code) =
    code == "EXECUTION_LEADER_LOST" || code == "RECOVERY_NOT_COMPLETE"
ends_cycle _ = true

module _ {N W : Type 0} (backend : Backend N W) where
  abbrev pub kept : Guarded W → Bool × Gate × Lease → Bool × Guarded W
  kept s (valid, gate, lease) = (valid, record s { gate = gate; lease = lease })

  -- `validate_leader_or_fail_closed(self._gate, self._leader_lease)`
  unfoldable pub validate_leader : Guarded W → Bool × Guarded W
  unfolding validate_leader_or_fail_closed
  validate_leader s =
      kept s (validate_leader_or_fail_closed backend.strip backend.now s.gate s.lease)

  abbrev pub permission_of : Bool × Guarded W → Result (Unit {0}) × Guarded W
  permission_of (true, s) = (ok tt, s)
  permission_of (false, s) = (err (app_error 409 "EXECUTION_LEADER_LOST"), s)

  abbrev pub ready_permission : Result (Unit {0}) → Guarded W → Result (Unit {0}) × Guarded W
  ready_permission (ok _) s = permission_of (validate_leader s)
  ready_permission (err e) s = (err e, s)

  -- `_require_new_entry_permission`
  unfoldable pub require_new_entry_permission : Guarded W → Result (Unit {0}) × Guarded W
  unfolding require_ready validate_leader
  require_new_entry_permission s =
      if not backend.recovery_required
      then (ok tt, s)
      else ready_permission (require_ready s.gate) s

  abbrev pub entered :
      Guarded W → Result (DemoTradeRecord N) × W → Result (DemoTradeRecord N) × Guarded W
  entered s (r, exchange) = (r, record s { exchange = exchange })

  abbrev pub permitted_entry :
      String → Result (Unit {0}) × Guarded W → Result (DemoTradeRecord N) × Guarded W
  permitted_entry signal_id (ok _, s) = entered s (backend.inner_activate signal_id s.exchange)
  permitted_entry signal_id (err e, s) = (err e, s)

  -- `activate` of `LeaderValidatedExecutionService`
  unfoldable pub activate : String → Guarded W → Result (DemoTradeRecord N) × Guarded W
  unfolding require_new_entry_permission
  activate signal_id s = permitted_entry signal_id (
      require_new_entry_permission
        (record s { lease = moved_session (backend.drift_at signal_id) s.lease }))

  -- `activate` of `RecoveryGuardedExecutionService`
  unfoldable pub recovery_guarded_activate :
      String → Guarded W → Result (DemoTradeRecord N) × Guarded W
  unfolding require_ready
  recovery_guarded_activate signal_id s =
      permitted_entry signal_id
        (if backend.recovery_required then require_ready s.gate else ok tt, s)

  abbrev pub inner_cycle : Result (Unit {0}) → Guarded W → Result ℕ × Guarded W
  inner_cycle (ok _) s =
      let (r, exchange) = backend.inner_auto_execute_pending s.exchange in
      (r, record s { exchange = exchange })
  inner_cycle (err e) s = (err e, s)

  -- `auto_execute_pending` of `RecoveryGuardedExecutionService`
  unfoldable pub recovery_guarded_auto_execute_pending : Guarded W → Result ℕ × Guarded W
  unfolding require_ready
  recovery_guarded_auto_execute_pending s =
      inner_cycle (if backend.recovery_required then require_ready s.gate else ok tt) s

  -- The check of the leader at the start of `status` and of `plans`.
  unfoldable pub revalidate_leader : Guarded W → Guarded W
  unfolding validate_leader
  revalidate_leader s =
      if backend.recovery_required && s.gate.automation_ready then (validate_leader s).1 else s

  -- The state that `status` reports.
  unfoldable pub status_state : Guarded W → DemoExecutionState
  status_state s =
      if backend.recovery_required && not s.gate.automation_ready
      then DemoExecutionState.execution_locked
      else backend.inner_state s.exchange

  -- The plans that `RecoveryGuardedExecutionService.plans` lists.
  unfoldable pub guarded_plans : Guarded W → List (DemoExecutionPlan N)
  guarded_plans s =
      if not backend.recovery_required || s.gate.automation_ready
      then backend.inner_plans s.exchange
      else map locked_plan (backend.inner_plans s.exchange)

  -- The loop of `auto_execute_pending`.
  unfoldable pub activate_all : List (DemoExecutionPlan N) → ℕ → Guarded W → Result ℕ × Guarded W
  unfolding activate
  activate_all [] activated s = (ok activated, s)
  activate_all (plan ∷ plans) activated s =
      let rest = activate_all plans in
      if not (is_executable plan)
      then rest activated s
      else (let (r, s') = activate plan.signal_id s in
          elim r [
            | ok trade ↦ rest (activated + 1) s'
            | err e ↦ if ends_cycle e then (err e, s') else rest activated s'
          ])

  -- The cycle, once it is permitted: `status` and `plans` ask for the leader again.
  abbrev pub run_cycle : Guarded W → Result ℕ × Guarded W
  run_cycle s =
      let checked = revalidate_leader s in
      if not (is_ready_state (status_state checked))
      then (ok 0, checked)
      else (let planned = revalidate_leader checked in
          activate_all (guarded_plans planned) 0 planned)

  abbrev pub permitted_cycle : Result (Unit {0}) × Guarded W → Result ℕ × Guarded W
  permitted_cycle (ok _, s) = run_cycle s
  permitted_cycle (err e, s) = (err e, s)

  -- `auto_execute_pending` of `LeaderValidatedExecutionService`
  unfoldable pub auto_execute_pending : Guarded W → Result ℕ × Guarded W
  unfolding require_new_entry_permission revalidate_leader status_state guarded_plans activate_all
  auto_execute_pending s =
      permitted_cycle
        (require_new_entry_permission (record s { lease = moved_session backend.drift s.lease }))
