-- ===== src/Worker/Cycle.antt =====
-- `process_one` up to the durable start of the submission: nothing here touches the exchange.
use astra_froge.Common.{
  ℕ, Bool, true, false, not, Option, none, some, [], ◌∷◌, if◌then◌else◌, Result, ok, err,
  storage_error, app_error, leader_lost,
}
use Prim.Native.Nat.{◌*◌}
use astra_froge.Schemas.{submitting, blocked, recovery_required, ExecutionCommand}
use astra_froge.Queue.Tables.{Tables}
use astra_froge.Queue.Rows.{Update}
use astra_froge.Queue.Claims.{claim_next}
use astra_froge.Recovery.Lease.{Connection, Lease}
use astra_froge.Schemas.Decimals.{Decimals}
use astra_froge.Commands.Revalidate.{revalidate}
use astra_froge.Worker.Actions.{
  Worker, Environment, Action, ◌>>=◌, ◌>>◌, lift, finish, fail_gate, store, prove_lease,
}

-- `claim_timeout_seconds`, 30 seconds
abbrev pub claim_timeout : ℕ
claim_timeout = 30 * 1000000

abbrev pub drifted : (Connection → Connection) → Lease → Lease
drifted drift none = none
drifted drift (some c) = some (drift c)

-- What is to be done with a claimed command: stop here, or submit it.
pub data Next (N : Type 0) : Type 0 where
  stop : Next N
  submit : ExecutionCommand N → Next N

abbrev pub has_repository : {N : Type 0} → Option (Tables N) → Bool
has_repository none = false
has_repository (some _) = true

module _ {N W : Type 0} where
  abbrev pub claimed_from :
      Worker N W
      → Result (Option (ExecutionCommand N) × Tables N)
      → Result (Option (ExecutionCommand N)) × Worker N W
  claimed_from s (ok (c, db)) = (ok c, record s { repository = some db })
  claimed_from s (err e) = (err e, s)

  abbrev pub claim_in :
      Environment N W → Option (Tables N) → Action N W (Option (ExecutionCommand N))
  claim_in env none s = (err (app_error 503 "EXECUTION_COMMAND_PERSISTENCE_REQUIRED"), s)
  claim_in env (some db) s =
      if env.claim_fault
      then (err storage_error, s)
      else claimed_from s (
          claim_next env.event_digest env.token_digest env.dialect env.locked env.worker_id
            claim_timeout env.now db)

  -- `self._commands.claim_next(self._worker_id)`
  unfoldable pub claim : Environment N W → Action N W (Option (ExecutionCommand N))
  claim env s = claim_in env s.repository s

  abbrev pub after_submitting :
      Environment N W
      → ExecutionCommand N
      → Result (Unit {0}) × Worker N W
      → Result (Next N) × Worker N W
  after_submitting env c (ok _, s) = (ok (submit c), s)
  after_submitting env c (err e, s) = (
    err e,
    record (fail_gate env "EXECUTION_COMMAND_PERSISTENCE_FAILED" s) {
      last_result = some "EXECUTION_COMMAND_PERSISTENCE_FAILED";
    },
  )

  -- The transition to SUBMITTING; if it raises, the gate is failed and the exception goes on.
  unfoldable pub start_submission : Environment N W → ExecutionCommand N → Action N W (Next N)
  unfolding store fail_gate
  start_submission env c s =
      after_submitting env c (store env c.command_id submitting "WORKER_SUBMISSION_STARTED" [] s)

  abbrev pub after_second_proof :
      Environment N W
      → ExecutionCommand N
      → Result (Unit {0}) × Worker N W
      → Result (Next N) × Worker N W
  after_second_proof env c (ok _, s) = start_submission env c s
  after_second_proof env c (err (leader_lost _), s) =
      (store env c.command_id recovery_required "EXECUTION_LEADER_LOST"
            (Update.failure_reason (some "EXECUTION_LEADER_LOST") ∷ [])
          >> finish "EXECUTION_LEADER_LOST" stop)
        (fail_gate env "EXECUTION_LEADER_LOST" s)
  after_second_proof env c (err e, s) = (err e, s)

  -- The second proof of the leader, after the revalidation.
  unfoldable pub second_proof : Environment N W → ExecutionCommand N → Action N W (Next N)
  unfolding prove_lease start_submission store fail_gate
  second_proof env c s =
      after_second_proof env c (prove_lease (record s { lease = drifted env.drift s.lease }))

  abbrev pub after_revalidation :
      {A : Type 0} → Environment N W → ExecutionCommand N → Result A → Action N W (Next N)
  after_revalidation env c (ok _) = second_proof env c
  after_revalidation env c (err (app_error _ code)) =
      store env c.command_id blocked code (Update.failure_reason (some code) ∷ [])
      >> finish code stop
  after_revalidation env c (err e) = lift (err e)

  module _ (d : Decimals N) (multiple : N) where
    abbrev pub after_claim : Environment N W → Option (ExecutionCommand N) → Action N W (Next N)
    after_claim env none s = finish "NO_PENDING_COMMAND" stop s
    after_claim env (some c) s =
        after_revalidation env c (revalidate d multiple env.facts c)
          (record s { last_command_id = some c.command_id })

    abbrev pub after_first_proof :
        Environment N W → Result (Unit {0}) × Worker N W → Result (Next N) × Worker N W
    after_first_proof env (ok _, s) = (claim env >>= after_claim env) s
    after_first_proof env (err (leader_lost _), s) =
        finish "EXECUTION_LEADER_LOST" stop (fail_gate env "EXECUTION_LEADER_LOST" s)
    after_first_proof env (err e, s) = (err e, s)

    -- `process_one`, from its start to the transition to SUBMITTING
    unfoldable pub prepare : Environment N W → Action N W (Next N)
    unfolding claim second_proof prove_lease fail_gate
    prepare env s₀ =
        let s = record s₀ { last_cycle_at = some env.now } in
        if not env.execution_enabled
        then finish "EXECUTION_DISABLED" stop s
        else if not (has_repository s.repository)
        then finish "PERSISTENCE_REQUIRED" stop s
        else if not s.gate.automation_ready
        then finish "RECOVERY_NOT_COMPLETE" stop s
        else after_first_proof env (prove_lease s)
