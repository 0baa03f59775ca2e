-- ===== src/Worker/Keeps.antt =====
-- A property of the worker's state that every part of a cycle keeps is kept by the cycle.
use astra_froge.Common.{
  ℕ, String, Bool, true, false, not, Option, none, some, List, Result, ok, err, app_error,
  leader_lost, if◌then◌else◌,
}
use astra_froge.Schemas.{ExecutionCommandState, ExecutionCommand}
use astra_froge.Queue.Rows.{Update}
use astra_froge.Recovery.Lease.{Lease, require_valid}
use astra_froge.Schemas.Decimals.{Decimals}
use astra_froge.Commands.Revalidate.{revalidate}
use astra_froge.Worker.Trade.{validate_trade}
use astra_froge.Worker.Actions.{
  Worker, Environment, Action, continue, ◌>>=◌, ◌>>◌, fail_gate, finish, lift, store, prove_lease,
}
use astra_froge.Worker.Cycle.{
  Next, stop, submit, claim, start_submission, second_proof, prepare, has_repository, drifted,
  after_submitting, after_second_proof, after_revalidation, after_claim, after_first_proof,
}
use astra_froge.Worker.Submission.{
  activate, safe_failure_transition, conclude, submission, perform, process_one,
  after_failure_transition, next_step,
}

module _ {N W : Type 0} (env : Environment N W) (P : Worker N W → Type 0) where
  -- The parts of a cycle that do not touch the exchange.
  pub record IsKept : Type 0 where
    pub store_kept :
        (id : String) (to_state : ExecutionCommandState) (reason : String) (us : List (Update N))
        (s : Worker N W)
        → P s
        → P (store env id to_state reason us s).1
    pub claim_kept : (s : Worker N W) → P s → P (claim env s).1
    pub fail_kept : (error : String) (s : Worker N W) → P s → P (fail_gate env error s)
    pub lease_kept : (lease : Lease) (s : Worker N W) → P s → P (record s { lease = lease })
    pub result_kept : (r : Option String) (s : Worker N W) → P s → P (record s { last_result = r })
    pub command_kept :
        (c : Option String) (s : Worker N W) → P s → P (record s { last_command_id = c })
    pub cycle_kept : (t : Option ℕ) (s : Worker N W) → P s → P (record s { last_cycle_at = t })

module _ {N W A B : Type 0} (P : Worker N W → Type 0) where
  bind_kept :
      (m : Action N W A) (f : A → Action N W B) (s : Worker N W)
      → P (m s).1
      → ((a : A) (t : Worker N W) → P t → P (f a t).1)
      → P ((m >>= f) s).1
  bind_kept m f s h k = go (m s).0 (m s).1 h
    where
      go : (r : Result A) (t : Worker N W) → P t → P (continue r f t).1
      go (ok a) t h = k a t h
      go (err e) t h = h

module _ {N W : Type 0} (env : Environment N W) (P : Worker N W → Type 0)
    (kept : IsKept env P) where
  prove_lease_kept : (s : Worker N W) → P s → P (prove_lease s).1
  unfolding prove_lease
  prove_lease_kept s h = kept.lease_kept (require_valid s.lease).1 s h

  after_submitting_kept :
      (c : ExecutionCommand N) (r : Result (Unit {0})) (s : Worker N W)
      → P s
      → P (after_submitting env c (r, s)).1
  after_submitting_kept c (ok _) s h = h
  after_submitting_kept c (err e) s h =
      kept.result_kept _ (fail_gate env "EXECUTION_COMMAND_PERSISTENCE_FAILED" s)
        (kept.fail_kept _ s h)

  start_submission_kept :
      (c : ExecutionCommand N) (s : Worker N W) → P s → P (start_submission env c s).1
  unfolding start_submission
  start_submission_kept c s h = after_submitting_kept c _ _ (kept.store_kept c.command_id _ _ _ s h)

  -- A transition of a command that is given up, and the result of the cycle.
  give_up_kept :
      {A : Type 0} (id : String) (to_state : ExecutionCommandState) (reason code : String)
      (us : List (Update N)) (a : A) (s : Worker N W)
      → P s
      → P ((store env id to_state reason us >> finish code a) s).1
  give_up_kept id to_state reason code us a s h =
      bind_kept P (store env id to_state reason us) (λ _. finish code a) s
        (kept.store_kept id to_state reason us s h) (λ _ t p. kept.result_kept _ t p)

  after_second_proof_kept :
      (c : ExecutionCommand N) (r : Result (Unit {0})) (s : Worker N W)
      → P s
      → P (after_second_proof env c (r, s)).1
  after_second_proof_kept c (ok _) s h = start_submission_kept c s h
  after_second_proof_kept c (err (leader_lost _)) s h =
      give_up_kept _ _ _ _ _ _ (fail_gate env "EXECUTION_LEADER_LOST" s) (kept.fail_kept _ s h)
  after_second_proof_kept c (err _) s h = h

  second_proof_kept : (c : ExecutionCommand N) (s : Worker N W) → P s → P (second_proof env c s).1
  unfolding second_proof
  second_proof_kept c s h = after_second_proof_kept c _ _ (
      prove_lease_kept (record s { lease = drifted env.drift s.lease })
        (kept.lease_kept (drifted env.drift s.lease) s h))

  after_revalidation_kept :
      {A : Type 0} (c : ExecutionCommand N) (r : Result A) (s : Worker N W)
      → P s
      → P (after_revalidation env c r s).1
  after_revalidation_kept c (ok _) s h = second_proof_kept c s h
  after_revalidation_kept c (err (app_error _ code)) s h = give_up_kept _ _ _ _ _ _ s h
  after_revalidation_kept c (err _) s h = h

  after_failure_kept :
      (r : Result (Unit {0})) (s : Worker N W) → P s → P (after_failure_transition env (r, s)).1
  after_failure_kept (ok _) s h = h
  after_failure_kept (err e) s h = kept.fail_kept _ s h

  module _ (d : Decimals N) (multiple : N) where
    after_claim_kept :
        (c : Option (ExecutionCommand N)) (s : Worker N W)
        → P s
        → P (after_claim d multiple env c s).1
    after_claim_kept none s h = kept.result_kept _ s h
    after_claim_kept (some c) s h =
        after_revalidation_kept c (revalidate d multiple env.facts c) _ (kept.command_kept _ s h)

    after_first_proof_kept :
        (r : Result (Unit {0})) (s : Worker N W)
        → P s
        → P (after_first_proof d multiple env (r, s)).1
    after_first_proof_kept (ok _) s h =
        bind_kept P (claim env) (after_claim d multiple env) s (kept.claim_kept s h)
          (λ c t p. after_claim_kept c t p)
    after_first_proof_kept (err (leader_lost _)) s h =
        kept.result_kept _ (fail_gate env "EXECUTION_LEADER_LOST" s) (kept.fail_kept _ s h)
    after_first_proof_kept (err _) s h = h

    if_kept :
        {A : Type 0} (b : Bool) (x y : Result A × Worker N W)
        → P x.1
        → P y.1
        → P (if b then x else y).1
    if_kept true x y h k = h
    if_kept false x y h k = k

    pub prepare_kept : (s : Worker N W) → P s → P (prepare d multiple env s).1
    unfolding prepare
    prepare_kept s₀ h₀ =
        let s = record s₀ { last_cycle_at = some env.now } in
        let h = kept.cycle_kept (some env.now) s₀ h₀ in
        if_kept (not env.execution_enabled) _ _ (kept.result_kept _ s h) (
          if_kept (not (has_repository s.repository)) _ _ (kept.result_kept _ s h) (
            if_kept (not s.gate.automation_ready) _ _ (kept.result_kept _ s h)
              (after_first_proof_kept _ _ (prove_lease_kept s h))))

    module _ (activate_kept : (id : String) (s : Worker N W) → P s → P (activate env id s).1) where
      submission_kept :
          (c : ExecutionCommand N) (s : Worker N W) → P s → P (submission d multiple env c s).1
      unfolding submission
      submission_kept c s h =
          bind_kept P (activate env c.signal_id) _ s (activate_kept c.signal_id s h) λ trade t p.
            bind_kept P (lift (validate_trade d c trade)) _ t p λ _ t p.
              bind_kept P (store env c.command_id _ _ _) _ t (kept.store_kept _ _ _ _ t p) λ _ t p.
                bind_kept P (store env c.command_id _ _ _) _ t (kept.store_kept _ _ _ _ t p)
                  λ _ t p.
                    bind_kept P (store env c.command_id _ _ _) _ t (kept.store_kept _ _ _ _ t p)
                      (λ _ t p. kept.store_kept _ _ _ _ t p)

      safe_failure_kept :
          (id : String) (to_state : ExecutionCommandState) (reason : String) (s : Worker N W)
          → P s
          → P (safe_failure_transition env id to_state reason s).1
      unfolding safe_failure_transition
      safe_failure_kept id to_state reason s h =
          after_failure_kept _ _ (kept.store_kept id to_state reason _ s h)

      failed_kept :
          (id : String) (to_state : ExecutionCommandState) (reason code : String) (s : Worker N W)
          → P s
          → P ((safe_failure_transition env id to_state reason >> finish {A = ℕ} code 0) s).1
      failed_kept id to_state reason code s h =
          bind_kept P (safe_failure_transition env id to_state reason) (λ _. finish {A = ℕ} code 0)
            s (safe_failure_kept id to_state reason s h) (λ _ t p. kept.result_kept _ t p)

      conclude_kept :
          (c : ExecutionCommand N) (r : Result (Unit {0})) (s : Worker N W)
          → P s
          → P (conclude env c (r, s)).1
      unfolding conclude
      conclude_kept c (ok _) s h = kept.result_kept _ s h
      conclude_kept c (err (app_error _ code)) s h = failed_kept _ _ _ _ s h
      conclude_kept c (err _) s h = failed_kept _ _ _ _ s h

      next_step_kept : (n : Next N) (s : Worker N W) → P s → P (next_step d multiple env n s).1
      unfolding perform
      next_step_kept stop s h = h
      next_step_kept (submit c) s h = conclude_kept c _ _ (submission_kept c s h)

      pub process_one_kept : (s : Worker N W) → P s → P (process_one d multiple env s).1
      unfolding process_one
      process_one_kept s h =
          bind_kept P (prepare d multiple env) (next_step d multiple env) s (prepare_kept s h)
            (λ n t p. next_step_kept n t p)
