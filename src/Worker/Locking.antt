-- ===== src/Worker/Locking.antt =====
-- An exception that leaves a submission leaves the recovery gate locked.
use astra_froge.Common.{
  ℕ, ◌≡◌, refl, String, false, Result, ok, err, sym, ◌∙◌, Error, app_error, err_ne_ok, ap,
}
use astra_froge.Schemas.{ExecutionCommandState, recovery_required, ExecutionCommand}
use astra_froge.Recovery.Gate.{fail}
use astra_froge.Schemas.Decimals.{Decimals}
use astra_froge.Worker.Actions.{Worker, Environment, Action, fail_gate, continue, ◌>>◌, finish}
use astra_froge.Worker.Submission.{
  safe_failure_transition, after_failure_transition, conclude, perform, submission, failure_state,
}
use astra_froge.Worker.Outcomes.{pair_inj}

err_inj : {A : Type 0} {e e' : Error} → ◌≡◌ {A = Result A} (err e) (err e') → e ≡ e'
err_inj h = cc

module _ {N W : Type 0} (env : Environment N W) where
  -- A raise of the failure transition leaves the gate failed.
  after_failure-locked :
      (r : Result (Unit {0})) (s t : Worker N W) (e : Error)
      → after_failure_transition env (r, s) ≡ (err e, t)
      → t.gate.automation_ready ≡ false
  unfolding fail_gate fail
  after_failure-locked (ok u) s t e h = absurd (err_ne_ok (sym (pair_inj h).0))
  after_failure-locked (err x) s t e h =
      ap (λ (w : Worker N W). w.gate.automation_ready) (sym (pair_inj h).1)

  finish_inv :
      (m : Action N W (Unit {0})) (code : String) (s t : Worker N W) (e : Error)
      → (m >> finish {A = ℕ} code 0) s ≡ (err e, t)
      → m s ≡ (err e, t)
  finish_inv m code s t e h = go (m s).0 (m s).1 refl h
    where
      go :
          (r : Result (Unit {0})) (u : Worker N W)
          → m s ≡ (r, u)
          → continue r (λ _. finish {A = ℕ} code 0) u ≡ (err e, t)
          → m s ≡ (err e, t)
      go (ok a) u p q = absurd (err_ne_ok (sym (pair_inj q).0))
      go (err x) u p q = p ∙ (λ i. (err (err_inj (pair_inj q).0 i), (pair_inj q).1 i))

  safe_failure-locked :
      (id : String) (to_state : ExecutionCommandState) (reason : String) (s t : Worker N W)
      (e : Error)
      → safe_failure_transition env id to_state reason s ≡ (err e, t)
      → t.gate.automation_ready ≡ false
  unfolding safe_failure_transition
  safe_failure-locked id to_state reason s t e h = after_failure-locked _ _ t e h

  conclude-locked :
      (c : ExecutionCommand N) (r : Result (Unit {0})) (s t : Worker N W) (e : Error)
      → conclude env c (r, s) ≡ (err e, t)
      → t.gate.automation_ready ≡ false
  unfolding conclude
  conclude-locked c (ok u) s t e h = absurd (err_ne_ok (sym (pair_inj h).0))
  conclude-locked c (err (app_error status code)) s t e h =
      safe_failure-locked c.command_id (failure_state code) code s t e (
        finish_inv (safe_failure_transition env c.command_id (failure_state code) code) code s t e
          h)
  conclude-locked c (err _) s t e h =
      safe_failure-locked c.command_id recovery_required "WORKER_UNEXPECTED_FAILURE" s t e (
        finish_inv
          (safe_failure_transition env c.command_id recovery_required "WORKER_UNEXPECTED_FAILURE")
          "WORKER_UNEXPECTED_FAILURE" s t e h)

  -- A submission that raises leaves the recovery gate locked.
  pub perform-locked :
      (d : Decimals N) (multiple : N) (c : ExecutionCommand N) (s t : Worker N W) (e : Error)
      → perform d multiple env c s ≡ (err e, t)
      → t.gate.automation_ready ≡ false
  unfolding perform
  perform-locked d multiple c s t e h =
      conclude-locked c (submission d multiple env c s).0 (submission d multiple env c s).1 t e h
