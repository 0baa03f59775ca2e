-- ===== src/Worker/Authority.antt =====
-- What must hold before a command is submitted, and what a raise does to the gate.
use astra_froge.Common.{
  ◌≡◌, refl, String, Bool, true, false, not, Option, none, some, [], ◌∷◌, inl, inr, Bool-cases,
  Result, ok, err, if◌then◌else◌, subst, sym, ◌∙◌, app_error, leader_lost, err_ne_ok, ap,
}
use astra_froge.Schemas.{submitting, recovery_required, ExecutionCommand}
use astra_froge.Queue.Tables.{Tables}
use astra_froge.Queue.Rows.{Update}
use astra_froge.Recovery.Lease.{Lease, require_valid, IsLeader}
use astra_froge.Schemas.Decimals.{Decimals}
use astra_froge.Schemas.Signals.{SignalRecord}
use astra_froge.Schemas.Risk.{RiskAssessment}
use astra_froge.Commands.Facts.{AccountSnapshot}
use astra_froge.Commands.Revalidate.{revalidate}
use astra_froge.Worker.Actions.{
  Worker, Environment, Action, store, fail_gate, prove_lease, ◌>>◌, finish,
}
use astra_froge.Worker.Cycle.{
  Next, stop, submit, claimed_from, claim_in, claim, start_submission, second_proof, prepare,
  has_repository, drifted, after_submitting, after_second_proof, after_revalidation, after_claim,
  after_first_proof,
}
use astra_froge.Recovery.Entries.{require_valid-IsLeader}
use astra_froge.Worker.Outcomes.{IsIn, pair_inj, bind_inv, store-IsIn}

passed_test :
    {A : Type 0} (b : Bool) (x y z : A)
    → (x ≡ z → ⊥)
    → (if not b then x else y) ≡ z
    → (b ≡ true) × (y ≡ z)
passed_test true x y z stops e = (refl, e)
passed_test false x y z stops e = absurd (stops e)

stop_ne_submit :
    {N : Type 0} {c : ExecutionCommand N} → ◌≡◌ {A = Result (Next N)} (ok stop) (ok (submit c)) → ⊥
stop_ne_submit e = cc

submit_inj :
    {N : Type 0} {c c' : ExecutionCommand N}
    → ◌≡◌ {A = Result (Next N)} (ok (submit c)) (ok (submit c'))
    → c ≡ c'
submit_inj e = cc

module _ {N W : Type 0} (env : Environment N W) where
  after_submitting-inv :
      (c c' : ExecutionCommand N) (r : Result (Unit {0})) (s t : Worker N W)
      → after_submitting env c (r, s) ≡ (ok (submit c'), t)
      → (u : Unit {0}) × (r ≡ ok u) × (c ≡ c') × (s ≡ t)
  after_submitting-inv c c' (ok u) s t e = (u, refl, submit_inj (pair_inj e).0, (pair_inj e).1)
  after_submitting-inv c c' (err x) s t e = absurd (err_ne_ok (pair_inj e).0)

  start_submission-inv :
      (c c' : ExecutionCommand N) (s t : Worker N W)
      → start_submission env c s ≡ (ok (submit c'), t)
      → (c ≡ c') × IsIn c.command_id submitting t
  unfolding start_submission
  start_submission-inv c c' s t e =
      let started = store env c.command_id submitting "WORKER_SUBMISSION_STARTED" [] s in
      let (u, p, same, state) = after_submitting-inv c c' started.0 started.1 t e in
      (same, store-IsIn env c.command_id submitting _ _ s t u (λ i. (p i, state i)))

  no_submission :
      {A : Type 0} (m : Action N W A) (code : String) (s t : Worker N W) (c : ExecutionCommand N)
      → (m >> finish {A = Next N} code stop) s ≡ (ok (submit c), t)
      → ⊥
  no_submission m code s t c e =
      let (u, s₁, p, q) = bind_inv m (λ _. finish {A = Next N} code stop) s t (submit c) e in
      stop_ne_submit (pair_inj q).0

  after_second_proof-inv :
      (c c' : ExecutionCommand N) (r : Result (Unit {0})) (s t : Worker N W)
      → after_second_proof env c (r, s) ≡ (ok (submit c'), t)
      → (u : Unit {0}) × (r ≡ ok u) × (c ≡ c') × IsIn c.command_id submitting t
  after_second_proof-inv c c' (ok u) s t e =
      let (same, there) = start_submission-inv c c' s t e in (u, refl, same, there)
  after_second_proof-inv c c' (err (leader_lost m)) s t e = absurd (
      no_submission
        (store env c.command_id recovery_required "EXECUTION_LEADER_LOST"
          (Update.failure_reason (some "EXECUTION_LEADER_LOST") ∷ []))
        "EXECUTION_LEADER_LOST" (fail_gate env "EXECUTION_LEADER_LOST" s) t c' e)
  after_second_proof-inv c c' (err _) s t e = absurd (err_ne_ok (pair_inj e).0)

  proved-IsLeader :
      (s : Worker N W) (u : Unit {0})
      → (prove_lease s).0 ≡ ok u
      → IsLeader s.lease × (s.lease ≡ (prove_lease s).1.lease)
  unfolding prove_lease
  proved-IsLeader s u p = require_valid-IsLeader s.lease _ u (λ i. (p i, (require_valid s.lease).1))

  second_proof-inv :
      (c c' : ExecutionCommand N) (s t : Worker N W)
      → second_proof env c s ≡ (ok (submit c'), t)
      → (c ≡ c') × IsIn c.command_id submitting t × IsLeader (drifted env.drift s.lease)
  unfolding second_proof
  second_proof-inv c c' s t e =
      let s' = record s { lease = drifted env.drift s.lease } in
      let (u, p, same, there) =
        after_second_proof-inv c c' (prove_lease s').0 (prove_lease s').1 t e in
      (same, there, (proved-IsLeader s' u p).0)

  after_revalidation-inv :
      {A : Type 0} (c c' : ExecutionCommand N) (r : Result A) (s t : Worker N W)
      → after_revalidation env c r s ≡ (ok (submit c'), t)
      → (a : A) × (r ≡ ok a)
        × (c ≡ c')
        × IsIn c.command_id submitting t
        × IsLeader (drifted env.drift s.lease)
  after_revalidation-inv c c' (ok a) s t e =
      let (same, there, leader) = second_proof-inv c c' s t e in (a, refl, same, there, leader)
  after_revalidation-inv c c' (err (app_error status code)) s t e = absurd (
      no_submission (store env c.command_id _ code (Update.failure_reason (some code) ∷ [])) code s
        t c' e)
  after_revalidation-inv c c' (err _) s t e = absurd (err_ne_ok (pair_inj e).0)

  claimed_lease :
      (s : Worker N W) (r : Result (Option (ExecutionCommand N) × Tables N))
      → (claimed_from s r).1.lease ≡ s.lease
  claimed_lease s (ok (c, db)) = refl
  claimed_lease s (err e) = refl

  claim_in_lease : (o : Option (Tables N)) (s : Worker N W) → (claim_in env o s).1.lease ≡ s.lease
  claim_in_lease none s = refl
  claim_in_lease (some db) s = elim (Bool-cases env.claim_fault) [
    | inl broken ↦ rw broken
    | inr works ↦ rw works (claimed_lease s _)
  ]

  lease-claim : (s : Worker N W) → (claim env s).1.lease ≡ s.lease
  unfolding claim
  lease-claim s = claim_in_lease s.repository s

  module _ (d : Decimals N) (multiple : N) where
    -- Everything that stands behind a submission of `c` out of the state `s`, which leads to `t`.
    pub record IsAuthorised (s t : Worker N W) (c : ExecutionCommand N) : Type 0 where
      -- execution is enabled, the gate is ready and persistence is there
      pub enabled : env.execution_enabled ≡ true
      pub ready : s.gate.automation_ready ≡ true
      -- the leader's session was proved at the start and again after the revalidation
      pub leader : IsLeader s.lease
      pub still_leader : IsLeader (drifted env.drift s.lease)
      -- the command passed its revalidation
      pub revalidated :
          (x : SignalRecord N × RiskAssessment N × AccountSnapshot N) × (revalidate d multiple
              env.facts c
            ≡ ok x)
      -- its durable row says SUBMITTING, and the exchange has not been touched
      pub durable : IsIn c.command_id submitting t

    after_claim-inv :
        (o : Option (ExecutionCommand N)) (c : ExecutionCommand N) (s t : Worker N W)
        → after_claim d multiple env o s ≡ (ok (submit c), t)
        → (x : SignalRecord N × RiskAssessment N × AccountSnapshot N) × (revalidate d multiple
              env.facts c
            ≡ ok x)
          × IsIn c.command_id submitting t
          × IsLeader (drifted env.drift s.lease)
    after_claim-inv none c s t e = absurd (stop_ne_submit (pair_inj e).0)
    after_claim-inv (some c₀) c s t e =
        let (x, passed, same, there, leader) =
          after_revalidation-inv c₀ c (revalidate d multiple env.facts c₀)
            (record s { last_command_id = some c₀.command_id }) t e in
        (
          x,
          subst (λ (k : ExecutionCommand N). revalidate d multiple env.facts k ≡ ok x) same passed,
          subst (λ (k : ExecutionCommand N). IsIn k.command_id submitting t) same there,
          leader,
        )

    after_first_proof-inv :
        (c : ExecutionCommand N) (r : Result (Unit {0})) (s t : Worker N W)
        → after_first_proof d multiple env (r, s) ≡ (ok (submit c), t)
        → (u : Unit {0}) × (r ≡ ok u)
          × (x : SignalRecord N × RiskAssessment N × AccountSnapshot N) × (revalidate d multiple
                env.facts c
              ≡ ok x)
          × IsIn c.command_id submitting t
          × IsLeader (drifted env.drift s.lease)
    after_first_proof-inv c (ok u) s t e =
        let (o, s₁, p, q) = bind_inv (claim env) (after_claim d multiple env) s t (submit c) e in
        let (x, passed, there, leader) = after_claim-inv o c s₁ t q in
        let kept : s₁.lease ≡ s.lease =
          ap (λ (z : Result (Option (ExecutionCommand N)) × Worker N W). z.1.lease) (sym p)
          ∙ lease-claim s in
        (
          u,
          refl,
          x,
          passed,
          there,
          subst (λ (l : Lease). IsLeader (drifted env.drift l)) kept leader,
        )
    after_first_proof-inv c (err (leader_lost m)) s t e = absurd (stop_ne_submit (pair_inj e).0)
    after_first_proof-inv c (err _) s t e = absurd (err_ne_ok (pair_inj e).0)

    -- A command is submitted only if execution is enabled, the gate is ready, the leader's session
    -- is proved at the start and again after the command's revalidation, that revalidation succeeds,
    -- and the durable row says SUBMITTING.
    pub prepare-IsAuthorised :
        (c : ExecutionCommand N) (s t : Worker N W)
        → prepare d multiple env s ≡ (ok (submit c), t)
        → IsAuthorised s t c
    unfolding prepare
    prepare-IsAuthorised c s₀ t e =
        let s = record s₀ { last_cycle_at = some env.now } in
        let stops = λ (code : String) (p : finish {A = Next N} code stop s ≡ (ok (submit c), t)).
          stop_ne_submit (pair_inj p).0 in
        let (on, e₁) = passed_test env.execution_enabled _ _ _ (stops "EXECUTION_DISABLED") e in
        let (durable, e₂) =
          passed_test (has_repository s.repository) _ _ _ (stops "PERSISTENCE_REQUIRED") e₁ in
        let (open_gate, e₃) =
          passed_test s.gate.automation_ready _ _ _ (stops "RECOVERY_NOT_COMPLETE") e₂ in
        let (u, p, x, passed, there, still) =
          after_first_proof-inv c (prove_lease s).0 (prove_lease s).1 t e₃ in
        let (leader, same) = proved-IsLeader s u p in
        record {
          enabled = on;
          ready = open_gate;
          leader = leader;
          still_leader = subst (λ (l : Lease). IsLeader (drifted env.drift l)) (sym same) still;
          revalidated = (x, passed);
          durable = there;
        }
