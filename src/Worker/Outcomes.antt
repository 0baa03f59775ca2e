-- ===== src/Worker/Outcomes.antt =====
-- What a submission leaves behind, by how it ends.
use astra_froge.Common.{
  ℕ, ◌≡◌, refl, String, Option, none, some, List, [], ◌∷◌, contains, inl, inr, Bool-cases, ◌⊎◌,
  Result, ok, err, subst, sym, app_error, err_ne_ok, ap, ok_inj,
}
use astra_froge.Schemas.{
  ExecutionCommandState, completed, blocked, recovery_required, ExecutionCommand,
  ExecutionCommandRow,
}
use astra_froge.Queue.Tables.{Tables, locked_row}
use astra_froge.Queue.Rows.{Update}
use astra_froge.Queue.Repository.{transition}
use astra_froge.Queue.Effects.{transition-IsMoved, transition_found}
use astra_froge.Schemas.Decimals.{Decimals}
use astra_froge.Worker.Trade.{validate_trade}
use astra_froge.Worker.Actions.{
  Worker, Environment, Action, stored, store_in, store, continue, ◌>>=◌, ◌>>◌, finish, lift,
}
use astra_froge.Worker.Submission.{
  activate, blocked_pre_submission_codes, failure_state, safe_failure_transition,
  after_failure_transition, conclude, submission, perform,
}

module _ {N W : Type 0} where
  -- The durable row of a command is in a state.
  pub record IsIn (id : String) (to_state : ExecutionCommandState) (s : Worker N W) : Type 0 where
    pub tables : Tables N
    pub row : ExecutionCommandRow N
    pub available : s.repository ≡ some tables
    pub durable : locked_row id tables ≡ some row
    pub state : row.state ≡ to_state

  pub pair_inj :
      {A : Type 0} {r r' : Result A} {s s' : Worker N W}
      → ◌≡◌ {A = Result A × Worker N W} (r, s) (r', s')
      → (r ≡ r') × (s ≡ s')
  pair_inj e = (ap (λ p. p.0) e, ap (λ p. p.1) e)

  IsIn-result :
      (id : String) (to_state : ExecutionCommandState) (result : Option String) (s : Worker N W)
      → IsIn id to_state s
      → IsIn id to_state (record s { last_result = result })
  IsIn-result id to_state result s h = record {
    tables = h.tables;
    row = h.row;
    available = h.available;
    durable = h.durable;
    state = h.state;
  }

  pub bind_inv :
      {A B : Type 0} (m : Action N W A) (f : A → Action N W B) (s t : Worker N W) (b : B)
      → (m >>= f) s ≡ (ok b, t)
      → (a : A) × (u : Worker N W) × (m s ≡ (ok a, u)) × (f a u ≡ (ok b, t))
  bind_inv {A} {B} m f s t b e = go (m s).0 (m s).1 refl e
    where
      go :
          (r : Result A) (u : Worker N W)
          → m s ≡ (r, u)
          → continue r f u ≡ (ok b, t)
          → (a : A) × (u : Worker N W) × (m s ≡ (ok a, u)) × (f a u ≡ (ok b, t))
      go (ok a) u p q = (a, u, p, q)
      go (err x) u p q = absurd (err_ne_ok (pair_inj q).0)

module _ {N W : Type 0} (env : Environment N W) where
  stored-IsIn :
      (id : String) (to_state : ExecutionCommandState) (reason : String) (us : List (Update N))
      (db : Tables N) (s t : Worker N W) (u : Unit {0}) (r : Result (ExecutionCommand N × Tables N))
      → transition env.event_digest id to_state reason env.now us db ≡ r
      → stored s r ≡ (ok u, t)
      → IsIn id to_state t
  stored-IsIn id to_state reason us db s t u (ok (c, db')) moved e =
      let (old, found) =
        transition_found env.event_digest id to_state reason env.now us db db' c moved in
      let m =
        transition-IsMoved env.event_digest id to_state reason env.now us db db' old c found
          moved in
      subst (IsIn id to_state) (pair_inj e).1 (record {
        tables = db';
        row = m.stored.0;
        available = refl;
        durable = m.stored.1;
        state = m.stored.2;
      })
  stored-IsIn id to_state reason us db s t u (err x) moved e = absurd (err_ne_ok (pair_inj e).0)

  store_in-IsIn :
      (id : String) (to_state : ExecutionCommandState) (reason : String) (us : List (Update N))
      (o : Option (Tables N)) (s t : Worker N W) (u : Unit {0})
      → store_in env id to_state reason us o s ≡ (ok u, t)
      → IsIn id to_state t
  store_in-IsIn id to_state reason us none s t u e = absurd (err_ne_ok (pair_inj e).0)
  store_in-IsIn id to_state reason us (some db) s t u e = elim (Bool-cases (env.fault to_state)) [
    | inl broken ↦ absurd (err_ne_ok (pair_inj (rw broken at e)).0)
    | inr works ↦ stored-IsIn id to_state reason us db s t u _ refl (rw works at e)
  ]

  pub store-IsIn :
      (id : String) (to_state : ExecutionCommandState) (reason : String) (us : List (Update N))
      (s t : Worker N W) (u : Unit {0})
      → store env id to_state reason us s ≡ (ok u, t)
      → IsIn id to_state t
  unfolding store
  store-IsIn id to_state reason us s t u e =
      store_in-IsIn id to_state reason us s.repository s t u e

  after_failure-IsIn :
      (id : String) (to_state : ExecutionCommandState) (r : Result (Unit {0})) (s t : Worker N W)
      (u : Unit {0})
      → ((v : Unit {0}) → r ≡ ok v → IsIn id to_state s)
      → after_failure_transition env (r, s) ≡ (ok u, t)
      → IsIn id to_state t
  after_failure-IsIn id to_state (ok v) s t u h e =
      subst (IsIn id to_state) (pair_inj e).1 (h v refl)
  after_failure-IsIn id to_state (err x) s t u h e = absurd (err_ne_ok (pair_inj e).0)

  safe_failure-IsIn :
      (id : String) (to_state : ExecutionCommandState) (reason : String) (s t : Worker N W)
      (u : Unit {0})
      → safe_failure_transition env id to_state reason s ≡ (ok u, t)
      → IsIn id to_state t
  unfolding safe_failure_transition
  safe_failure-IsIn id to_state reason s t u e =
      after_failure-IsIn id to_state _ _ t u
        (λ v p. store-IsIn id to_state reason _ s _ v (λ i.
          (p i, (store env id to_state reason (Update.failure_reason (some reason) ∷ []) s).1)))
        e

  -- How a submission that does not raise has ended: the command is COMPLETED and counted, or it is
  -- BLOCKED or RECOVERY_REQUIRED and not counted.
  pub record IsSettled (id : String) (n : ℕ) (t : Worker N W) : Type 0 where
    pub settled :
        ((n ≡ 1) × IsIn id completed t)
        ⊎ ((n ≡ 0) × (IsIn id blocked t ⊎ IsIn id recovery_required t))

  failure_cases :
      (id code : String) (t : Worker N W)
      → IsIn id (failure_state code) t
      → IsIn id blocked t ⊎ IsIn id recovery_required t
  failure_cases id code t h = elim (Bool-cases (contains blocked_pre_submission_codes code)) [
    | inl listed ↦ inl (rw listed at h)
    | inr unlisted ↦ inr (rw unlisted at h)
  ]

  given_up :
      (id : String) (to_state : ExecutionCommandState) (reason code : String) (s t : Worker N W)
      (n : ℕ)
      → (safe_failure_transition env id to_state reason >> finish {A = ℕ} code 0) s ≡ (ok n, t)
      → (n ≡ 0) × IsIn id to_state t
  given_up id to_state reason code s t n e =
      let (u, s₁, p, q) =
        bind_inv (safe_failure_transition env id to_state reason) (λ _. finish {A = ℕ} code 0) s t n
          e in
      let last = pair_inj q in
      (
        sym (ok_inj last.0),
        subst (IsIn id to_state) last.1 (
            IsIn-result id to_state (some code) s₁ (safe_failure-IsIn id to_state reason s s₁ u p)),
      )

  conclude-IsSettled :
      (c : ExecutionCommand N) (r : Result (Unit {0})) (s t : Worker N W) (n : ℕ)
      → ((u : Unit {0}) → r ≡ ok u → IsIn c.command_id completed s)
      → conclude env c (r, s) ≡ (ok n, t)
      → IsSettled c.command_id n t
  unfolding conclude
  conclude-IsSettled c (ok u) s t n h e =
      let last = pair_inj e in
      record {
        settled = inl (
          sym (ok_inj last.0),
          subst (IsIn c.command_id completed) last.1
              (IsIn-result c.command_id completed (some "COMPLETED") s (h u refl)),
        );
      }
  conclude-IsSettled c (err (app_error status code)) s t n h e =
      let (zero_count, there) = given_up c.command_id (failure_state code) code code s t n e in
      record { settled = inr (zero_count, failure_cases c.command_id code t there) }
  conclude-IsSettled c (err _) s t n h e =
      let (zero_count, there) =
        given_up c.command_id recovery_required "WORKER_UNEXPECTED_FAILURE"
          "WORKER_UNEXPECTED_FAILURE" s t n e in
      record { settled = inr (zero_count, inr there) }

  module _ (d : Decimals N) (multiple : N) where
    submission-IsIn :
        (c : ExecutionCommand N) (s t : Worker N W) (u : Unit {0})
        → submission d multiple env c s ≡ (ok u, t)
        → IsIn c.command_id completed t
    unfolding submission
    submission-IsIn c s t u e =
        let (trade, s₁, _, e₁) = bind_inv (activate env c.signal_id) _ s t u e in
        let (_, s₂, _, e₂) = bind_inv (lift (validate_trade d c trade)) _ s₁ t u e₁ in
        let (_, s₃, _, e₃) = bind_inv (store env c.command_id _ _ _) _ s₂ t u e₂ in
        let (_, s₄, _, e₄) = bind_inv (store env c.command_id _ _ _) _ s₃ t u e₃ in
        let (_, s₅, _, e₅) = bind_inv (store env c.command_id _ _ _) _ s₄ t u e₄ in
        store-IsIn c.command_id completed _ _ s₅ t u e₅

    -- A submission that does not raise counts 1 exactly when the durable row of its command is
    -- COMPLETED; otherwise it counts 0 and the row is BLOCKED or RECOVERY_REQUIRED.
    pub perform-IsSettled :
        (c : ExecutionCommand N) (s t : Worker N W) (n : ℕ)
        → perform d multiple env c s ≡ (ok n, t)
        → IsSettled c.command_id n t
    unfolding perform
    perform-IsSettled c s t n e =
        conclude-IsSettled c _ _ t n
          (λ u p. submission-IsIn c s _ u (λ i. (p i, (submission d multiple env c s).1))) e
