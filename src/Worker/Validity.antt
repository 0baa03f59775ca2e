-- ===== src/Worker/Validity.antt =====
-- What a whole cycle keeps: the exchange until a submission has durably started, and the
-- well-formedness of the queue throughout.
use astra_froge.Common.{
  ◌≡◌, refl, String, Option, none, some, List, inl, inr, Bool-cases, Result, ok, err, ◌∙◌,
}
use astra_froge.Schemas.{ExecutionCommandState, ExecutionCommand}
use astra_froge.Queue.Tables.{Tables}
use astra_froge.Queue.Rows.{Update}
use astra_froge.Queue.Invariant.{IsValid, transition-IsValid}
use astra_froge.Queue.Exclusion.{claim_next-IsValid}
use astra_froge.Schemas.Decimals.{Decimals}
use astra_froge.Worker.Actions.{Worker, Environment, stored, store_in, store, fail_gate}
use astra_froge.Worker.Cycle.{claimed_from, claim_in, claim_timeout, claim, prepare}
use astra_froge.Worker.Submission.{activate, process_one}
use astra_froge.Worker.Keeps.{IsKept, prepare_kept, process_one_kept}

-- The tables of a repository, if there is one, are valid.
abbrev pub IsValidRepository : {N : Type 0} → Option (Tables N) → Type 0
IsValidRepository none = Unit
IsValidRepository (some db) = IsValid db

module _ {N W : Type 0} (env : Environment N W) where
  stored_exchange :
      (s : Worker N W) (r : Result (ExecutionCommand N × Tables N))
      → (stored s r).1.exchange ≡ s.exchange
  stored_exchange s (ok (c, db)) = refl
  stored_exchange s (err e) = refl

  store_in_exchange :
      (id : String) (to_state : ExecutionCommandState) (reason : String) (us : List (Update N))
      (o : Option (Tables N)) (s : Worker N W)
      → (store_in env id to_state reason us o s).1.exchange ≡ s.exchange
  store_in_exchange id to_state reason us none s = refl
  store_in_exchange id to_state reason us (some db) s = elim (Bool-cases (env.fault to_state)) [
    | inl broken ↦ rw broken
    | inr works ↦ rw works (stored_exchange s _)
  ]

  claimed_exchange :
      (s : Worker N W) (r : Result (Option (ExecutionCommand N) × Tables N))
      → (claimed_from s r).1.exchange ≡ s.exchange
  claimed_exchange s (ok (c, db)) = refl
  claimed_exchange s (err e) = refl

  claim_in_exchange :
      (o : Option (Tables N)) (s : Worker N W) → (claim_in env o s).1.exchange ≡ s.exchange
  claim_in_exchange none s = refl
  claim_in_exchange (some db) s = elim (Bool-cases env.claim_fault) [
    | inl broken ↦ rw broken
    | inr works ↦ rw works (claimed_exchange s _)
  ]

  exchange-IsKept : (w : W) → IsKept env (λ s. s.exchange ≡ w)
  unfolding store claim fail_gate
  exchange-IsKept w = record {
    store_kept =
        λ id to_state reason us s h. store_in_exchange id to_state reason us s.repository s ∙ h;
    claim_kept = λ s h. claim_in_exchange s.repository s ∙ h;
    fail_kept = λ error s h. h;
    lease_kept = λ lease s h. h;
    result_kept = λ r s h. h;
    command_kept = λ c s h. h;
    cycle_kept = λ t s h. h;
  }

  stored-IsValid :
      (s : Worker N W) (r : Result (ExecutionCommand N × Tables N))
      → IsValidRepository s.repository
      → ((c : ExecutionCommand N) (db : Tables N) → r ≡ ok (c, db) → IsValid db)
      → IsValidRepository (stored s r).1.repository
  stored-IsValid s (ok (c, db)) h k = k c db refl
  stored-IsValid s (err e) h k = h

  claimed-IsValid :
      (s : Worker N W) (r : Result (Option (ExecutionCommand N) × Tables N))
      → IsValidRepository s.repository
      → ((c : Option (ExecutionCommand N)) (db : Tables N) → r ≡ ok (c, db) → IsValid db)
      → IsValidRepository (claimed_from s r).1.repository
  claimed-IsValid s (ok (c, db)) h k = k c db refl
  claimed-IsValid s (err e) h k = h

  store_in-IsValid :
      (id : String) (to_state : ExecutionCommandState) (reason : String) (us : List (Update N))
      (o : Option (Tables N)) (s : Worker N W)
      → IsValidRepository o
      → IsValidRepository s.repository
      → IsValidRepository (store_in env id to_state reason us o s).1.repository
  store_in-IsValid id to_state reason us none s v h = h
  store_in-IsValid id to_state reason us (some db) s v h = elim (Bool-cases (env.fault to_state)) [
    | inl broken ↦ rw broken h
    | inr works ↦ rw works (
        stored-IsValid s _ h (λ c db' e.
          transition-IsValid env.event_digest id to_state reason env.now us db db' c v e))
  ]

  claim_in-IsValid :
      (o : Option (Tables N)) (s : Worker N W)
      → IsValidRepository o
      → IsValidRepository s.repository
      → IsValidRepository (claim_in env o s).1.repository
  claim_in-IsValid none s v h = h
  claim_in-IsValid (some db) s v h = elim (Bool-cases env.claim_fault) [
    | inl broken ↦ rw broken h
    | inr works ↦ rw works (
        claimed-IsValid s _ h (λ c db' e.
          claim_next-IsValid env.event_digest env.token_digest env.dialect env.locked env.worker_id
            claim_timeout env.now db db' c v e))
  ]

  repository-IsKept : IsKept env (λ s. IsValidRepository s.repository)
  unfolding store claim fail_gate
  repository-IsKept = record {
    store_kept =
        λ id to_state reason us s h. store_in-IsValid id to_state reason us s.repository s h h;
    claim_kept = λ s h. claim_in-IsValid s.repository s h h;
    fail_kept = λ error s h. h;
    lease_kept = λ lease s h. h;
    result_kept = λ r s h. h;
    command_kept = λ c s h. h;
    cycle_kept = λ t s h. h;
  }

  module _ (d : Decimals N) (multiple : N) where
    -- Up to the durable start of a submission, and whatever goes wrong before it, nothing is done on
    -- the exchange.
    pub exchange-prepare : (s : Worker N W) → (prepare d multiple env s).1.exchange ≡ s.exchange
    exchange-prepare s =
        prepare_kept env (λ t. t.exchange ≡ s.exchange) (exchange-IsKept s.exchange) d multiple s
          refl

    -- A cycle of the worker keeps the queue valid, whatever the exchange, the database and the
    -- leader's session do, also where the cycle raises.
    pub process_one-IsValidRepository :
        (s : Worker N W)
        → IsValidRepository s.repository
        → IsValidRepository (process_one d multiple env s).1.repository
    unfolding activate
    process_one-IsValidRepository s h =
        process_one_kept env (λ t. IsValidRepository t.repository) repository-IsKept d multiple
          (λ id t p. p) s h
