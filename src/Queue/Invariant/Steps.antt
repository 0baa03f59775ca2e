-- ===== src/Queue/Invariant/Steps.antt =====
-- The writes of `_apply_transition` and of a recovered claim keep the tables valid.
use astra_froge.Common.{
  ℕ, ◌+◌, ◌≡◌, refl, max, String, true, some, List, [], ◌∷◌, ◌++◌, arith, ◌==◌, eqb, if◌then◌else◌,
  ==_refl, ap, sym, ◌∙◌,
}
use astra_froge.Schemas.{
  ExecutionCommandState, ExecutionCommand, ExecutionCommandRow, ExecutionCommandTransitionRow,
}
use astra_froge.Queue.Transitions.{is_allowed}
use astra_froge.Queue.Tables.{Tables, max_sequence}
use astra_froge.Queue.Rows.{Update, moved_command, moved_row, add_audit_code}
use astra_froge.Queue.Repository.{write_transition}
use astra_froge.Queue.Invariant.History.{
  at, broken, replay_step, replay-append, max_sequence-append,
}
use astra_froge.Queue.Invariant.Rows.{IsMirror, HasHistory, RowIsValid}
use astra_froge.Queue.Invariant.Saves.{
  fixed_part-model_copy, IsStored, IsValid, same_state_refl, save_row-IsValid,
}

next_number :
    (s : ExecutionCommandState) (n : ℕ)
    → (if eqb (n + 1) (n + 1) then at s (n + 1) else broken) ≡ at s (max n (n + 1))
next_number s n = ground arith

module _ {N : Type 0} where
  moved_row-IsMirror :
      (to_state : ExecutionCommandState) (reason : String) (now : ℕ) (us : List (Update N))
      (row : ExecutionCommandRow N)
      → IsMirror row
      → IsMirror (moved_row to_state now (moved_command to_state reason now us row.payload) row)
  unfolding moved_row moved_command
  moved_row-IsMirror to_state reason now us row h =
      let start = record row.payload {
        state = to_state;
        updated_at = now;
        audit_codes = add_audit_code reason row.payload.audit_codes;
      } in
      let e = sym (fixed_part-model_copy us start) in
      record {
        command_id = h.command_id ∙ ap (λ (c : ExecutionCommand N). c.command_id) e;
        idempotency_key = h.idempotency_key ∙ ap (λ (c : ExecutionCommand N). c.idempotency_key) e;
        signal_id = h.signal_id ∙ ap (λ (c : ExecutionCommand N). c.signal_id) e;
        decision_key = h.decision_key ∙ ap (λ (c : ExecutionCommand N). c.decision_key) e;
        symbol = h.symbol ∙ ap (λ (c : ExecutionCommand N). c.symbol) e;
        state = ap (λ (c : ExecutionCommand N). c.state) e;
        claim_token = refl;
        worker_id = refl;
        claimed_at = refl;
        failure_reason = refl;
        entry_exchange_order_id = refl;
        stop_exchange_order_id = refl;
        take_profit_exchange_order_id = refl;
        created_at = h.created_at ∙ ap (λ (c : ExecutionCommand N). c.created_at) e;
        updated_at = ap (λ (c : ExecutionCommand N). c.updated_at) e;
        expires_at = h.expires_at ∙ ap (λ (c : ExecutionCommand N). c.expires_at) e;
      }

  -- The next transition of a command whose history is legal.
  pub HasHistory-append :
      (ts : List ExecutionCommandTransitionRow) (t : ExecutionCommandTransitionRow)
      (old new : ExecutionCommandRow N)
      → t.command_id ≡ old.command_id
      → t.from_state ≡ some old.state
      → t.to_state ≡ new.state
      → t.sequence ≡ max_sequence old.command_id ts + 1
      → new.command_id ≡ old.command_id
      → is_allowed old.state new.state ≡ true
      → HasHistory ts old
      → HasHistory (ts ++ t ∷ []) new
  unfolding replay_step
  HasHistory-append ts t old new id from to number same allowed h =
      let own : (t.command_id == new.command_id) ≡ true = rw (id, same) (==_refl old.command_id) in
      rw
        (
          replay-append, max_sequence-append, own, same, h, from, to, number, same_state_refl,
          allowed,
        )
        (next_number new.state (max_sequence old.command_id ts))

module _ (event_digest : String → ℕ → String) {N : Type 0} where
  pub write_transition-IsValid :
      (row : ExecutionCommandRow N) (to_state : ExecutionCommandState) (reason : String) (now : ℕ)
      (us : List (Update N)) (db : Tables N)
      → is_allowed row.state to_state ≡ true
      → RowIsValid db.transitions row
      → IsStored db row
      → IsValid db
      → IsValid (
          write_transition event_digest row to_state reason now
            (moved_command to_state reason now us row.payload)
            db)
  unfolding write_transition
  write_transition-IsValid row to_state reason now us db allowed valid stored h =
      save_row-IsValid
        (moved_row to_state now (moved_command to_state reason now us row.payload) row) _ db refl
        stored
        (record {
          mirror = moved_row-IsMirror to_state reason now us row valid.mirror;
          history =
              HasHistory-append db.transitions _ row
                (moved_row to_state now (moved_command to_state reason now us row.payload) row) refl
                refl refl refl refl allowed valid.history;
        })
        h
