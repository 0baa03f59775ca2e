-- ===== src/Queue/Invariant/Methods.antt =====
-- `transition` and `create` keep the tables valid.
use astra_froge.Common.{
  ℕ, ◌≡◌, refl, String, true, false, none, some, List, [], ◌∷◌, ◌++◌, arith, ◌==◌, inl, inr,
  Bool-cases, Option-cases, All, All-map, All-append, All-find?, any, find?, ==_refl, ap, sym, ok,
  subst, ok_tables, err_ne_ok, some_inj, or_true, or-false, any-append, ==_ne_sym,
}
use astra_froge.Schemas.{
  ExecutionCommandState, pending, same_state, ExecutionCommand, ExecutionCommandRow,
  ExecutionCommandTransitionRow,
}
use astra_froge.Queue.Transitions.{is_allowed}
use astra_froge.Queue.Tables.{Tables, has_id, locked_row, by_identity, conflicts}
use astra_froge.Queue.Rows.{Update, new_row}
use astra_froge.Queue.Repository.{
  apply_transition, transition, insert_command, insert_conflict, create, Dialect,
}
use astra_froge.Queue.Invariant.History.{
  fresh, replay_step, replay-append, replay_absent, max_sequence_absent, max_sequence-append,
}
use astra_froge.Queue.Invariant.Rows.{IsMirror, HasHistory, RowIsValid, RowIsValid-append}
use astra_froge.Queue.Invariant.Saves.{IsStored, IsDistinct, IsValid}
use astra_froge.Queue.Invariant.Steps.{write_transition-IsValid}

module _ {N : Type 0} where
  pub found_is_stored :
      (id : String) (rows : List (ExecutionCommandRow N)) (row : ExecutionCommandRow N)
      → find? (has_id id) rows ≡ some row
      → any (has_id row.command_id) rows ≡ true
  found_is_stored id [] row e = cc
  found_is_stored id (r ∷ rows) row e = elim (Bool-cases (has_id id r)) [
    | inl same ↦
        let first : r ≡ row = some_inj (rw same at e) in
        rw (ap (λ (x : ExecutionCommandRow N). x.command_id) (sym first), ==_refl r.command_id)
    | inr other ↦
        rw (found_is_stored id rows row (rw other at e)) (or_true (has_id row.command_id r))
  ]

module _ (event_digest : String → ℕ → String) {N : Type 0} where
  -- The outcomes of `_apply_transition`: the same state changes nothing, a pair outside the table
  -- raises, and any other pair is written.
  pub apply_transition-IsValid :
      (row : ExecutionCommandRow N) (to_state : ExecutionCommandState) (reason : String) (now : ℕ)
      (us : List (Update N)) (db db' : Tables N) (c : ExecutionCommand N)
      → RowIsValid db.transitions row
      → IsStored db row
      → IsValid db
      → apply_transition event_digest row to_state reason now us db ≡ ok (c, db')
      → IsValid db'
  unfolding apply_transition
  apply_transition-IsValid row to_state reason now us db db' c valid stored h e =
      elim (Bool-cases (same_state to_state row.state)) [
        | inl same ↦ subst IsValid (ok_tables (rw same at e)) h
        | inr other ↦ elim (Bool-cases (is_allowed row.state to_state)) [
          | inl allowed ↦ subst IsValid (ok_tables (rw (other, allowed) at e)) (
              write_transition-IsValid event_digest row to_state reason now us db allowed valid
                stored h)
          | inr refused ↦ absurd (err_ne_ok (rw (other, refused) at e))
        ]
      ]

  -- Whatever `transition` is asked on valid tables, the tables that it commits are valid.
  pub transition-IsValid :
      (id : String) (to_state : ExecutionCommandState) (reason : String) (now : ℕ)
      (us : List (Update N)) (db db' : Tables N) (c : ExecutionCommand N)
      → IsValid db
      → transition event_digest id to_state reason now us db ≡ ok (c, db')
      → IsValid db'
  unfolding transition locked_row
  transition-IsValid id to_state reason now us db db' c h e =
      elim (Option-cases (find? (has_id id) db.commands)) [
        | inl missing ↦ absurd (err_ne_ok (rw (missing, transition) at e))
        | inr (row, found) ↦
            apply_transition-IsValid row to_state reason now us db db' c
              (All-find? (RowIsValid db.transitions) (has_id id) db.commands row h.rows found).0
              (found_is_stored id db.commands row found) h (rw (found, transition) at e)
      ]

module _ {N : Type 0} where
  IsDistinct-append :
      (new : ExecutionCommandRow N) (rows : List (ExecutionCommandRow N))
      → any (has_id new.command_id) rows ≡ false
      → IsDistinct rows
      → IsDistinct (rows ++ new ∷ [])
  IsDistinct-append new [] absent h = (refl, tt)
  IsDistinct-append new (row ∷ rows) absent h =
      let (other, rest) = or-false _ _ absent in
      (
        rw (any-append, h.0) (==_ne_sym row.command_id new.command_id other),
        IsDistinct-append new rows rest h.1,
      )

  -- A row that breaks no constraint has a new primary key.
  no_conflict :
      (new : ExecutionCommandRow N) (rows : List (ExecutionCommandRow N))
      → any (conflicts new) rows ≡ false
      → any (has_id new.command_id) rows ≡ false
  no_conflict new [] h = refl
  no_conflict new (row ∷ rows) h =
      let (first, rest) = or-false (conflicts new row) _ h in
      let (keys, _) = or-false _ _ first in
      rw (or-false (row.command_id == new.command_id) _ keys).0 (no_conflict new rows rest)

  unrelated :
      (ts : List ExecutionCommandTransitionRow) (t : ExecutionCommandTransitionRow)
      (rows : List (ExecutionCommandRow N))
      → any (has_id t.command_id) rows ≡ false
      → All (RowIsValid ts) rows
      → All (RowIsValid (ts ++ t ∷ [])) rows
  unrelated ts t [] absent h = tt
  unrelated ts t (row ∷ rows) absent h =
      let (other, rest) = or-false _ _ absent in
      (
        RowIsValid-append ts t row (==_ne_sym row.command_id t.command_id other) h.0,
        unrelated ts t rows rest h.1,
      )

  new_row-IsMirror : (command : ExecutionCommand N) → IsMirror (new_row command)
  unfolding new_row
  new_row-IsMirror command = record {
    command_id = refl;
    idempotency_key = refl;
    signal_id = refl;
    decision_key = refl;
    symbol = refl;
    state = refl;
    claim_token = refl;
    worker_id = refl;
    claimed_at = refl;
    failure_reason = refl;
    entry_exchange_order_id = refl;
    stop_exchange_order_id = refl;
    take_profit_exchange_order_id = refl;
    created_at = refl;
    updated_at = refl;
    expires_at = refl;
  }

  -- The first transition of a command that none names yet.
  first_history :
      (new : ExecutionCommandRow N) (t : ExecutionCommandTransitionRow) (db : Tables N)
      → new.state ≡ pending
      → t.command_id ≡ new.command_id
      → t.from_state ≡ none
      → t.to_state ≡ pending
      → t.sequence ≡ 1
      → any (has_id new.command_id) db.commands ≡ false
      → IsValid db
      → HasHistory (db.transitions ++ t ∷ []) new
  unfolding replay_step
  first_history new t db at_start id from to number absent h = rw (
    replay-append,
    max_sequence-append,
    id,
    ==_refl,
    replay_absent new.command_id db.commands absent fresh db.transitions h.owned,
    max_sequence_absent new.command_id db.commands absent db.transitions h.owned,
    from,
    to,
    number,
    at_start,
  )

module _ (event_digest : String → ℕ → String) {N : Type 0} where
  insert_command-IsValid :
      (command : ExecutionCommand N) (db : Tables N)
      → command.state ≡ pending
      → any (conflicts (new_row command)) db.commands ≡ false
      → IsValid db
      → IsValid (insert_command event_digest command db)
  unfolding insert_command
  insert_command-IsValid command db at_start free h =
      let new = new_row command in
      let absent = no_conflict new db.commands free in
      record {
        rows =
            All-append (RowIsValid _) db.commands (new ∷ [])
              (unrelated db.transitions _ db.commands absent h.rows)
              (
                record {
                  mirror = new_row-IsMirror command;
                  history = first_history new _ db at_start refl refl refl refl absent h;
                },
                tt,
              );
        distinct = IsDistinct-append new db.commands absent h.distinct;
        owned =
            All-append _ db.transitions _
              (All-map _ _ db.transitions
                (λ t p. rw (any-append (has_id t.command_id) db.commands new, p)) h.owned)
              (rw (any-append, ==_refl) (or_true _), tt);
      }

  insert_conflict_unchanged :
      (dialect : Dialect) (command c : ExecutionCommand N) (db db' : Tables N)
      → insert_conflict dialect command db ≡ ok (c, db')
      → db ≡ db'
  unfolding insert_conflict
  insert_conflict_unchanged dialect command c db db' e = ground arith

  -- `create` keeps the tables valid, whatever it read first, if it is given a PENDING command.
  pub create-IsValid :
      (dialect : Dialect) (command : ExecutionCommand N) (seen db db' : Tables N)
      (c : ExecutionCommand N)
      → command.state ≡ pending
      → IsValid db
      → create event_digest dialect command seen db ≡ ok (c, db')
      → IsValid db'
  unfolding create
  create-IsValid dialect command seen db db' c at_start h e =
      elim (Option-cases (by_identity command.idempotency_key seen)) [
        | inr (row, found) ↦ subst IsValid (ok_tables (rw (found, create) at e)) h
        | inl missing ↦ elim (Bool-cases (any (conflicts (new_row command)) db.commands)) [
          | inl taken ↦
              subst IsValid
                (insert_conflict_unchanged dialect command c db db'
                  (rw (missing, create, taken) at e))
                h
          | inr free ↦
              subst IsValid (ok_tables (rw (missing, create, free) at e))
                (insert_command-IsValid command db at_start free h)
        ]
      ]
