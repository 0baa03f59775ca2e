-- ===== src/Queue/Repository.antt =====
-- The methods `create` and `transition` of `ExecutionCommandRepository`. A method runs in one
-- transaction: it returns the tables that it commits, or raises, and then nothing is written.
use astra_froge.Common.{
  ℕ, String, not, Option, none, some, List, [], ◌∷◌, ◌++◌, if◌then◌else◌, any, Result, ok, err,
  illegal_transition, key_error, runtime_error, storage_error,
}
use astra_froge.Schemas.{
  ExecutionCommandState, pending, same_state, ExecutionCommand, ExecutionCommandRow,
  ExecutionCommandTransitionRow,
}
use astra_froge.Queue.Transitions.{is_allowed}
use astra_froge.Queue.Tables.{Tables, locked_row, by_identity, save_row, conflicts, next_sequence}
use astra_froge.Queue.Rows.{Update, moved_command, moved_row, new_row}

-- The database behind the engine, `engine.dialect.name`.
pub data Dialect : Type 0 where
  postgresql sqlite other_dialect : Dialect

module _ {N : Type 0} where
  -- An insertion that meets a unique constraint: `on conflict do nothing` leaves the durable row
  -- of a concurrent transaction to be returned; elsewhere the flush raises.
  unfoldable pub insert_conflict :
      Dialect → ExecutionCommand N → Tables N → Result (ExecutionCommand N × Tables N)
  insert_conflict other_dialect command db = err storage_error
  insert_conflict _ command db = elim (by_identity command.idempotency_key db) [
    | none ↦ err (runtime_error "Execution command insert conflicted without a durable row")
    | some row ↦ ok (row.payload, db)
  ]

-- `event_digest` is the SHA-256 digest of the text `"{command_id}:{sequence}"`.
module _ (event_digest : String → ℕ → String) where
  -- `_append_transition`
  unfoldable pub append_transition :
      String
      → ℕ
      → Option ExecutionCommandState
      → ExecutionCommandState
      → String
      → ℕ
      → List ExecutionCommandTransitionRow
      → List ExecutionCommandTransitionRow
  append_transition command_id sequence from_state to_state reason changed_at ts =
      ts
      ++ record {
        event_id = event_digest command_id sequence;
        command_id = command_id;
        sequence = sequence;
        from_state = from_state;
        to_state = to_state;
        reason = reason;
        changed_at = changed_at;
      }
        ∷ []

  module _ {N : Type 0} where
    -- The write of `_apply_transition`, once the transition is allowed.
    unfoldable pub write_transition :
        ExecutionCommandRow N
        → ExecutionCommandState
        → String
        → ℕ
        → ExecutionCommand N
        → Tables N
        → Tables N
    unfolding moved_row next_sequence append_transition
    write_transition row to_state reason changed_at command db = record {
      commands = save_row (moved_row to_state changed_at command row) db.commands;
      transitions =
          append_transition row.command_id (next_sequence row.command_id db.transitions)
            (some row.state) to_state reason changed_at db.transitions;
    }

    -- `_apply_transition`
    unfoldable pub apply_transition :
        ExecutionCommandRow N
        → ExecutionCommandState
        → String
        → ℕ
        → List (Update N)
        → Tables N
        → Result (ExecutionCommand N × Tables N)
    unfolding moved_command write_transition
    apply_transition row to_state reason changed_at updates db =
        if same_state to_state row.state
        then ok (row.payload, db)
        else if not (is_allowed row.state to_state)
        then err illegal_transition
        else let command = moved_command to_state reason changed_at updates row.payload in
          ok (command, write_transition row to_state reason changed_at command db)

    -- `transition`
    unfoldable pub transition :
        String
        → ExecutionCommandState
        → String
        → ℕ
        → List (Update N)
        → Tables N
        → Result (ExecutionCommand N × Tables N)
    unfolding apply_transition
    transition command_id to_state reason changed_at updates db = elim (locked_row command_id db) [
      | none ↦ err (key_error command_id)
      | some row ↦ apply_transition row to_state reason changed_at updates db
    ]

    -- The tables after `create` has inserted its row and its first transition.
    unfoldable pub insert_command : ExecutionCommand N → Tables N → Tables N
    unfolding new_row append_transition
    insert_command command db = record {
      commands = db.commands ++ new_row command ∷ [];
      transitions =
          append_transition command.command_id 1 none pending "COMMAND_CREATED" command.created_at
            db.transitions;
    }

    -- `create`. `seen` is what its first query reads, and `db` what stands there when it inserts:
    -- other transactions may have committed in between.
    unfoldable pub create :
        Dialect → ExecutionCommand N → Tables N → Tables N → Result (ExecutionCommand N × Tables N)
    unfolding insert_command insert_conflict
    create dialect command seen db = elim (by_identity command.idempotency_key seen) [
      | some row ↦ ok (row.payload, db)
      | none ↦
          if any (conflicts (new_row command)) db.commands
          then insert_conflict dialect command db
          else ok (command, insert_command command db)
    ]
