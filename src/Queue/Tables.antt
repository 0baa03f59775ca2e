-- ===== src/Queue/Tables.antt =====
-- The two tables of the queue, and the statements that the repository runs on them.
use astra_froge.Common.{
  ℕ, ◌+◌, max, String, Bool, ◌&&◌, ◌||◌, Option, List, [], ◌∷◌, ◌==◌, if◌then◌else◌, find?,
}
use astra_froge.Schemas.{ExecutionCommandRow, ExecutionCommandTransitionRow}

-- The tables `execution_commands` and `execution_command_transitions`, in the order of insertion.
pub record Tables (N : Type 0) : Type 0 where
  pub commands : List (ExecutionCommandRow N)
  pub transitions : List ExecutionCommandTransitionRow

module _ {N : Type 0} where
  abbrev pub has_id : String → ExecutionCommandRow N → Bool
  has_id command_id row = row.command_id == command_id

  -- `_locked_row`, and `session.get(ExecutionCommandRow, command_id)`
  unfoldable pub locked_row : String → Tables N → Option (ExecutionCommandRow N)
  locked_row command_id db = find? (has_id command_id) db.commands

  -- `_by_identity`
  unfoldable pub by_identity : String → Tables N → Option (ExecutionCommandRow N)
  by_identity key db = find? (λ row. row.idempotency_key == key) db.commands

  -- The unit of work writes the attributes of a loaded row back by its primary key.
  unfoldable pub save_row :
      ExecutionCommandRow N → List (ExecutionCommandRow N) → List (ExecutionCommandRow N)
  save_row row [] = []
  save_row row (r ∷ rows) = (if has_id row.command_id r then row else r) ∷ save_row row rows

  -- The primary key and the two unique constraints of `execution_commands`.
  abbrev pub conflicts : ExecutionCommandRow N → ExecutionCommandRow N → Bool
  conflicts new old =
      (old.command_id == new.command_id)
      || (old.idempotency_key == new.idempotency_key)
      || ((old.signal_id == new.signal_id)
          && (old.decision_key == new.decision_key)
          && (old.source_snapshot_version == new.source_snapshot_version))

-- `func.max(sequence)` over the transitions of one command, 0 if there is none
unfoldable pub max_sequence : String → List ExecutionCommandTransitionRow → ℕ
max_sequence command_id [] = 0
max_sequence command_id (t ∷ ts) =
    let rest = max_sequence command_id ts in
    if t.command_id == command_id then max t.sequence rest else rest

-- `_next_sequence`
unfoldable pub next_sequence : String → List ExecutionCommandTransitionRow → ℕ
next_sequence command_id ts = max_sequence command_id ts + 1
