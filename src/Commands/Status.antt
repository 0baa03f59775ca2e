-- ===== src/Commands/Status.antt =====
-- `counts` of the repository and `status` of the service.
use astra_froge.Common.{
  ℕ, ◌+◌, max, Bool, true, false, Option, none, some, List, [], ◌∷◌, if◌then◌else◌,
}
use astra_froge.Schemas.{
  ExecutionCommandState, submitting, entry_confirmed, protection_pending, protected, same_state,
  ExecutionCommandRow,
}
use astra_froge.Queue.Tables.{Tables}

-- `ExecutionCommandStatus`
pub record ExecutionCommandStatus : Type 0 where
  pub execution_enabled : Bool
  pub persistence_available : Bool
  pub pending : ℕ
  pub claimed : ℕ
  pub recovery_required : ℕ
  pub completed : ℕ
  pub blocked : ℕ
  pub failed : ℕ
  pub expired : ℕ
  pub updated_at : Option ℕ

abbrev later : ℕ → Option ℕ → Option ℕ
later at none = some at
later at (some other) = some (max at other)

module _ {N : Type 0} where
  -- `counts[state]`
  unfoldable pub count_state : ExecutionCommandState → List (ExecutionCommandRow N) → ℕ
  count_state s [] = 0
  count_state s (row ∷ rows) =
      let rest = count_state s rows in if same_state s row.state then rest + 1 else rest

  -- `func.max(updated_at)`
  unfoldable pub last_update : List (ExecutionCommandRow N) → Option ℕ
  last_update [] = none
  last_update (row ∷ rows) = later row.updated_at (last_update rows)

  -- `status`
  unfoldable pub status : Bool → Option (Tables N) → ExecutionCommandStatus
  unfolding count_state last_update
  status execution_enabled none = record {
    execution_enabled = execution_enabled;
    persistence_available = false;
    pending = 0;
    claimed = 0;
    recovery_required = 0;
    completed = 0;
    blocked = 0;
    failed = 0;
    expired = 0;
    updated_at = none;
  }
  status execution_enabled (some db) = record {
    execution_enabled = execution_enabled;
    persistence_available = true;
    pending = count_state ExecutionCommandState.pending db.commands;
    claimed =
        count_state ExecutionCommandState.claimed db.commands
        + count_state submitting db.commands
        + count_state entry_confirmed db.commands
        + count_state protection_pending db.commands
        + count_state protected db.commands;
    recovery_required = count_state ExecutionCommandState.recovery_required db.commands;
    completed = count_state ExecutionCommandState.completed db.commands;
    blocked = count_state ExecutionCommandState.blocked db.commands;
    failed = count_state ExecutionCommandState.failed db.commands;
    expired = count_state ExecutionCommandState.expired db.commands;
    updated_at = last_update db.commands;
  }
