-- ===== src/Queue/Claims.antt =====
-- The method `claim_next` of `ExecutionCommandRepository`, with `_expire_due`.
use astra_froge.Common.{
  ℕ, ◌+◌, String, Bool, true, false, not, ◌&&◌, ◌||◌, Option, none, some, List, [], ◌∷◌, leb, ltb,
  if◌then◌else◌, keep_if, Result, ok, ◌>>=◌,
}
use astra_froge.Schemas.{
  pending, claimed, submitting, recovery_required, expired, same_state, ExecutionCommand,
  ExecutionCommandRow,
}
use astra_froge.Queue.Tables.{Tables, save_row, next_sequence}
use astra_froge.Queue.Rows.{Update}
use astra_froge.Queue.Repository.{Dialect, postgresql, append_transition, apply_transition}

abbrev is_postgresql : Dialect → Bool
is_postgresql postgresql = true
is_postgresql _ = false

-- `locked` tells which rows another transaction holds: PostgreSQL skips those
-- (`with_for_update(skip_locked=True)`).
module _ {N : Type 0} (dialect : Dialect) (locked : String → Bool) where
  unfoldable pub is_visible : ExecutionCommandRow N → Bool
  is_visible row = not (is_postgresql dialect && locked row.command_id)

-- `claimed_at is not null and claimed_at <= cutoff`, with `cutoff = now - timeout`.
abbrev claimed_by : Option ℕ → ℕ → ℕ → Bool
claimed_by none timeout now = false
claimed_by (some at) timeout now = leb (at + timeout) now

module _ {N : Type 0} where
  -- The updates that a claim writes.
  abbrev pub claim_updates : String → String → ℕ → List (Update N)
  claim_updates token worker_id now =
      Update.claim_token (some token)
      ∷ Update.worker_id (some worker_id)
      ∷ Update.claimed_at (some now)
      ∷ Update.failure_reason none
      ∷ []

  -- The states that `_expire_due` selects, once their expiry has come.
  unfoldable pub is_due : ℕ → ExecutionCommandRow N → Bool
  is_due now row =
      (same_state row.state pending
        || same_state row.state claimed
        || same_state row.state recovery_required)
      && leb row.expires_at now

  -- `stale_claim`
  unfoldable pub is_stale : ℕ → ℕ → ExecutionCommandRow N → Bool
  is_stale timeout now row =
      (same_state row.state claimed || same_state row.state submitting)
      && claimed_by row.claimed_at timeout now

  -- The `where` clause of the claim.
  unfoldable pub is_claimable : ℕ → ℕ → ExecutionCommandRow N → Bool
  unfolding is_stale
  is_claimable timeout now row =
      (same_state row.state pending
        || same_state row.state recovery_required
        || is_stale timeout now row)
      && ltb now row.expires_at

  -- `order_by(created_at).limit(1)`
  unfoldable pub oldest : List (ExecutionCommandRow N) → Option (ExecutionCommandRow N)
  oldest [] = none
  oldest (row ∷ rows) = elim (oldest rows) [
    | none ↦ some row
    | some other ↦ if leb row.created_at other.created_at then some row else some other
  ]

  -- The row and its payload after a stale claim has been found.
  unfoldable pub recovered_row : ℕ → ExecutionCommandRow N → ExecutionCommandRow N
  recovered_row now row =
      let recovered = record row.payload {
        state = recovery_required;
        updated_at = now;
        failure_reason = some "STALE_WORKER_CLAIM";
      } in
      record row {
        state = recovery_required;
        payload = recovered;
        failure_reason = some "STALE_WORKER_CLAIM";
        updated_at = now;
      }

module _ {N : Type 0} where
  -- The rows that a claim chooses from.
  abbrev pub choices : Dialect → (String → Bool) → ℕ → ℕ → Tables N → List (ExecutionCommandRow N)
  choices dialect locked timeout now db =
      keep_if (λ row. is_claimable timeout now row && is_visible dialect locked row) db.commands

module _ (event_digest : String → ℕ → String) where
  module _ {N : Type 0} where
    unfoldable pub expire_rows : ℕ → List (ExecutionCommandRow N) → Tables N → Result (Tables N)
    expire_rows now [] db = ok db
    expire_rows now (row ∷ rows) db =
        apply_transition event_digest row expired "COMMAND_EXPIRED" now [] db >>= λ moved.
        expire_rows now rows moved.1

    -- `_expire_due`
    unfoldable pub expire_due : Dialect → (String → Bool) → ℕ → Tables N → Result (Tables N)
    unfolding expire_rows
    expire_due dialect locked now db =
        expire_rows now
          (keep_if (λ row. is_due now row && is_visible dialect locked row) db.commands) db

    -- The write for a claim that timed out.
    unfoldable pub write_recovery : ℕ → ExecutionCommandRow N → Tables N → Tables N
    unfolding recovered_row next_sequence append_transition
    write_recovery now row db = record {
      commands = save_row (recovered_row now row) db.commands;
      transitions =
          append_transition event_digest row.command_id
            (next_sequence row.command_id db.transitions) (some row.state) recovery_required
            "STALE_WORKER_CLAIM" now db.transitions;
    }

    -- A claim that timed out is first moved to RECOVERY_REQUIRED.
    unfoldable pub recover_stale :
        ℕ → ExecutionCommandRow N → Tables N → ExecutionCommandRow N × Tables N
    unfolding write_recovery
    recover_stale now row db =
        if same_state row.state claimed || same_state row.state submitting
        then (recovered_row now row, write_recovery now row db)
        else (row, db)

-- `token_digest` is the SHA-256 digest of the text `"{command_id}|{worker_id}|{now}"`.
module _ (event_digest : String → ℕ → String) (token_digest : String → String → ℕ → String) where
  module _ {N : Type 0} where
    -- The claim of one selected row.
    unfoldable pub claim_row :
        String → ℕ → ExecutionCommandRow N → Tables N → Result (ExecutionCommand N × Tables N)
    unfolding recover_stale
    claim_row worker_id now row db =
        let (current, db') = recover_stale event_digest now row db in
        apply_transition event_digest current claimed "WORKER_CLAIMED" now
          (claim_updates (token_digest row.command_id worker_id now) worker_id now) db'

    -- The claim, once the due commands are expired.
    unfoldable pub claim_from :
        Dialect
        → (String → Bool)
        → String
        → ℕ
        → ℕ
        → Tables N
        → Result (Option (ExecutionCommand N) × Tables N)
    unfolding claim_row
    claim_from dialect locked worker_id timeout now db =
        elim (oldest (choices dialect locked timeout now db)) [
          | none ↦ ok (none, db)
          | some row ↦ claim_row worker_id now row db >>= λ moved. ok (some moved.0, moved.1)
        ]

    -- `_claim_next`, the body of `claim_next`
    unfoldable pub claim_next :
        Dialect
        → (String → Bool)
        → String
        → ℕ
        → ℕ
        → Tables N
        → Result (Option (ExecutionCommand N) × Tables N)
    unfolding expire_due claim_from
    claim_next dialect locked worker_id timeout now db = do
      current ← expire_due event_digest dialect locked now db
      claim_from dialect locked worker_id timeout now current
