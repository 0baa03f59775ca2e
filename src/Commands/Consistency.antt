-- ===== src/Commands/Consistency.antt =====
-- What `status` reports about the queue.
use astra_froge.Common.{
  ℕ, ◌+◌, Bool, some, List, [], ◌∷◌, if◌then◌else◌, ◌≡◌, inl, inr, Bool-cases, refl, length, arith,
}
use astra_froge.Schemas.{
  ExecutionCommandState, pending, claimed, submitting, entry_confirmed, protection_pending,
  protected, completed, blocked, failed, recovery_required, expired, same_state,
  ExecutionCommandRow,
}
use astra_froge.Queue.Tables.{Tables}
use astra_froge.Commands.Status.{ExecutionCommandStatus, count_state, status}

abbrev pub reported : ExecutionCommandStatus → ℕ
reported s =
    s.pending + s.claimed + s.recovery_required + s.completed + s.blocked + s.failed + s.expired

abbrev one : ExecutionCommandState → ExecutionCommandState → ℕ
one s t = if same_state s t then 1 else 0

abbrev ones : ExecutionCommandState → ℕ
ones t =
    one ExecutionCommandState.pending t
    + (one ExecutionCommandState.claimed t
        + one submitting t
        + one entry_confirmed t
        + one protection_pending t
        + one protected t)
    + one ExecutionCommandState.recovery_required t
    + one ExecutionCommandState.completed t
    + one ExecutionCommandState.blocked t
    + one ExecutionCommandState.failed t
    + one ExecutionCommandState.expired t

ones-one : (t : ExecutionCommandState) → ones t ≡ 1
ones-one pending = refl
ones-one claimed = refl
ones-one submitting = refl
ones-one entry_confirmed = refl
ones-one protection_pending = refl
ones-one protected = refl
ones-one completed = refl
ones-one blocked = refl
ones-one failed = refl
ones-one recovery_required = refl
ones-one expired = refl

module _ {N : Type 0} where
  abbrev counted : List (ExecutionCommandRow N) → ℕ
  counted rows =
      count_state ExecutionCommandState.pending rows
      + (count_state ExecutionCommandState.claimed rows
          + count_state submitting rows
          + count_state entry_confirmed rows
          + count_state protection_pending rows
          + count_state protected rows)
      + count_state ExecutionCommandState.recovery_required rows
      + count_state ExecutionCommandState.completed rows
      + count_state ExecutionCommandState.blocked rows
      + count_state ExecutionCommandState.failed rows
      + count_state ExecutionCommandState.expired rows

  count_one :
      (s : ExecutionCommandState) (row : ExecutionCommandRow N)
      (rows : List (ExecutionCommandRow N))
      → count_state s (row ∷ rows) ≡ one s row.state + count_state s rows
  unfolding count_state
  count_one s row rows = elim (Bool-cases (same_state s row.state)) [
    | inl same ↦ rw same (omega arith)
    | inr other ↦ rw other (omega arith)
  ]

  all_counted : (rows : List (ExecutionCommandRow N)) → counted rows ≡ length rows
  unfolding count_state
  all_counted [] = refl
  all_counted (row ∷ rows) =
      let e0 = count_one ExecutionCommandState.pending row rows in
      let e1 = count_one ExecutionCommandState.claimed row rows in
      let e2 = count_one submitting row rows in
      let e3 = count_one entry_confirmed row rows in
      let e4 = count_one protection_pending row rows in
      let e5 = count_one protected row rows in
      let e6 = count_one ExecutionCommandState.recovery_required row rows in
      let e7 = count_one ExecutionCommandState.completed row rows in
      let e8 = count_one ExecutionCommandState.blocked row rows in
      let e9 = count_one ExecutionCommandState.failed row rows in
      let e10 = count_one ExecutionCommandState.expired row rows in
      let rest = all_counted rows in let unit = ones-one row.state in omega arith

  -- The counts that `status` reports of an available repository add up to the number of its
  -- commands, so no command is left out or counted twice.
  pub status_complete :
      (enabled : Bool) (db : Tables N) → reported (status enabled (some db)) ≡ length db.commands
  unfolding status
  status_complete enabled db = all_counted db.commands
