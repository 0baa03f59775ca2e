-- ===== src/Tests/Queue.antt =====
-- The theorems on the queue, at two commands.
use astra_froge.Common.{ℕ, ◌≡◌, ◌≢◌, refl, none, some, Option, [], ok, err, Result, arith}
use astra_froge.Schemas.{ExecutionCommandState, submitting, ExecutionCommand, ExecutionCommandRow}
use astra_froge.Queue.Tables.{Tables, locked_row, by_identity, save_row}
use astra_froge.Queue.Rows.{new_row, moved_command}
use astra_froge.Queue.Repository.{
  sqlite, postgresql, insert_command, create, transition, write_transition, apply_transition,
}
use astra_froge.Queue.Claims.{
  claim_next, expire_due, choices, is_due, oldest, is_claimable, is_visible, recover_stale,
}
use astra_froge.Queue.Transitions.{is_allowed}
use astra_froge.Queue.Invariant.{IsValid}
use astra_froge.Queue.Invariant.{create-IsValid, transition-IsValid}
use astra_froge.Queue.Invariant.{claimed_command, claimed_tables, claim_next_total}
use astra_froge.Queue.Effects.{IsMoved, transition-IsMoved}
use astra_froge.Queue.Lifecycle.{HasEntered, required, passed_required_states}
use astra_froge.Queue.Claiming.{IsClaim, claim_next-IsClaim}
use astra_froge.Queue.Exclusion.{claims_exclude, claim_next-IsValid}
use astra_froge.Queue.Idempotency.{create_twice, create_lost_race}
use astra_froge.Tests.Fixtures.{
  event_digest, token_digest, no_locks, order, empty, one_command, two_commands, empty-IsValid,
  created, two_commands-IsValid,
}

abbrev first : ExecutionCommand ℕ
first = claimed_command event_digest token_digest "w1" 5 (new_row (order "a" 1)) two_commands

abbrev after_first : Tables ℕ
after_first = claimed_tables event_digest token_digest "w1" 5 (new_row (order "a" 1)) two_commands

abbrev second : ExecutionCommand ℕ
second = claimed_command event_digest token_digest "w2" 7 (new_row (order "b" 2)) after_first

abbrev after_second : Tables ℕ
after_second = claimed_tables event_digest token_digest "w2" 7 (new_row (order "b" 2)) after_first

first_claim :
    claim_next event_digest token_digest sqlite no_locks "w1" 10 5 two_commands
    ≡ ok (some first, after_first)
unfolding claim_next claimed_tables insert_command write_transition save_row is_due oldest
    is_claimable moved_command is_visible apply_transition is_allowed
first_claim = refl

second_claim :
    claim_next event_digest token_digest postgresql no_locks "w2" 10 7 after_first
    ≡ ok (some second, after_second)
unfolding claim_next claimed_tables insert_command write_transition save_row is_due oldest
    is_claimable moved_command is_visible apply_transition is_allowed
second_claim = refl

claims_exclude_example : second.command_id ≢ first.command_id
claims_exclude_example =
    claims_exclude event_digest token_digest sqlite postgresql no_locks no_locks "w1" "w2" 10 5 7
      two_commands after_first after_second first second two_commands-IsValid first_claim
      second_claim (omega arith)

claim_next_total_example :
    (c : Option (ExecutionCommand ℕ)) × (db' : Tables ℕ) × (claim_next event_digest token_digest
        sqlite no_locks "w1" 10 5 two_commands
      ≡ ok (c, db'))
    × IsValid db'
claim_next_total_example =
    claim_next_total event_digest token_digest sqlite no_locks "w1" 10 5 two_commands
      two_commands-IsValid

claim_next-IsClaim_example :
    (current : Tables ℕ) × (row : ExecutionCommandRow ℕ) × (expire_due event_digest sqlite no_locks
        5 two_commands
      ≡ ok current)
    × IsClaim
        (token_digest row.command_id "w1" 5)
        "w1"
        10
        5
        current
        (choices sqlite no_locks 10 5 current)
        row
        first
    × (claimed_tables event_digest token_digest "w1" 5 row current ≡ after_first)
claim_next-IsClaim_example =
    claim_next-IsClaim event_digest token_digest sqlite no_locks "w1" 10 5 two_commands after_first
      first two_commands-IsValid first_claim

create_twice_example :
    create event_digest sqlite (order "a" 1) one_command one_command ≡ ok (order "a" 1, one_command)
create_twice_example =
    create_twice event_digest sqlite (order "a" 1) (order "a" 1) empty one_command created

nothing_read : by_identity "a" empty ≡ none
unfolding by_identity
nothing_read = refl

durable_row : by_identity "a" one_command ≡ some (new_row (order "a" 1))
unfolding by_identity insert_command
durable_row = refl

create_lost_race_example :
    create event_digest sqlite (order "a" 1) empty one_command
    ≡ ok ((new_row (order "a" 1)).payload, one_command)
create_lost_race_example =
    create_lost_race event_digest sqlite (order "a" 1) empty one_command (new_row (order "a" 1))
      (λ e. cc) nothing_read durable_row

create-IsValid_example : IsValid one_command
create-IsValid_example =
    create-IsValid event_digest sqlite (order "a" 1) empty empty one_command (order "a" 1) refl
      empty-IsValid created

-- The command of a row, and the tables, after a transition.
abbrev moved : ExecutionCommandState → ℕ → Tables ℕ → Result (ExecutionCommand ℕ × Tables ℕ)
moved s now db = transition event_digest "a" s "TEST" now [] db

abbrev tables : Tables ℕ → Result (ExecutionCommand ℕ × Tables ℕ) → Tables ℕ
tables db (ok (c, db')) = db'
tables db (err e) = db

abbrev command : Result (ExecutionCommand ℕ × Tables ℕ) → ExecutionCommand ℕ
command (ok (c, db)) = c
command (err e) = order "" 0

abbrev submitted : Result (ExecutionCommand ℕ × Tables ℕ)
submitted = moved submitting 6 after_first

submitted_ok : submitted ≡ ok (command submitted, tables after_first submitted)
unfolding transition locked_row claimed_tables insert_command write_transition save_row
    moved_command apply_transition is_allowed recover_stale
submitted_ok = refl

after_first-IsValid : IsValid after_first
after_first-IsValid =
    claim_next-IsValid event_digest token_digest sqlite no_locks "w1" 10 5 two_commands after_first
      (some first) two_commands-IsValid first_claim

submitted-IsValid : IsValid (tables after_first submitted)
submitted-IsValid =
    transition-IsValid event_digest "a" submitting "TEST" 6 [] after_first
      (tables after_first submitted) (command submitted) after_first-IsValid submitted_ok

transition-IsValid_example : IsValid (tables after_first submitted)
transition-IsValid_example =
    transition-IsValid event_digest "a" submitting "TEST" 6 [] after_first
      (tables after_first submitted) (command submitted) after_first-IsValid submitted_ok

-- The row that the worker claimed, and that row once it is submitted.
abbrev row_of : Option (ExecutionCommandRow ℕ) → ExecutionCommandRow ℕ
row_of none = new_row (order "" 0)
row_of (some row) = row

abbrev claimed_row : ExecutionCommandRow ℕ
claimed_row = row_of (locked_row "a" after_first)

claimed_row_found : locked_row "a" after_first ≡ some claimed_row
unfolding locked_row claimed_tables insert_command write_transition save_row recover_stale
claimed_row_found = refl

abbrev after_submitted : Tables ℕ
after_submitted = tables after_first submitted

abbrev submitted_row : ExecutionCommandRow ℕ
submitted_row = row_of (locked_row "a" after_submitted)

submitted_row_found : locked_row "a" after_submitted ≡ some submitted_row
unfolding transition locked_row claimed_tables insert_command write_transition save_row
    moved_command apply_transition is_allowed recover_stale
submitted_row_found = refl

transition-IsMoved_example :
    IsMoved "a" submitting after_first after_submitted claimed_row (command submitted)
transition-IsMoved_example =
    transition-IsMoved event_digest "a" submitting "TEST" 6 [] after_first after_submitted
      claimed_row (command submitted) claimed_row_found submitted_ok

passed_required_states_example :
    HasEntered submitted_row.command_id after_submitted.transitions (required submitted_row.state)
passed_required_states_example =
    passed_required_states after_submitted "a" submitted_row submitted-IsValid submitted_row_found
