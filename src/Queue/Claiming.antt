-- ===== src/Queue/Claiming.antt =====
-- What `claim_next` returns, and that a claim excludes the others.
use astra_froge.Common.{
  ℕ, ◌≤◌, ◌≡◌, refl, String, Bool, true, ◌||◌, none, some, List, inl, inr, Bool-cases, Option-cases,
  All, ap, sym, ok, ◌∙◌, subst, ok_tables, ok_value, some_inj,
}
use astra_froge.Schemas.{claimed, submitting, same_state, ExecutionCommand, ExecutionCommandRow}
use astra_froge.Queue.Tables.{Tables, locked_row}
use astra_froge.Queue.Rows.{moved_command, model_copy}
use astra_froge.Queue.Repository.{Dialect}
use astra_froge.Queue.Claims.{
  is_claimable, oldest, recovered_row, expire_due, recover_stale, choices, claim_updates, claim_row,
  claim_from, claim_next,
}
use astra_froge.Queue.Invariant.{
  IsValid, expire_due_total, IsChoice, choices_lem, oldest_lem, claim_row_total, claimed_command,
  claimed_tables,
}
use astra_froge.Queue.Effects.{approved_part, approved_part-moved_command}

-- The selected row, and what was made of it.
pub record IsClaim {N : Type 0} (token worker_id : String) (timeout now : ℕ) (db : Tables N)
    (rows : List (ExecutionCommandRow N)) (row : ExecutionCommandRow N) (c : ExecutionCommand N)
    : Type 0 where
  -- the command is held by this worker
  pub state : c.state ≡ claimed
  pub worker : c.worker_id ≡ some worker_id
  pub since : c.claimed_at ≡ some now
  pub claim_token : c.claim_token ≡ some token
  pub no_failure : c.failure_reason ≡ none
  -- its row stands in the tables
  pub found : locked_row row.command_id db ≡ some row
  -- it is the selected one, unchanged in what was approved
  pub identity : c.command_id ≡ row.command_id
  pub approved : approved_part c ≡ approved_part row.payload
  -- the selected row may be claimed, and is the oldest of those
  pub claimable : is_claimable timeout now row ≡ true
  pub least : All (λ (r : ExecutionCommandRow N). row.created_at ≤ r.created_at) rows

approved_part-recover_stale :
    (event_digest : String → ℕ → String) {N : Type 0} (now : ℕ) (row : ExecutionCommandRow N)
    (db : Tables N)
    → approved_part (recover_stale event_digest now row db).0.payload ≡ approved_part row.payload
unfolding recover_stale recovered_row
approved_part-recover_stale event_digest now row db =
    elim (Bool-cases (same_state row.state claimed || same_state row.state submitting)) [
      | inl stale ↦ rw stale
      | inr idle ↦ rw idle
    ]

module _ (event_digest : String → ℕ → String) (token_digest : String → String → ℕ → String)
    {N : Type 0} where
  claimed_command-IsClaim :
      (worker_id : String) (timeout now : ℕ) (rows : List (ExecutionCommandRow N))
      (row : ExecutionCommandRow N) (db : Tables N)
      → IsChoice timeout now db row
      → All (λ (r : ExecutionCommandRow N). row.created_at ≤ r.created_at) rows
      → IsClaim
          (token_digest row.command_id worker_id now)
          worker_id
          timeout
          now
          db
          rows
          row
          (claimed_command event_digest token_digest worker_id now row db)
  unfolding claimed_command moved_command model_copy
  claimed_command-IsClaim worker_id timeout now rows row db choice least = record {
    state = refl;
    worker = refl;
    since = refl;
    claim_token = refl;
    no_failure = refl;
    found = choice.found;
    identity =
        ap (λ (c : ExecutionCommand N). c.command_id) same ∙ sym choice.valid.mirror.command_id;
    approved = same;
    claimable = choice.claimable;
    least = least;
  }
    where
      same :
          approved_part (claimed_command event_digest token_digest worker_id now row db)
          ≡ approved_part row.payload
      same =
          approved_part-moved_command claimed "WORKER_CLAIMED" now
            (claim_updates (token_digest row.command_id worker_id now) worker_id now)
            (recover_stale event_digest now row db).0.payload
          ∙ approved_part-recover_stale event_digest now row db

  -- What a claim of one row gives is what `claim_from` returns.
  claim_from_row :
      (dialect : Dialect) (locked : String → Bool) (worker_id : String) (timeout now : ℕ)
      (db db' after : Tables N) (c x : ExecutionCommand N) (row : ExecutionCommandRow N)
      → oldest (choices dialect locked timeout now db) ≡ some row
      → claim_row event_digest token_digest worker_id now row db ≡ ok (x, after)
      → claim_from event_digest token_digest dialect locked worker_id timeout now db
        ≡ ok (some c, db')
      → (x ≡ c) × (after ≡ db')
  unfolding claim_from
  claim_from_row dialect locked worker_id timeout now db db' after c x row found taken e =
      let r = rw (found, claim_from, taken) at e in (some_inj (ok_value r), ok_tables r)

  claim_from-none :
      (dialect : Dialect) (locked : String → Bool) (worker_id : String) (timeout now : ℕ)
      (db db' : Tables N) (c : ExecutionCommand N)
      → oldest (choices dialect locked timeout now db) ≡ none
      → claim_from event_digest token_digest dialect locked worker_id timeout now db
        ≡ ok (some c, db')
      → ⊥
  unfolding claim_from
  claim_from-none dialect locked worker_id timeout now db db' c empty e =
      cc (ok_value (rw (empty, claim_from) at e))

  claim_from_inv :
      (dialect : Dialect) (locked : String → Bool) (worker_id : String) (timeout now : ℕ)
      (db db' : Tables N) (c : ExecutionCommand N)
      → IsValid db
      → claim_from event_digest token_digest dialect locked worker_id timeout now db
        ≡ ok (some c, db')
      → (row : ExecutionCommandRow N) × IsClaim
          (token_digest row.command_id worker_id now)
          worker_id
          timeout
          now
          db
          (choices dialect locked timeout now db)
          row
          c
        × (claimed_tables event_digest token_digest worker_id now row db ≡ db')
  claim_from_inv dialect locked worker_id timeout now db db' c h e =
      elim (Option-cases (oldest (choices dialect locked timeout now db))) [
        | inl empty ↦ absurd (claim_from-none dialect locked worker_id timeout now db db' c empty e)
        | inr (row, found) ↦
            let selected =
              oldest_lem (IsChoice timeout now db) (choices dialect locked timeout now db) row
                (choices_lem dialect locked timeout now db h) found in
            let taken =
              (claim_row_total event_digest token_digest worker_id timeout now row db
                selected.0.claimable selected.0.valid selected.0.stored h).0 in
            let same =
              claim_from_row dialect locked worker_id timeout now db db' _ c _ row found taken e in
            (
              row,
              subst
                  (IsClaim (token_digest row.command_id worker_id now) worker_id timeout now db
                    (choices dialect locked timeout now db) row)
                  same.0
                  (claimed_command-IsClaim worker_id timeout now
                    (choices dialect locked timeout now db) row db selected.0 selected.1),
              same.1,
            )
      ]

  -- A claim by `claim_next` on valid tables: the due commands are expired first; of the rows that may
  -- then be claimed the oldest is returned, held by the worker since now under the digest's token,
  -- with no failure noted and unchanged in what was approved.
  pub claim_next-IsClaim :
      (dialect : Dialect) (locked : String → Bool) (worker_id : String) (timeout now : ℕ)
      (db db' : Tables N) (c : ExecutionCommand N)
      → IsValid db
      → claim_next event_digest token_digest dialect locked worker_id timeout now db
        ≡ ok (some c, db')
      → (current : Tables N) × (row : ExecutionCommandRow N) × (expire_due event_digest dialect
            locked now db
          ≡ ok current)
        × IsClaim
            (token_digest row.command_id worker_id now)
            worker_id
            timeout
            now
            current
            (choices dialect locked timeout now current)
            row
            c
        × (claimed_tables event_digest token_digest worker_id now row current ≡ db')
  unfolding claim_next
  claim_next-IsClaim dialect locked worker_id timeout now db db' c h e =
      let (current, done, valid) = expire_due_total event_digest dialect locked now db h in
      let (row, claim, after) =
        claim_from_inv dialect locked worker_id timeout now current db' c valid (rw done at e) in
      (current, row, done, claim, after)
