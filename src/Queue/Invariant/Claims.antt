-- ===== src/Queue/Invariant/Claims.antt =====
-- `claim_next` never raises on valid tables, and keeps them valid.
use astra_froge.Common.{
  ℕ, ◌≡◌, refl, String, Bool, true, false, ◌&&◌, ◌||◌, Option, none, some, arith, inl, inr,
  Bool-cases, Option-cases, All, All-map, All-keep_if, All-both, ok, ◌∙◌, and-true,
}
use astra_froge.Schemas.{
  ExecutionCommandState, pending, claimed, submitting, recovery_required, same_state,
  ExecutionCommand, ExecutionCommandRow,
}
use astra_froge.Queue.Transitions.{is_allowed}
use astra_froge.Queue.Tables.{Tables, locked_row}
use astra_froge.Queue.Rows.{moved_command}
use astra_froge.Queue.Repository.{write_transition, Dialect}
use astra_froge.Queue.Claims.{
  is_stale, is_claimable, oldest, recovered_row, write_recovery, recover_stale, claim_updates,
  claim_row, claim_from, choices, claim_next,
}
use astra_froge.Queue.Invariant.Rows.{IsMirror, RowIsValid}
use astra_froge.Queue.Invariant.Saves.{IsStored, IsValid, any-save_row, save_row-IsValid}
use astra_froge.Queue.Invariant.Steps.{write_transition-IsValid, HasHistory-append}
use astra_froge.Queue.Invariant.Oldest.{oldest_lem}
use astra_froge.Queue.Invariant.Expiry.{
  All-stored, All-found, apply_transition_allowed, expire_due_total,
}

-- A claimed or submitting command may need recovery.
stale_state :
    (s : ExecutionCommandState)
    → (same_state s claimed || same_state s submitting) ≡ true
    → is_allowed s recovery_required ≡ true
unfolding is_allowed
stale_state claimed h = refl
stale_state submitting h = refl
stale_state _ h = cc

-- The states that `claim_next` selects, once a stale claim has been recovered.
claimable_state :
    (s : ExecutionCommandState) (stale : Bool)
    → (same_state s pending
        || same_state s recovery_required
        || ((same_state s claimed || same_state s submitting) && stale))
      ≡ true
    → (same_state s claimed || same_state s submitting) ≡ false
    → (same_state claimed s ≡ false) × (is_allowed s claimed ≡ true)
unfolding is_allowed
claimable_state pending stale h k = (refl, refl)
claimable_state recovery_required stale h k = (refl, refl)
claimable_state _ stale h k = ground arith

-- A row that a claim may take: it is stored and valid, and CLAIMED may follow its state.
pub record IsTakable {N : Type 0} (db : Tables N) (row : ExecutionCommandRow N) : Type 0 where
  pub valid : RowIsValid db.transitions row
  pub stored : IsStored db row
  pub moves : same_state claimed row.state ≡ false
  pub allowed : is_allowed row.state claimed ≡ true
  pub tables : IsValid db

module _ (event_digest : String → ℕ → String) {N : Type 0} where
  recovered_row-IsMirror :
      (now : ℕ) (row : ExecutionCommandRow N) → IsMirror row → IsMirror (recovered_row now row)
  unfolding recovered_row
  recovered_row-IsMirror now row h = record {
    command_id = h.command_id;
    idempotency_key = h.idempotency_key;
    signal_id = h.signal_id;
    decision_key = h.decision_key;
    symbol = h.symbol;
    state = refl;
    claim_token = h.claim_token;
    worker_id = h.worker_id;
    claimed_at = h.claimed_at;
    failure_reason = refl;
    entry_exchange_order_id = h.entry_exchange_order_id;
    stop_exchange_order_id = h.stop_exchange_order_id;
    take_profit_exchange_order_id = h.take_profit_exchange_order_id;
    created_at = h.created_at;
    updated_at = refl;
    expires_at = h.expires_at;
  }

  write_recovery-IsTakable :
      (now : ℕ) (row : ExecutionCommandRow N) (db : Tables N)
      → is_allowed row.state recovery_required ≡ true
      → RowIsValid db.transitions row
      → IsStored db row
      → IsValid db
      → IsTakable (write_recovery event_digest now row db) (recovered_row now row)
  unfolding write_recovery is_allowed
  write_recovery-IsTakable now row db allowed valid stored h =
      let fits : RowIsValid (write_recovery event_digest now row db).transitions
          (recovered_row now row) =
        record {
          mirror = recovered_row-IsMirror now row valid.mirror;
          history =
              HasHistory-append db.transitions _ row (recovered_row now row) refl refl refl refl
                refl allowed valid.history;
        } in
      record {
        valid = fits;
        stored = any-save_row row.command_id _ db.commands ∙ stored;
        moves = refl;
        allowed = refl;
        tables = save_row-IsValid (recovered_row now row) _ db refl stored fits h;
      }

  pub recover_stale-IsTakable :
      (timeout now : ℕ) (row : ExecutionCommandRow N) (db : Tables N)
      → is_claimable timeout now row ≡ true
      → RowIsValid db.transitions row
      → IsStored db row
      → IsValid db
      → (let (current, db') = recover_stale event_digest now row db in IsTakable db' current)
  unfolding recover_stale is_claimable is_stale
  recover_stale-IsTakable timeout now row db test valid stored h =
      elim (Bool-cases (same_state row.state claimed || same_state row.state submitting)) [
        | inl stale ↦
            rw stale
              (write_recovery-IsTakable now row db (stale_state row.state stale) valid stored h)
        | inr idle ↦
            let (moves, allowed) = claimable_state row.state _ (and-true _ _ test).0 idle in
            rw idle (record {
              valid = valid;
              stored = stored;
              moves = moves;
              allowed = allowed;
              tables = h;
            })
      ]

module _ {N : Type 0} where
  -- What holds of each row that a claim chooses from.
  pub record IsChoice (timeout now : ℕ) (db : Tables N) (row : ExecutionCommandRow N) : Type 0 where
    pub valid : RowIsValid db.transitions row
    pub stored : IsStored db row
    pub found : locked_row row.command_id db ≡ some row
    pub claimable : is_claimable timeout now row ≡ true

  pub choices_lem :
      (dialect : Dialect) (locked : String → Bool) (timeout now : ℕ) (db : Tables N)
      → IsValid db
      → All (IsChoice timeout now db) (choices dialect locked timeout now db)
  unfolding locked_row
  choices_lem dialect locked timeout now db h =
      All-map _ _ (choices dialect locked timeout now db)
        (λ row p. record {
          valid = p.0.0;
          stored = p.0.1.0;
          found = p.0.1.1;
          claimable = (and-true _ _ p.1).0;
        })
        (All-keep_if _ _ db.commands (
          All-both _ _ db.commands h.rows
            (All-both _ _ db.commands (All-stored db) (All-found db.commands h.distinct))))

module _ (event_digest : String → ℕ → String) (token_digest : String → String → ℕ → String)
    {N : Type 0} where
  -- The command that a claim returns: the selected one, under a fresh claim.
  unfoldable pub claimed_command :
      String → ℕ → ExecutionCommandRow N → Tables N → ExecutionCommand N
  claimed_command worker_id now row db =
      moved_command claimed "WORKER_CLAIMED" now
        (claim_updates (token_digest row.command_id worker_id now) worker_id now)
        (recover_stale event_digest now row db).0.payload

  unfoldable pub claimed_tables : String → ℕ → ExecutionCommandRow N → Tables N → Tables N
  unfolding claimed_command
  claimed_tables worker_id now row db =
      let (current, db') = recover_stale event_digest now row db in
      write_transition event_digest current claimed "WORKER_CLAIMED" now
        (claimed_command worker_id now row db) db'

  pub claim_row_total :
      (worker_id : String) (timeout now : ℕ) (row : ExecutionCommandRow N) (db : Tables N)
      → is_claimable timeout now row ≡ true
      → RowIsValid db.transitions row
      → IsStored db row
      → IsValid db
      → (claim_row event_digest token_digest worker_id now row db
          ≡ ok (claimed_command worker_id now row db, claimed_tables worker_id now row db))
        × IsValid (claimed_tables worker_id now row db)
  unfolding claim_row claimed_tables
  claim_row_total worker_id timeout now row db test valid stored h =
      let (current, db') = recover_stale event_digest now row db in
      let t = recover_stale-IsTakable event_digest timeout now row db test valid stored h in
      (
        apply_transition_allowed event_digest current claimed "WORKER_CLAIMED" now
            (claim_updates (token_digest row.command_id worker_id now) worker_id now) db' t.moves
            t.allowed,
        write_transition-IsValid event_digest current claimed "WORKER_CLAIMED" now
            (claim_updates (token_digest row.command_id worker_id now) worker_id now) db' t.allowed
            t.valid t.stored t.tables,
      )

  claim_from_total :
      (dialect : Dialect) (locked : String → Bool) (worker_id : String) (timeout now : ℕ)
      (db : Tables N)
      → IsValid db
      → (c : Option (ExecutionCommand N)) × (db' : Tables N) × (claim_from event_digest token_digest
            dialect locked worker_id timeout now db
          ≡ ok (c, db'))
        × IsValid db'
  unfolding claim_from
  claim_from_total dialect locked worker_id timeout now db h =
      let rows = choices dialect locked timeout now db in
      elim (Option-cases (oldest rows)) [
        | inl empty ↦ (none, db, rw (empty, claim_from) refl, h)
        | inr (row, found) ↦
            let choice =
              (oldest_lem (IsChoice timeout now db) rows row
                (choices_lem dialect locked timeout now db h) found).0 in
            let (taken, kept) =
              claim_row_total worker_id timeout now row db choice.claimable choice.valid
                choice.stored h in
            (
              some (claimed_command worker_id now row db),
              claimed_tables worker_id now row db,
              rw (found, claim_from, taken) refl,
              kept,
            )
      ]

  -- On valid tables `claim_next` never raises, and what it commits is valid again.
  pub claim_next_total :
      (dialect : Dialect) (locked : String → Bool) (worker_id : String) (timeout now : ℕ)
      (db : Tables N)
      → IsValid db
      → (c : Option (ExecutionCommand N)) × (db' : Tables N) × (claim_next event_digest token_digest
            dialect locked worker_id timeout now db
          ≡ ok (c, db'))
        × IsValid db'
  unfolding claim_next
  claim_next_total dialect locked worker_id timeout now db h =
      let (current, done, valid) = expire_due_total event_digest dialect locked now db h in
      let (c, db', taken, kept) =
        claim_from_total dialect locked worker_id timeout now current valid in
      (c, db', rw done taken, kept)
