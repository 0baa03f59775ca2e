-- ===== src/Queue/Invariant/Expiry.antt =====
-- `_expire_due` never raises on valid tables, and keeps them valid.
use astra_froge.Common.{
  ℕ, ◌≡◌, refl, String, Bool, true, false, ◌&&◌, ◌||◌, some, List, [], ◌∷◌, inl, inr, Bool-cases,
  All, All-map, All-keep_if, All-both, any-false-All, find?, any, keep_if, ==_refl, ok, ◌∙◌,
  or_true, or-false, and-true, ==_ne_sym,
}
use astra_froge.Schemas.{
  ExecutionCommandState, pending, claimed, recovery_required, expired, same_state, ExecutionCommand,
  ExecutionCommandRow,
}
use astra_froge.Queue.Transitions.{is_allowed}
use astra_froge.Queue.Tables.{Tables, has_id}
use astra_froge.Queue.Rows.{Update, moved_command}
use astra_froge.Queue.Repository.{write_transition, apply_transition, Dialect}
use astra_froge.Queue.Claims.{is_visible, is_due, expire_rows, expire_due}
use astra_froge.Queue.Invariant.Rows.{RowIsValid, RowIsValid-append}
use astra_froge.Queue.Invariant.Saves.{IsStored, IsDistinct, IsValid, any-save_row}
use astra_froge.Queue.Invariant.Steps.{write_transition-IsValid}

-- The states that expire may expire.
due_state :
    (s : ExecutionCommandState)
    → (same_state s pending || same_state s claimed || same_state s recovery_required) ≡ true
    → (same_state expired s ≡ false) × (is_allowed s expired ≡ true)
unfolding is_allowed
due_state pending h = (refl, refl)
due_state claimed h = (refl, refl)
due_state recovery_required h = (refl, refl)
due_state _ h = cc

module _ {N : Type 0} where
  All-in :
      (rows zs : List (ExecutionCommandRow N))
      → ((k : String) → any (has_id k) rows ≡ true → any (has_id k) zs ≡ true)
      → All (λ (r : ExecutionCommandRow N). any (has_id r.command_id) zs ≡ true) rows
  All-in [] zs f = tt
  All-in (row ∷ rows) zs f =
      (f row.command_id (rw ==_refl), All-in rows zs (λ k h. f k (rw h (or_true _))))

  pub All-stored : (db : Tables N) → All (IsStored db) db.commands
  All-stored db = All-in db.commands db.commands (λ k h. h)

  any-keep_if :
      (k : String) (p : ExecutionCommandRow N → Bool) (rows : List (ExecutionCommandRow N))
      → any (has_id k) rows ≡ false
      → any (has_id k) (keep_if p rows) ≡ false
  any-keep_if k p [] h = refl
  any-keep_if k p (row ∷ rows) h =
      let (first, rest) = or-false (has_id k row) (any (has_id k) rows) h in
      elim (Bool-cases (p row)) [
        | inl in_it ↦ rw (in_it, first) (any-keep_if k p rows rest)
        | inr out ↦ rw out (any-keep_if k p rows rest)
      ]

  keep_if-IsDistinct :
      (p : ExecutionCommandRow N → Bool) (rows : List (ExecutionCommandRow N))
      → IsDistinct rows
      → IsDistinct (keep_if p rows)
  keep_if-IsDistinct p [] h = tt
  keep_if-IsDistinct p (row ∷ rows) h = elim (Bool-cases (p row)) [
    | inl in_it ↦ rw in_it (any-keep_if row.command_id p rows h.0, keep_if-IsDistinct p rows h.1)
    | inr out ↦ rw out (keep_if-IsDistinct p rows h.1)
  ]

  -- What a selected row must satisfy to be expired.
  pub record IsReady (db : Tables N) (row : ExecutionCommandRow N) : Type 0 where
    pub valid : RowIsValid db.transitions row
    pub stored : IsStored db row
    pub moves : same_state expired row.state ≡ false
    pub allowed : is_allowed row.state expired ≡ true

  -- With distinct keys every row is the one that a search for its key finds.
  pub All-found :
      (rows : List (ExecutionCommandRow N))
      → IsDistinct rows
      → All (λ (r : ExecutionCommandRow N). find? (has_id r.command_id) rows ≡ some r) rows
  All-found [] h = tt
  All-found (row ∷ rows) h = (
    rw ==_refl,
    All-map _ _ rows (λ r p. rw (==_ne_sym r.command_id row.command_id p.1) p.0)
        (All-both _ _ rows (All-found rows h.1) (any-false-All (has_id row.command_id) rows h.0)),
  )

module _ (event_digest : String → ℕ → String) {N : Type 0} where
  pub apply_transition_allowed :
      (row : ExecutionCommandRow N) (to_state : ExecutionCommandState) (reason : String) (now : ℕ)
      (us : List (Update N)) (db : Tables N)
      → same_state to_state row.state ≡ false
      → is_allowed row.state to_state ≡ true
      → apply_transition event_digest row to_state reason now us db ≡ (
          let c = moved_command to_state reason now us row.payload in
          ok (c, write_transition event_digest row to_state reason now c db))
  unfolding apply_transition
  apply_transition_allowed row to_state reason now us db moves allowed = rw (moves, allowed)

  IsReady-write :
      (row : ExecutionCommandRow N) (to_state : ExecutionCommandState) (reason : String) (now : ℕ)
      (c : ExecutionCommand N) (db : Tables N) (rows : List (ExecutionCommandRow N))
      → any (has_id row.command_id) rows ≡ false
      → All (IsReady db) rows
      → All (IsReady (write_transition event_digest row to_state reason now c db)) rows
  unfolding write_transition
  IsReady-write row to_state reason now c db [] absent h = tt
  IsReady-write row to_state reason now c db (r ∷ rows) absent h =
      let (other, rest) = or-false _ _ absent in
      (
        record {
          valid =
              RowIsValid-append db.transitions _ r (==_ne_sym r.command_id row.command_id other)
                h.0.valid;
          stored = any-save_row r.command_id _ db.commands ∙ h.0.stored;
          moves = h.0.moves;
          allowed = h.0.allowed;
        },
        IsReady-write row to_state reason now c db rows rest h.1,
      )

  expire_rows_total :
      (now : ℕ) (rows : List (ExecutionCommandRow N)) (db : Tables N)
      → IsDistinct rows
      → All (IsReady db) rows
      → IsValid db
      → (db' : Tables N) × (expire_rows event_digest now rows db ≡ ok db') × IsValid db'
  unfolding expire_rows
  expire_rows_total now [] db distinct ready h = (db, refl, h)
  expire_rows_total now (row ∷ rows) db distinct ready h =
      let r = ready.0 in
      let c = moved_command expired "COMMAND_EXPIRED" now [] row.payload in
      let db1 = write_transition event_digest row expired "COMMAND_EXPIRED" now c db in
      let (db', done, valid) =
        expire_rows_total now rows db1 distinct.1
          (IsReady-write row expired "COMMAND_EXPIRED" now c db rows distinct.0 ready.1)
          (write_transition-IsValid event_digest row expired "COMMAND_EXPIRED" now [] db r.allowed
            r.valid r.stored h) in
      (
        db',
        rw (apply_transition_allowed row expired "COMMAND_EXPIRED" now [] db r.moves r.allowed)
            done,
        valid,
      )

  pub expire_due_total :
      (dialect : Dialect) (locked : String → Bool) (now : ℕ) (db : Tables N)
      → IsValid db
      → (db' : Tables N) × (expire_due event_digest dialect locked now db ≡ ok db') × IsValid db'
  unfolding expire_due is_due
  expire_due_total dialect locked now db h =
      let test = λ (row : ExecutionCommandRow N). is_due now row && is_visible dialect locked row in
      expire_rows_total now (keep_if test db.commands) db
        (keep_if-IsDistinct test db.commands h.distinct)
        (All-map _ _ (keep_if test db.commands)
          (λ row p.
            let due = and-true (is_due now row) _ p.1 in
            let (moves, allowed) = due_state row.state (and-true _ _ due.0).0 in
            record { valid = p.0.0; stored = p.0.1; moves = moves; allowed = allowed })
          (All-keep_if _ test db.commands (All-both _ _ db.commands h.rows (All-stored db))))
        h
