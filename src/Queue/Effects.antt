-- ===== src/Queue/Effects.antt =====
-- What `transition` and `create` leave in the tables, as later reads see it.
use astra_froge.Common.{
  ℕ, ◌≡◌, refl, String, true, false, some, List, [], ◌∷◌, ◌==◌, inl, inr, Bool-cases, Option-cases,
  All, All-find?, find?, ==_iff, ==_refl, ap, sym, ok, subst, ok_tables, ok_value, err_ne_ok,
}
use mathlib.Core.Path.{subst₂}
use astra_froge.Schemas.{
  ExecutionCommandState, pending, claimed, submitting, entry_confirmed, protection_pending,
  protected, completed, blocked, failed, recovery_required, expired, same_state, ExecutionCommand,
  ExecutionCommandRow,
}
use astra_froge.Queue.Transitions.{is_allowed}
use astra_froge.Queue.Tables.{Tables, has_id, locked_row, save_row}
use astra_froge.Queue.Rows.{Update, moved_command, moved_row}
use astra_froge.Queue.Repository.{write_transition, apply_transition, transition}
use astra_froge.Queue.Invariant.{fixed_part, fixed_part-model_copy}

pub same_state_eq : (s t : ExecutionCommandState) → same_state s t ≡ true → t ≡ s
same_state_eq pending pending h = refl
same_state_eq claimed claimed h = refl
same_state_eq submitting submitting h = refl
same_state_eq entry_confirmed entry_confirmed h = refl
same_state_eq protection_pending protection_pending h = refl
same_state_eq protected protected h = refl
same_state_eq completed completed h = refl
same_state_eq blocked blocked h = refl
same_state_eq failed failed h = refl
same_state_eq recovery_required recovery_required h = refl
same_state_eq expired expired h = refl
same_state_eq _ _ h = cc

All-Unit : {A : Type 0} (xs : List A) → All (λ (x : A). Unit {0}) xs
All-Unit [] = tt
All-Unit (x ∷ xs) = (tt, All-Unit xs)

module _ {N : Type 0} where
  -- The approved request: what no transition may change.
  abbrev pub approved_part : ExecutionCommand N → ExecutionCommand N
  approved_part c = record (fixed_part c) { state = pending; updated_at = 0; audit_codes = [] }

  pub approved_part-moved_command :
      (to_state : ExecutionCommandState) (reason : String) (now : ℕ) (us : List (Update N))
      (c : ExecutionCommand N)
      → approved_part (moved_command to_state reason now us c) ≡ approved_part c
  unfolding moved_command
  approved_part-moved_command to_state reason now us c =
      ap
        (λ (x : ExecutionCommand N). record x { state = pending; updated_at = 0; audit_codes = [] })
        (fixed_part-model_copy us _)

  pub find-save_row_self :
      (new row : ExecutionCommandRow N) (rows : List (ExecutionCommandRow N))
      → find? (has_id new.command_id) rows ≡ some row
      → find? (has_id new.command_id) (save_row new rows) ≡ some new
  unfolding save_row
  find-save_row_self new row [] e = cc
  find-save_row_self new row (r ∷ rows) e = elim (Bool-cases (r.command_id == new.command_id)) [
    | inl same ↦ rw (same, ==_refl)
    | inr other ↦ rw (other, other) (find-save_row_self new row rows (rw other at e))
  ]

  pub find-save_row_other :
      (k : String) (new : ExecutionCommandRow N) (rows : List (ExecutionCommandRow N))
      → (new.command_id == k) ≡ false
      → find? (has_id k) (save_row new rows) ≡ find? (has_id k) rows
  unfolding save_row
  find-save_row_other k new [] id = refl
  find-save_row_other k new (r ∷ rows) id = elim (Bool-cases (r.command_id == new.command_id)) [
    | inl same ↦
        let e : new.command_id ≡ r.command_id = sym ((==_iff _ _).0 same) in
        let apart : (r.command_id == k) ≡ false = subst (λ (x : String). (x == k) ≡ false) e id in
        rw (same, id, apart) (find-save_row_other k new rows id)
    | inr other ↦ rw (other, find-save_row_other k new rows id)
  ]

  pub found_id :
      (k : String) (rows : List (ExecutionCommandRow N)) (row : ExecutionCommandRow N)
      → find? (has_id k) rows ≡ some row
      → row.command_id ≡ k
  found_id k rows row e =
      (==_iff row.command_id k).0
        (All-find? (λ (r : ExecutionCommandRow N). Unit {0}) (has_id k) rows row (All-Unit rows)
          e).1

  -- What a read finds after a transition of the command `id`, whose row was `old`.
  pub record IsMoved (id : String) (to_state : ExecutionCommandState) (db db' : Tables N)
      (old : ExecutionCommandRow N) (c : ExecutionCommand N) : Type 0 where
    -- the row is in the new state and holds the command that was returned
    pub stored :
        (row : ExecutionCommandRow N) × (locked_row id db' ≡ some row)
        × (row.state ≡ to_state)
        × (row.payload ≡ c)
    -- the approved request is unchanged
    pub approved : approved_part c ≡ approved_part old.payload
    -- every other command is found as before
    pub others : (k : String) → (id == k) ≡ false → locked_row k db' ≡ locked_row k db

module _ (event_digest : String → ℕ → String) {N : Type 0} where
  write_transition-IsMoved :
      (old : ExecutionCommandRow N) (to_state : ExecutionCommandState) (reason : String) (now : ℕ)
      (us : List (Update N)) (db : Tables N)
      → locked_row old.command_id db ≡ some old
      → (let c = moved_command to_state reason now us old.payload in
          IsMoved old.command_id to_state db
            (write_transition event_digest old to_state reason now c db)
            old
            c)
  unfolding write_transition locked_row
  write_transition-IsMoved old to_state reason now us db found =
      let c = moved_command to_state reason now us old.payload in
      let new = moved_row to_state now c old in
      record {
        stored = (new, find-save_row_self new old db.commands found, refl, refl);
        approved = approved_part-moved_command to_state reason now us old.payload;
        others = λ k apart. find-save_row_other k new db.commands apart;
      }

  apply_transition-IsMoved :
      (old : ExecutionCommandRow N) (to_state : ExecutionCommandState) (reason : String) (now : ℕ)
      (us : List (Update N)) (db db' : Tables N) (c : ExecutionCommand N)
      → locked_row old.command_id db ≡ some old
      → apply_transition event_digest old to_state reason now us db ≡ ok (c, db')
      → IsMoved old.command_id to_state db db' old c
  unfolding apply_transition
  apply_transition-IsMoved old to_state reason now us db db' c found e =
      elim (Bool-cases (same_state to_state old.state)) [
        | inl same ↦
            let r = rw same at e in
            let value : old.payload ≡ c = ok_value r in
            subst₂ (λ x y. IsMoved old.command_id to_state db y old x) value (ok_tables r)
              (record {
                stored = (old, found, same_state_eq to_state old.state same, refl);
                approved = refl;
                others = λ k apart. refl;
              })
        | inr other ↦ elim (Bool-cases (is_allowed old.state to_state)) [
          | inl allowed ↦
              let r = rw (other, allowed) at e in
              subst₂ (λ x y. IsMoved old.command_id to_state db y old x) (ok_value r) (ok_tables r)
                (write_transition-IsMoved old to_state reason now us db found)
          | inr refused ↦ absurd (err_ne_ok (rw (other, refused) at e))
        ]
      ]

  -- A transition that succeeds leaves the row of its command in the state that was asked for,
  -- holding the command that it returned, whose approved request is unchanged; every other command
  -- is found as before.
  pub transition-IsMoved :
      (id : String) (to_state : ExecutionCommandState) (reason : String) (now : ℕ)
      (us : List (Update N)) (db db' : Tables N) (old : ExecutionCommandRow N)
      (c : ExecutionCommand N)
      → locked_row id db ≡ some old
      → transition event_digest id to_state reason now us db ≡ ok (c, db')
      → IsMoved id to_state db db' old c
  unfolding transition locked_row
  transition-IsMoved id to_state reason now us db db' old c found e =
      let own : old.command_id ≡ id = found_id id db.commands old found in
      subst (λ k. IsMoved k to_state db db' old c) own
        (apply_transition-IsMoved old to_state reason now us db db' c
          (subst (λ k. locked_row k db ≡ some old) (sym own) found) (rw (found, transition) at e))

  -- A transition that succeeds had a row to start from.
  pub transition_found :
      (id : String) (to_state : ExecutionCommandState) (reason : String) (now : ℕ)
      (us : List (Update N)) (db db' : Tables N) (c : ExecutionCommand N)
      → transition event_digest id to_state reason now us db ≡ ok (c, db')
      → (old : ExecutionCommandRow N) × (locked_row id db ≡ some old)
  unfolding transition
  transition_found id to_state reason now us db db' c e = elim (Option-cases (locked_row id db)) [
    | inl missing ↦ absurd (err_ne_ok (rw (missing, transition) at e))
    | inr (row, found) ↦ (row, found)
  ]
