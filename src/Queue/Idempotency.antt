-- ===== src/Queue/Idempotency.antt =====
-- `create` makes one durable command for one identity.
use astra_froge.Common.{
  ℕ, ◌≡◌, ◌≢◌, refl, String, Bool, true, ◌||◌, none, some, List, [], ◌∷◌, ◌++◌, arith, ◌==◌, inl,
  inr, Bool-cases, Option-cases, any, find?, ==_refl, ap, ok, subst, ok_tables, ok_value, err_ne_ok,
  or_true,
}
use mathlib.Core.Path.{subst₂}
use astra_froge.Schemas.{ExecutionCommand, ExecutionCommandRow}
use astra_froge.Queue.Tables.{Tables, by_identity, conflicts}
use astra_froge.Queue.Rows.{new_row}
use astra_froge.Queue.Repository.{
  insert_command, insert_conflict, create, Dialect, postgresql, sqlite, other_dialect,
}

second_true : (a b c d : Bool) → b ≡ true → (a || b || c || d) ≡ true
second_true a b c d h = ground arith

module _ {N : Type 0} where
  abbrev has_key : String → ExecutionCommandRow N → Bool
  has_key key row = row.idempotency_key == key

  find-append_last :
      (p : ExecutionCommandRow N → Bool) (rows : List (ExecutionCommandRow N))
      (new : ExecutionCommandRow N)
      → find? p rows ≡ none
      → p new ≡ true
      → find? p (rows ++ new ∷ []) ≡ some new
  find-append_last p [] new missing fits = rw fits
  find-append_last p (row ∷ rows) new missing fits = elim (Bool-cases (p row)) [
    | inl here ↦ cc (rw here at missing)
    | inr there ↦ rw there (find-append_last p rows new (rw there at missing) fits)
  ]

  -- A durable row with the key of a new command is a conflict.
  key_conflict :
      (command : ExecutionCommand N) (rows : List (ExecutionCommandRow N))
      (row : ExecutionCommandRow N)
      → find? (has_key command.idempotency_key) rows ≡ some row
      → any (conflicts (new_row command)) rows ≡ true
  unfolding new_row
  key_conflict command [] row found = cc
  key_conflict command (r ∷ rows) row found =
      elim (Bool-cases (r.idempotency_key == command.idempotency_key)) [
        | inl same ↦ second_true (r.command_id == command.command_id) _ _ _ same
        | inr other ↦ rw (key_conflict command rows row (rw other at found)) (or_true _)
      ]

  conflict_returns :
      (dialect : Dialect) (command : ExecutionCommand N) (db : Tables N)
      (row : ExecutionCommandRow N)
      → dialect ≢ other_dialect
      → by_identity command.idempotency_key db ≡ some row
      → insert_conflict dialect command db ≡ ok (row.payload, db)
  unfolding insert_conflict
  conflict_returns postgresql command db row supported found = rw (found, insert_conflict)
  conflict_returns sqlite command db row supported found = rw (found, insert_conflict)
  conflict_returns other_dialect command db row supported found = absurd (supported refl)

module _ (event_digest : String → ℕ → String) {N : Type 0} where
  -- A creation whose identity another transaction has made durable meanwhile returns that durable
  -- command and writes nothing, on PostgreSQL and SQLite.
  pub create_lost_race :
      (dialect : Dialect) (command : ExecutionCommand N) (seen db : Tables N)
      (row : ExecutionCommandRow N)
      → dialect ≢ other_dialect
      → by_identity command.idempotency_key seen ≡ none
      → by_identity command.idempotency_key db ≡ some row
      → create event_digest dialect command seen db ≡ ok (row.payload, db)
  unfolding create by_identity
  create_lost_race dialect command seen db row supported missing found =
      rw (missing, create, key_conflict command db.commands row found)
        (conflict_returns dialect command db row supported found)

  inserted_found :
      (command : ExecutionCommand N) (db : Tables N)
      → by_identity command.idempotency_key db ≡ none
      → by_identity command.idempotency_key (insert_command event_digest command db)
        ≡ some (new_row command)
  unfolding by_identity insert_command new_row
  inserted_found command db missing =
      find-append_last (has_key command.idempotency_key) db.commands (new_row command) missing
        (==_refl command.idempotency_key)

  no_durable_row :
      (dialect : Dialect) (command c : ExecutionCommand N) (db db' : Tables N)
      → by_identity command.idempotency_key db ≡ none
      → insert_conflict dialect command db ≡ ok (c, db')
      → ⊥
  unfolding insert_conflict
  no_durable_row postgresql command c db db' missing e =
      err_ne_ok (rw (missing, insert_conflict) at e)
  no_durable_row sqlite command c db db' missing e = err_ne_ok (rw (missing, insert_conflict) at e)
  no_durable_row other_dialect command c db db' missing e = err_ne_ok e

  -- Creating a command again, with nothing in between, returns what the first creation returned and
  -- writes nothing.
  pub create_twice :
      (dialect : Dialect) (command c : ExecutionCommand N) (db db' : Tables N)
      → create event_digest dialect command db db ≡ ok (c, db')
      → create event_digest dialect command db' db' ≡ ok (c, db')
  unfolding create new_row
  create_twice dialect command c db db' e =
      elim (Option-cases (by_identity command.idempotency_key db)) [
        | inr (row, found) ↦
            subst (λ (d : Tables N). create event_digest dialect command d d ≡ ok (c, d))
              (ok_tables (rw (found, create) at e))
              (rw (found, create)
                (ap (λ (x : ExecutionCommand N). ok (x, db)) (ok_value (rw (found, create) at e))))
        | inl missing ↦ elim (Bool-cases (any (conflicts (new_row command)) db.commands)) [
          | inl taken ↦
              absurd
                (no_durable_row dialect command c db db' missing (rw (missing, create, taken) at e))
          | inr free ↦
              let r = rw (missing, create, free) at e in
              subst₂
                (λ (x : ExecutionCommand N) (d : Tables N).
                  create event_digest dialect command d d ≡ ok (x, d))
                (ok_value r) (ok_tables r) (rw (inserted_found command db missing, create))
        ]
      ]
