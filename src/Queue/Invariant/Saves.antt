-- ===== src/Queue/Invariant/Saves.antt =====
-- The invariant of the tables, and that saving a row keeps it.
use astra_froge.Common.{
  ◌≡◌, refl, String, true, false, none, List, [], ◌∷◌, ◌++◌, ◌==◌, if◌then◌else◌, inl, inr,
  Bool-cases, All, All-map, All-append, any, ==_iff, ap, sym, ◌∙◌,
}
use astra_froge.Schemas.{
  ExecutionCommandState, pending, same_state, ExecutionCommand, ExecutionCommandRow,
  ExecutionCommandTransitionRow,
}
use astra_froge.Queue.Tables.{Tables, has_id, save_row}
use astra_froge.Queue.Rows.{Update, apply_update, model_copy}
use astra_froge.Queue.Invariant.Rows.{RowIsValid, save_row-RowIsValid}

pub same_state_refl : (s : ExecutionCommandState) → same_state s s ≡ true
same_state_refl pending = refl
same_state_refl _ = refl

module _ {N : Type 0} where
  -- The fields that no entry of `updates` names.
  abbrev pub fixed_part : ExecutionCommand N → ExecutionCommand N
  fixed_part c = record c {
    claim_token = none;
    worker_id = none;
    claimed_at = none;
    failure_reason = none;
    entry_exchange_order_id = none;
    stop_exchange_order_id = none;
    take_profit_exchange_order_id = none;
    executed_quantity = none;
    average_entry_price = none;
  }

  fixed_part-apply_update :
      (u : Update N) (c : ExecutionCommand N) → fixed_part (apply_update u c) ≡ fixed_part c
  unfolding apply_update
  fixed_part-apply_update (Update.claim_token v) c = refl
  fixed_part-apply_update _ c = refl

  pub fixed_part-model_copy :
      (us : List (Update N)) (c : ExecutionCommand N) → fixed_part (model_copy us c) ≡ fixed_part c
  unfolding model_copy
  fixed_part-model_copy [] c = refl
  fixed_part-model_copy (u ∷ us) c =
      fixed_part-model_copy us (apply_update u c) ∙ fixed_part-apply_update u c

  -- A row has an entry in the table.
  abbrev pub IsStored : Tables N → ExecutionCommandRow N → Type 0
  IsStored db row = any (has_id row.command_id) db.commands ≡ true

  -- The primary key.
  abbrev pub IsDistinct : List (ExecutionCommandRow N) → Type 0
  IsDistinct [] = Unit
  IsDistinct (row ∷ rows) = (any (has_id row.command_id) rows ≡ false) × IsDistinct rows

  pub record IsValid (db : Tables N) : Type 0 where
    pub rows : All (RowIsValid db.transitions) db.commands
    pub distinct : IsDistinct db.commands
    -- the foreign key of a transition
    pub owned :
        All
          (λ (t : ExecutionCommandTransitionRow). any (has_id t.command_id) db.commands ≡ true)
          db.transitions

  same_key :
      (k : String) (new row : ExecutionCommandRow N)
      → has_id k (if has_id new.command_id row then new else row) ≡ has_id k row
  same_key k new row = elim (Bool-cases (has_id new.command_id row)) [
    | inl same ↦
        rw same (ap (λ (x : String). x == k) (sym ((==_iff row.command_id new.command_id).0 same)))
    | inr other ↦ rw other
  ]

  pub any-save_row :
      (k : String) (new : ExecutionCommandRow N) (rows : List (ExecutionCommandRow N))
      → any (has_id k) (save_row new rows) ≡ any (has_id k) rows
  unfolding save_row
  any-save_row k new [] = refl
  any-save_row k new (row ∷ rows) = rw (same_key k new row, any-save_row k new rows)

  kept_key :
      (new row : ExecutionCommandRow N)
      → (if has_id new.command_id row then new else row).command_id ≡ row.command_id
  kept_key new row = elim (Bool-cases (has_id new.command_id row)) [
    | inl same ↦ rw same (sym ((==_iff row.command_id new.command_id).0 same))
    | inr other ↦ rw other
  ]

  pub save_row-IsDistinct :
      (new : ExecutionCommandRow N) (rows : List (ExecutionCommandRow N))
      → IsDistinct rows
      → IsDistinct (save_row new rows)
  unfolding save_row
  save_row-IsDistinct new [] h = tt
  save_row-IsDistinct new (row ∷ rows) h = (
    rw (kept_key new row, any-save_row row.command_id new rows) h.0,
    save_row-IsDistinct new rows h.1,
  )

  -- Saving a row that is stored, with one transition of it that fits.
  pub save_row-IsValid :
      (new : ExecutionCommandRow N) (t : ExecutionCommandTransitionRow) (db : Tables N)
      → t.command_id ≡ new.command_id
      → IsStored db new
      → RowIsValid (db.transitions ++ t ∷ []) new
      → IsValid db
      → IsValid
          (record { commands = save_row new db.commands; transitions = db.transitions ++ t ∷ [] })
  save_row-IsValid new t db e stored fits h = record {
    rows = save_row-RowIsValid db.transitions t new db.commands e fits h.rows;
    distinct = save_row-IsDistinct new db.commands h.distinct;
    owned =
        All-append
          (λ (u : ExecutionCommandTransitionRow).
            any (has_id u.command_id) (save_row new db.commands) ≡ true)
          db.transitions (t ∷ [])
          (All-map _ _ db.transitions (λ u p. any-save_row u.command_id new db.commands ∙ p)
            h.owned)
          (any-save_row t.command_id new db.commands ∙ rw e stored, tt);
  }
