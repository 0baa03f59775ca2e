-- ===== src/Queue/Invariant/Rows.antt =====
-- What a row promises, and that writes to the tables keep the promises of all rows.
use astra_froge.Common.{◌≡◌, false, List, [], ◌∷◌, ◌++◌, ◌==◌, inl, inr, Bool-cases, All, ==_ne_sym}
use astra_froge.Schemas.{ExecutionCommandRow, ExecutionCommandTransitionRow}
use astra_froge.Queue.Tables.{save_row, max_sequence}
use astra_froge.Queue.Invariant.History.{fresh, at, replay, replay-append, max_sequence-append}

module _ {N : Type 0} where
  -- Each column that repeats a field of the payload agrees with it.
  pub record IsMirror (row : ExecutionCommandRow N) : Type 0 where
    pub command_id : row.command_id ≡ row.payload.command_id
    pub idempotency_key : row.idempotency_key ≡ row.payload.idempotency_key
    pub signal_id : row.signal_id ≡ row.payload.signal_id
    pub decision_key : row.decision_key ≡ row.payload.decision_key
    pub symbol : row.symbol ≡ row.payload.symbol
    pub state : row.state ≡ row.payload.state
    pub claim_token : row.claim_token ≡ row.payload.claim_token
    pub worker_id : row.worker_id ≡ row.payload.worker_id
    pub claimed_at : row.claimed_at ≡ row.payload.claimed_at
    pub failure_reason : row.failure_reason ≡ row.payload.failure_reason
    pub entry_exchange_order_id : row.entry_exchange_order_id ≡ row.payload.entry_exchange_order_id
    pub stop_exchange_order_id : row.stop_exchange_order_id ≡ row.payload.stop_exchange_order_id
    pub take_profit_exchange_order_id :
        row.take_profit_exchange_order_id ≡ row.payload.take_profit_exchange_order_id
    pub created_at : row.created_at ≡ row.payload.created_at
    pub updated_at : row.updated_at ≡ row.payload.updated_at
    pub expires_at : row.expires_at ≡ row.payload.expires_at

  -- The history is legal, numbered from 1 without a gap, and ends in the row's state.
  abbrev pub HasHistory : List ExecutionCommandTransitionRow → ExecutionCommandRow N → Type 0
  HasHistory ts row = replay row.command_id fresh ts ≡ at row.state (max_sequence row.command_id ts)

  pub record RowIsValid (ts : List ExecutionCommandTransitionRow) (row : ExecutionCommandRow N)
      : Type 0 where
    pub mirror : IsMirror row
    pub history : HasHistory ts row

  -- A transition of one command leaves the histories of the others alone.
  pub RowIsValid-append :
      (ts : List ExecutionCommandTransitionRow) (t : ExecutionCommandTransitionRow)
      (row : ExecutionCommandRow N)
      → (t.command_id == row.command_id) ≡ false
      → RowIsValid ts row
      → RowIsValid (ts ++ t ∷ []) row
  RowIsValid-append ts t row other h = record {
    mirror = h.mirror;
    history = rw (replay-append, max_sequence-append, other) h.history;
  }

  pub save_row-RowIsValid :
      (ts : List ExecutionCommandTransitionRow) (t : ExecutionCommandTransitionRow)
      (new : ExecutionCommandRow N) (rows : List (ExecutionCommandRow N))
      → t.command_id ≡ new.command_id
      → RowIsValid (ts ++ t ∷ []) new
      → All (RowIsValid ts) rows
      → All (RowIsValid (ts ++ t ∷ [])) (save_row new rows)
  unfolding save_row
  save_row-RowIsValid ts t new [] e fits h = tt
  save_row-RowIsValid ts t new (row ∷ rows) e fits h = (
    elim (Bool-cases (row.command_id == new.command_id)) [
      | inl same ↦ rw same fits
      | inr other ↦ rw other (RowIsValid-append ts t row (rw e (==_ne_sym _ _ other)) h.0)
    ],
    save_row-RowIsValid ts t new rows e fits h.1,
  )
