-- ===== src/Queue/Exclusion.antt =====
-- A claim excludes the other workers until it times out.
use astra_froge.Common.{
  ℕ, ◌+◌, ◌<◌, ◌≡◌, ◌≢◌, refl, String, Bool, true, false, ◌||◌, Option, some, List, [], ◌∷◌, arith,
  ◌==◌, leb, inl, inr, Bool-cases, All, All-find?, ==_iff, sym, ok, ◌∙◌, subst, ok_tables, ok_inj,
  false≢true, >>=-eq-ok, err_ne_ok,
}
use astra_froge.Schemas.{
  ExecutionCommandState, claimed, submitting, expired, same_state, ExecutionCommand,
  ExecutionCommandRow,
}
use astra_froge.Queue.Transitions.{is_allowed}
use astra_froge.Queue.Tables.{Tables, has_id, locked_row, save_row}
use astra_froge.Queue.Rows.{moved_command, moved_row, model_copy}
use astra_froge.Queue.Repository.{write_transition, apply_transition, Dialect}
use astra_froge.Queue.Claims.{
  is_stale, is_claimable, recovered_row, expire_rows, expire_due, recover_stale, claim_next,
}
use astra_froge.Queue.Invariant.{IsValid, claimed_command, claimed_tables, claim_next_total}
use astra_froge.Queue.Claiming.{claim_next-IsClaim}

module _ {N : Type 0} where
  -- No row of the command may be claimed.
  abbrev IsHeld : String → ℕ → ℕ → ExecutionCommandRow N → Type 0
  IsHeld id timeout now row = (row.command_id == id) ≡ true → is_claimable timeout now row ≡ false

  save_row-IsHeld :
      (id : String) (timeout now : ℕ) (new : ExecutionCommandRow N)
      (rows : List (ExecutionCommandRow N))
      → is_claimable timeout now new ≡ false
      → All (IsHeld id timeout now) rows
      → All (IsHeld id timeout now) (save_row new rows)
  unfolding save_row
  save_row-IsHeld id timeout now new [] held h = tt
  save_row-IsHeld id timeout now new (row ∷ rows) held h = (
    elim (Bool-cases (row.command_id == new.command_id)) [
      | inl same ↦ rw same (λ _. held)
      | inr other ↦ rw other h.0
    ],
    save_row-IsHeld id timeout now new rows held h.1,
  )

  save_row-claimed :
      (timeout now : ℕ) (new : ExecutionCommandRow N) (rows : List (ExecutionCommandRow N))
      → is_claimable timeout now new ≡ false
      → All (IsHeld new.command_id timeout now) (save_row new rows)
  unfolding save_row
  save_row-claimed timeout now new [] held = tt
  save_row-claimed timeout now new (row ∷ rows) held = (
    elim (Bool-cases (row.command_id == new.command_id)) [
      | inl same ↦ rw same (λ _. held)
      | inr other ↦ rw other (λ same. absurd (false≢true (sym other ∙ same)))
    ],
    save_row-claimed timeout now new rows held,
  )

-- A claim that has not timed out is not stale.
not_stale : (timeout now since : ℕ) → now < since + timeout → leb (since + timeout) now ≡ false
not_stale timeout now since h = ground arith

module _ (event_digest : String → ℕ → String) {N : Type 0} where
  -- A row that `write_transition` has just moved to a state.
  write_transition-IsHeld :
      (id : String) (timeout now at : ℕ) (row : ExecutionCommandRow N)
      (to_state : ExecutionCommandState) (reason : String) (c : ExecutionCommand N) (db : Tables N)
      → is_claimable timeout now (moved_row to_state at c row) ≡ false
      → All (IsHeld id timeout now) db.commands
      → All
          (IsHeld id timeout now)
          (write_transition event_digest row to_state reason at c db).commands
  unfolding write_transition
  write_transition-IsHeld id timeout now at row to_state reason c db held h =
      save_row-IsHeld id timeout now (moved_row to_state at c row) db.commands held h

  expired_is_held :
      (timeout now at : ℕ) (c : ExecutionCommand N) (row : ExecutionCommandRow N)
      → is_claimable timeout now (moved_row expired at c row) ≡ false
  unfolding is_claimable moved_row
  expired_is_held timeout now at c row = refl

  apply_expired-IsHeld :
      (id : String) (timeout now at : ℕ) (row : ExecutionCommandRow N) (db : Tables N)
      (moved : ExecutionCommand N × Tables N)
      → All (IsHeld id timeout now) db.commands
      → apply_transition event_digest row expired "COMMAND_EXPIRED" at [] db ≡ ok moved
      → All (IsHeld id timeout now) moved.1.commands
  unfolding apply_transition
  apply_expired-IsHeld id timeout now at row db moved h e =
      elim (Bool-cases (same_state expired row.state)) [
        | inl same ↦
            subst (λ (m : ExecutionCommand N × Tables N). All (IsHeld id timeout now) m.1.commands)
              (ok_inj (rw same at e)) h
        | inr other ↦ elim (Bool-cases (is_allowed row.state expired)) [
          | inl allowed ↦
              let c = moved_command expired "COMMAND_EXPIRED" at [] row.payload in
              subst
                (λ (m : ExecutionCommand N × Tables N). All (IsHeld id timeout now) m.1.commands)
                (ok_inj (rw (other, allowed) at e))
                (write_transition-IsHeld id timeout now at row expired "COMMAND_EXPIRED" c db
                  (expired_is_held timeout now at c row) h)
          | inr refused ↦ absurd (err_ne_ok (rw (other, refused) at e))
        ]
      ]

  expire_rows-IsHeld :
      (id : String) (timeout now at : ℕ) (rows : List (ExecutionCommandRow N)) (db db' : Tables N)
      → All (IsHeld id timeout now) db.commands
      → expire_rows event_digest at rows db ≡ ok db'
      → All (IsHeld id timeout now) db'.commands
  unfolding expire_rows
  expire_rows-IsHeld id timeout now at [] db db' h e =
      subst (λ (d : Tables N). All (IsHeld id timeout now) d.commands) (ok_inj e) h
  expire_rows-IsHeld id timeout now at (row ∷ rows) db db' h e =
      let (moved, done, rest) =
        >>=-eq-ok (apply_transition event_digest row expired "COMMAND_EXPIRED" at [] db) _ e in
      expire_rows-IsHeld id timeout now at rows moved.1 db'
        (apply_expired-IsHeld id timeout now at row db moved h done) rest

module _ (event_digest : String → ℕ → String) (token_digest : String → String → ℕ → String)
    {N : Type 0} where
  claimed_not_claimable :
      (timeout now later : ℕ) (c : ExecutionCommand N) (row : ExecutionCommandRow N)
      → later < now + timeout
      → c.claimed_at ≡ some now
      → is_claimable timeout later (moved_row claimed now c row) ≡ false
  unfolding is_claimable is_stale moved_row
  claimed_not_claimable timeout now later c row early at =
      rw (at, not_stale timeout later now early)

  claimed_tables-IsHeld :
      (worker_id : String) (timeout now later : ℕ) (row : ExecutionCommandRow N) (db : Tables N)
      → later < now + timeout
      → All
          (IsHeld (recover_stale event_digest now row db).0.command_id timeout later)
          (claimed_tables event_digest token_digest worker_id now row db).commands
  unfolding claimed_tables claimed_command write_transition moved_command model_copy
  claimed_tables-IsHeld worker_id timeout now later row db early =
      let c = claimed_command event_digest token_digest worker_id now row db in
      let (current, after) = recover_stale event_digest now row db in
      save_row-claimed timeout later (moved_row claimed now c current) after.commands
        (claimed_not_claimable timeout now later c current early refl)

  recover_stale_id :
      (now : ℕ) (row : ExecutionCommandRow N) (db : Tables N)
      → (recover_stale event_digest now row db).0.command_id ≡ row.command_id
  unfolding recover_stale recovered_row
  recover_stale_id now row db =
      elim (Bool-cases (same_state row.state claimed || same_state row.state submitting)) [
        | inl stale ↦ rw stale
        | inr idle ↦ rw idle
      ]

  -- After a claim no row of the claimed command may be claimed before the timeout.
  claim_holds :
      (dialect : Dialect) (locked : String → Bool) (worker_id : String) (timeout now later : ℕ)
      (db db' : Tables N) (c : ExecutionCommand N)
      → IsValid db
      → claim_next event_digest token_digest dialect locked worker_id timeout now db
        ≡ ok (some c, db')
      → later < now + timeout
      → All (IsHeld c.command_id timeout later) db'.commands
  claim_holds dialect locked worker_id timeout now later db db' c h e early =
      let (current, row, done, claim, after) =
        claim_next-IsClaim event_digest token_digest dialect locked worker_id timeout now db db' c h
          e in
      subst (λ (d : Tables N). All (IsHeld c.command_id timeout later) d.commands) after
        (subst
          (λ k.
            All (IsHeld k timeout later)
              (claimed_tables event_digest token_digest worker_id now row current).commands)
          (recover_stale_id now row current ∙ sym claim.identity)
          (claimed_tables-IsHeld worker_id timeout now later row current early))

  expire_due-IsHeld :
      (dialect : Dialect) (locked : String → Bool) (id : String) (timeout now : ℕ)
      (db db' : Tables N)
      → All (IsHeld id timeout now) db.commands
      → expire_due event_digest dialect locked now db ≡ ok db'
      → All (IsHeld id timeout now) db'.commands
  unfolding expire_due
  expire_due-IsHeld dialect locked id timeout now db db' h e =
      expire_rows-IsHeld event_digest id timeout now now _ db db' h e

  found-IsHeld :
      (id : String) (timeout now : ℕ) (db : Tables N) (row : ExecutionCommandRow N)
      → All (IsHeld id timeout now) db.commands
      → locked_row row.command_id db ≡ some row
      → is_claimable timeout now row ≡ true
      → row.command_id ≢ id
  unfolding locked_row
  found-IsHeld id timeout now db row h found free same =
      let held =
        (All-find? (IsHeld id timeout now) (has_id row.command_id) db.commands row h found).0
          ((==_iff row.command_id id).1 same) in
      false≢true (sym held ∙ free)

  pub claim_next-IsValid :
      (dialect : Dialect) (locked : String → Bool) (worker_id : String) (timeout now : ℕ)
      (db db' : Tables N) (c : Option (ExecutionCommand N))
      → IsValid db
      → claim_next event_digest token_digest dialect locked worker_id timeout now db ≡ ok (c, db')
      → IsValid db'
  claim_next-IsValid dialect locked worker_id timeout now db db' c h e =
      let r =
        claim_next_total event_digest token_digest dialect locked worker_id timeout now db h in
      subst IsValid (ok_tables (sym r.2 ∙ e)) r.3

  -- On valid tables two claims in a row never return the same command before the first has timed
  -- out, whichever workers make them and whichever rows other transactions hold.
  pub claims_exclude :
      (d₁ d₂ : Dialect) (locked₁ locked₂ : String → Bool) (worker₁ worker₂ : String)
      (timeout now later : ℕ) (db db₁ db₂ : Tables N) (c₁ c₂ : ExecutionCommand N)
      → IsValid db
      → claim_next event_digest token_digest d₁ locked₁ worker₁ timeout now db ≡ ok (some c₁, db₁)
      → claim_next event_digest token_digest d₂ locked₂ worker₂ timeout later db₁
        ≡ ok (some c₂, db₂)
      → later < now + timeout
      → c₂.command_id ≢ c₁.command_id
  claims_exclude d₁ d₂ locked₁ locked₂ worker₁ worker₂ timeout now later db db₁ db₂ c₁ c₂ h e₁ e₂
        early same =
      let valid = claim_next-IsValid d₁ locked₁ worker₁ timeout now db db₁ (some c₁) h e₁ in
      let held = claim_holds d₁ locked₁ worker₁ timeout now later db db₁ c₁ h e₁ early in
      let (current, row, done, claim, after) =
        claim_next-IsClaim event_digest token_digest d₂ locked₂ worker₂ timeout later db₁ db₂ c₂
          valid e₂ in
      found-IsHeld c₁.command_id timeout later current row
        (expire_due-IsHeld d₂ locked₂ c₁.command_id timeout later db₁ current held done) claim.found
        claim.claimable (sym claim.identity ∙ same)
