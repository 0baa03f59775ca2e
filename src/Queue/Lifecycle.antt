-- ===== src/Queue/Lifecycle.antt =====
-- What the history of a command says of the states that it has passed.
use astra_froge.Common.{
  ℕ, ◌≡◌, String, Bool, true, ◌&&◌, Option, none, some, List, [], ◌∷◌, ◌++◌, ◌==◌, inl, inr,
  Bool-cases, All, All-map, All-find?, any, any-append, and-true, or_true, or_left, sym, ◌∙◌, subst,
}
use mathlib.Core.List.{append_assoc, append-nil}
use astra_froge.Schemas.{
  ExecutionCommandState, pending, claimed, submitting, entry_confirmed, protection_pending,
  protected, completed, blocked, failed, recovery_required, expired, same_state,
  ExecutionCommandRow, ExecutionCommandTransitionRow,
}
use astra_froge.Queue.Transitions.{is_allowed}
use astra_froge.Queue.Tables.{Tables, has_id, locked_row}
use astra_froge.Queue.Invariant.{
  IsValid, RowIsValid, Replay, fresh, at, broken, replay_step, replay, same_state_refl, starts,
  continues,
}
use astra_froge.Queue.Effects.{same_state_eq}

-- The states that a command has passed once it has reached a state, that state included.
abbrev pub required : ExecutionCommandState → List ExecutionCommandState
required claimed = claimed ∷ []
required submitting = submitting ∷ claimed ∷ []
required entry_confirmed = entry_confirmed ∷ submitting ∷ claimed ∷ []
required protection_pending = protection_pending ∷ entry_confirmed ∷ submitting ∷ claimed ∷ []
required protected = protected ∷ protection_pending ∷ entry_confirmed ∷ submitting ∷ claimed ∷ []
required completed =
    completed ∷ protected ∷ protection_pending ∷ entry_confirmed ∷ submitting ∷ claimed ∷ []
required s = s ∷ []

-- The history holds a transition of the command into the state.
abbrev pub entered : String → List ExecutionCommandTransitionRow → ExecutionCommandState → Bool
entered id ts s = any (λ t. t.command_id == id && same_state t.to_state s) ts

abbrev pub HasEntered :
    String → List ExecutionCommandTransitionRow → List ExecutionCommandState → Type 0
HasEntered id ts = All (λ (s : ExecutionCommandState). entered id ts s ≡ true)

-- One transition of the table adds no requirement but its own target.
required_step :
    (P : ExecutionCommandState → Type 0) (s to : ExecutionCommandState)
    → is_allowed s to ≡ true
    → All P (required s)
    → P to
    → All P (required to)
unfolding is_allowed
required_step P claimed submitting h k p = (p, k)
required_step P submitting entry_confirmed h k p = (p, k)
required_step P entry_confirmed protection_pending h k p = (p, k)
required_step P protection_pending protected h k p = (p, k)
required_step P protected completed h k p = (p, k)
required_step P s pending h k p = (p, tt)
required_step P s claimed h k p = (p, tt)
required_step P s blocked h k p = (p, tt)
required_step P s failed h k p = (p, tt)
required_step P s recovery_required h k p = (p, tt)
required_step P s expired h k p = (p, tt)
required_step P _ _ h k p = cc

abbrev Reached : String → List ExecutionCommandTransitionRow → Replay → Type 0
Reached id ts fresh = Unit
Reached id ts (at s n) = HasEntered id ts (required s)
Reached id ts broken = Unit

starts_pending :
    (t : ExecutionCommandTransitionRow) (o : Option ExecutionCommandState)
    → starts t o ≡ true
    → same_state t.to_state pending ≡ true
starts_pending t none h = (and-true _ _ h).0
starts_pending t (some s) h = cc

continues_allowed :
    (t : ExecutionCommandTransitionRow) (o : Option ExecutionCommandState)
    (s : ExecutionCommandState) (n : ℕ)
    → continues t o s n ≡ true
    → is_allowed s t.to_state ≡ true
continues_allowed t none s n h = cc
continues_allowed t (some from) s n h = (and-true (same_state from s) _ (and-true _ _ h).0).1

module _ (id : String) where
  HasEntered-append :
      (ts : List ExecutionCommandTransitionRow) (t : ExecutionCommandTransitionRow)
      (states : List ExecutionCommandState)
      → HasEntered id ts states
      → HasEntered id (ts ++ t ∷ []) states
  HasEntered-append ts t states h = All-map _ _ states (λ s p. any-append _ ts t ∙ or_left _ _ p) h

  Reached-append :
      (ts : List ExecutionCommandTransitionRow) (t : ExecutionCommandTransitionRow) (r : Replay)
      → Reached id ts r
      → Reached id (ts ++ t ∷ []) r
  Reached-append ts t fresh h = tt
  Reached-append ts t (at s n) h = HasEntered-append ts t (required s) h
  Reached-append ts t broken h = tt

  own_entered :
      (ts : List ExecutionCommandTransitionRow) (t : ExecutionCommandTransitionRow)
      → (t.command_id == id) ≡ true
      → entered id (ts ++ t ∷ []) t.to_state ≡ true
  own_entered ts t own = rw (any-append, own, same_state_refl, or_true)

  start_entered :
      (ts : List ExecutionCommandTransitionRow) (t : ExecutionCommandTransitionRow)
      → (t.command_id == id) ≡ true
      → starts t t.from_state ≡ true
      → HasEntered id (ts ++ t ∷ []) (required t.to_state)
  start_entered ts t own h =
      let e : pending ≡ t.to_state =
        same_state_eq t.to_state pending (starts_pending t t.from_state h) in
      let here = own_entered ts t own in
      subst (λ s. HasEntered id (ts ++ t ∷ []) (required s)) e
        (subst (λ s. entered id (ts ++ t ∷ []) s ≡ true) (sym e) here, tt)

  Reached-step :
      (ts : List ExecutionCommandTransitionRow) (t : ExecutionCommandTransitionRow) (r : Replay)
      → (t.command_id == id) ≡ true
      → Reached id ts r
      → Reached id (ts ++ t ∷ []) (replay_step r t)
  unfolding replay_step
  Reached-step ts t fresh own h = elim (Bool-cases (starts t t.from_state)) [
    | inl start ↦ rw start (start_entered ts t own start)
    | inr other ↦ rw other tt
  ]
  Reached-step ts t (at s n) own h = elim (Bool-cases (continues t t.from_state s n)) [
    | inl next ↦ rw next (
        required_step _ s t.to_state (continues_allowed t t.from_state s n next)
          (HasEntered-append ts t (required s) h) (own_entered ts t own))
    | inr other ↦ rw other tt
  ]
  Reached-step ts t broken own h = tt

  Reached-replay :
      (pre ts : List ExecutionCommandTransitionRow) (r : Replay)
      → Reached id pre r
      → Reached id (pre ++ ts) (replay id r ts)
  unfolding replay
  Reached-replay pre [] r h = rw append-nil h
  Reached-replay pre (t ∷ ts) r h = elim (Bool-cases (t.command_id == id)) [
    | inl own ↦ rw own (
        subst (λ all. Reached id all (replay id (replay_step r t) ts))
          (append_assoc pre (t ∷ []) ts)
          (Reached-replay (pre ++ t ∷ []) ts (replay_step r t) (Reached-step pre t r own h)))
    | inr other ↦ rw other (
        subst (λ all. Reached id all (replay id r ts)) (append_assoc pre (t ∷ []) ts)
          (Reached-replay (pre ++ t ∷ []) ts r (Reached-append pre t r h)))
  ]

module _ {N : Type 0} where
  -- In valid tables the history of every command holds a transition into each state that its own
  -- state requires: a PROTECTED command has been CLAIMED, SUBMITTING, ENTRY_CONFIRMED and
  -- PROTECTION_PENDING, and a COMPLETED one has been PROTECTED besides.
  pub passed_required_states :
      (db : Tables N) (id : String) (row : ExecutionCommandRow N)
      → IsValid db
      → locked_row id db ≡ some row
      → HasEntered row.command_id db.transitions (required row.state)
  unfolding locked_row
  passed_required_states db id row h found =
      let valid =
        (All-find? (RowIsValid db.transitions) (has_id id) db.commands row h.rows found).0 in
      subst (Reached row.command_id db.transitions) valid.history
        (Reached-replay row.command_id [] db.transitions fresh tt)
