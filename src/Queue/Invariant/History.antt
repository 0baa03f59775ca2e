-- ===== src/Queue/Invariant/History.antt =====
-- Running through the transitions of one command.
use astra_froge.Common.{
  ℕ, ◌+◌, ◌≡◌, refl, max, String, Bool, true, false, ◌&&◌, Option, none, some, List, [], ◌∷◌, ◌++◌,
  arith, ◌==◌, eqb, if◌then◌else◌, inl, inr, Bool-cases, All, any, ==_iff, sym, ap,
}
use astra_froge.Schemas.{
  ExecutionCommandState, pending, same_state, ExecutionCommandRow, ExecutionCommandTransitionRow,
}
use astra_froge.Queue.Transitions.{is_allowed}
use astra_froge.Queue.Tables.{has_id, max_sequence}

-- Where a history has led: nowhere yet, to a state by so many transitions, or it is not legal.
pub data Replay : Type 0 where
  fresh : Replay
  at : ExecutionCommandState → ℕ → Replay
  broken : Replay

abbrev pub starts : ExecutionCommandTransitionRow → Option ExecutionCommandState → Bool
starts t none = same_state t.to_state pending && eqb t.sequence 1
starts t (some _) = false

abbrev pub continues :
    ExecutionCommandTransitionRow → Option ExecutionCommandState → ExecutionCommandState → ℕ → Bool
continues t none s n = false
continues t (some from) s n = same_state from s && is_allowed s t.to_state && eqb t.sequence (n + 1)

-- The first transition creates the command as PENDING with sequence 1; each later one starts at the
-- state reached, is in the table, and has the next sequence.
unfoldable pub replay_step : Replay → ExecutionCommandTransitionRow → Replay
replay_step fresh t = if starts t t.from_state then at t.to_state t.sequence else broken
replay_step (at s n) t = if continues t t.from_state s n then at t.to_state t.sequence else broken
replay_step broken t = broken

unfoldable pub replay : String → Replay → List ExecutionCommandTransitionRow → Replay
replay command_id r [] = r
replay command_id r (t ∷ ts) =
    replay command_id (if t.command_id == command_id then replay_step r t else r) ts

pub replay-append :
    (id : String) (r : Replay) (ts : List ExecutionCommandTransitionRow)
    (t : ExecutionCommandTransitionRow)
    → replay id r (ts ++ t ∷ [])
      ≡ (if t.command_id == id then replay_step (replay id r ts) t else replay id r ts)
unfolding replay
replay-append id r [] t = refl
replay-append id r (u ∷ ts) t =
    replay-append id (if u.command_id == id then replay_step r u else r) ts t

-- The two tests of one step, in either order.
max_swap :
    (b c : Bool) (u m t : ℕ)
    → (if b then max u (if c then max m t else m) else (if c then max m t else m))
      ≡ (if c then max (if b then max u m else m) t else (if b then max u m else m))
max_swap true true u m t = omega arith
max_swap true false u m t = refl
max_swap false true u m t = refl
max_swap false false u m t = refl

max_first : (c : Bool) (t : ℕ) → (if c then max t 0 else 0) ≡ (if c then max 0 t else 0)
max_first true t = omega arith
max_first false t = refl

pub max_sequence-append :
    (id : String) (ts : List ExecutionCommandTransitionRow) (t : ExecutionCommandTransitionRow)
    → max_sequence id (ts ++ t ∷ [])
      ≡ (if t.command_id == id then max (max_sequence id ts) t.sequence else max_sequence id ts)
unfolding max_sequence
max_sequence-append id [] t = max_first (t.command_id == id) t.sequence
max_sequence-append id (u ∷ ts) t =
    rw (max_sequence-append id ts t) (
      max_swap (u.command_id == id) (t.command_id == id) u.sequence (max_sequence id ts) t.sequence)

-- A command that no transition names has no history.
module _ {N : Type 0} (id : String) (rows : List (ExecutionCommandRow N))
    (absent : any (has_id id) rows ≡ false) where
  not_owner :
      (t : ExecutionCommandTransitionRow)
      → any (has_id t.command_id) rows ≡ true
      → (t.command_id == id) ≡ false
  not_owner t h = elim (Bool-cases (t.command_id == id)) [
    | inl same ↦ absurd (
        let e = (==_iff t.command_id id).0 same in
        cc (sym h, absent, ap (λ (k : String). any (has_id k) rows) e))
    | inr other ↦ other
  ]

  pub replay_absent :
      (r : Replay) (ts : List ExecutionCommandTransitionRow)
      → All (λ (t : ExecutionCommandTransitionRow). any (has_id t.command_id) rows ≡ true) ts
      → replay id r ts ≡ r
  unfolding replay
  replay_absent r [] h = refl
  replay_absent r (t ∷ ts) h = rw (not_owner t h.0) (replay_absent r ts h.1)

  pub max_sequence_absent :
      (ts : List ExecutionCommandTransitionRow)
      → All (λ (t : ExecutionCommandTransitionRow). any (has_id t.command_id) rows ≡ true) ts
      → max_sequence id ts ≡ 0
  unfolding max_sequence
  max_sequence_absent [] h = refl
  max_sequence_absent (t ∷ ts) h = rw (not_owner t h.0) (max_sequence_absent ts h.1)
