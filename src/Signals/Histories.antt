-- ===== src/Signals/Histories.antt =====
-- What a history of a record looks like, and that each step of a record keeps it so.
use astra_froge.Common.{
  ℕ, suc, ◌+◌, ◌≤◌, String, Bool, true, false, not, ◌&&◌, Option, none, some, List, [], ◌∷◌, ◌++◌,
  length, if◌then◌else◌, ◌≡◌, refl, sym, ap, ◌∙◌, subst, inl, inr, Bool-cases, arith,
}
use astra_froge.Schemas.Decimals.{Decimals}
use astra_froge.Schemas.Signals.{
  ScannerCandidate, SignalLifecycle, SignalTransition, SignalRecord, same_lifecycle,
}
use astra_froge.Signals.Values.{is_terminal, scanner_reason, with_values, same_values}
use astra_froge.Signals.Records.{
  extended, terminal_time, create_record, changed_record, update_record, transition,
}

-- The entries are numbered without a gap.
abbrev pub IsNumbered : ℕ → List SignalTransition → Type 0
IsNumbered n [] = Unit {0}
IsNumbered n (t ∷ ts) = (t.sequence ≡ n) × IsNumbered (n + 1) ts

abbrev pub last_lifecycle : List SignalTransition → Option SignalLifecycle
last_lifecycle [] = none
last_lifecycle (t ∷ []) = some t.lifecycle
last_lifecycle (t ∷ u ∷ ts) = last_lifecycle (u ∷ ts)

abbrev pub is_given : Option ℕ → Bool
is_given none = false
is_given (some _) = true

-- The history is numbered from 1 and ends at the record's lifecycle; the version is at least its
-- length; and a terminal time is given exactly where the lifecycle is terminal.
pub record IsAudited {N : Type 0} (r : SignalRecord N) : Type 0 where
  pub numbered : IsNumbered 1 r.lifecycle_history
  pub current : last_lifecycle r.lifecycle_history ≡ some r.lifecycle
  pub versioned : length r.lifecycle_history ≤ r.version
  pub ended : is_given r.terminal_at ≡ is_terminal r.lifecycle

append-IsNumbered :
    (n : ℕ) (ts : List SignalTransition) (t : SignalTransition)
    → IsNumbered n ts
    → t.sequence ≡ n + length ts
    → IsNumbered n (ts ++ t ∷ [])
append-IsNumbered n [] t h e = (ground arith, tt)
append-IsNumbered n (x ∷ ts) t h e = (h.0, append-IsNumbered (n + 1) ts t h.1 (ground arith))

last_lifecycle-append :
    (ts : List SignalTransition) (t : SignalTransition)
    → last_lifecycle (ts ++ t ∷ []) ≡ some t.lifecycle
last_lifecycle-append [] t = refl
last_lifecycle-append (x ∷ []) t = refl
last_lifecycle-append (x ∷ y ∷ ts) t = last_lifecycle-append (y ∷ ts) t

length-append :
    (ts : List SignalTransition) (t : SignalTransition) → length (ts ++ t ∷ []) ≡ suc (length ts)
length-append [] t = refl
length-append (x ∷ ts) t = ap suc (length-append ts t)

terminal_time-ends :
    (l : SignalLifecycle) (at : ℕ) (otherwise : Option ℕ)
    → is_given otherwise ≡ false
    → is_given (terminal_time l at otherwise) ≡ is_terminal l
terminal_time-ends l at otherwise h = elim (Bool-cases (is_terminal l)) [
  | inl yes_l ↦ rw yes_l
  | inr no_l ↦ rw no_l h
]

pub same_lifecycle_eq : (a b : SignalLifecycle) → same_lifecycle a b ≡ true → a ≡ b
same_lifecycle_eq a b h = ground arith

module _ {N : Type 0} where
  -- A record that takes one more entry.
  extended-IsAudited :
      (r s : SignalRecord N) (at : ℕ) (reason : String)
      → IsAudited r
      → s.lifecycle_history ≡ extended r.lifecycle_history s.lifecycle at reason
      → s.version ≡ r.version + 1
      → is_given s.terminal_at ≡ is_terminal s.lifecycle
      → IsAudited s
  extended-IsAudited r s at reason h same version ended =
      let entry : SignalTransition = record {
        sequence = length r.lifecycle_history + 1;
        lifecycle = s.lifecycle;
        changed_at = at;
        reason = reason;
      } in
      record {
        numbered =
            subst (IsNumbered 1) (sym same)
              (append-IsNumbered 1 r.lifecycle_history entry h.numbered (ground arith));
        current = ap last_lifecycle same ∙ last_lifecycle-append r.lifecycle_history entry;
        versioned =
            more (length s.lifecycle_history) (length r.lifecycle_history) s.version r.version
              (ap length same ∙ length-append r.lifecycle_history entry) version h.versioned;
        ended = ended;
      }
    where
      more : (a b v w : ℕ) → a ≡ suc b → v ≡ w + 1 → b ≤ w → a ≤ v
      more a b v w e f g = omega arith

  pub create_record-IsAudited :
      (signal_id : String → String) (candidate : ScannerCandidate N) (stop : Option N)
      (lifecycle : SignalLifecycle)
      → IsAudited (create_record signal_id candidate stop lifecycle)
  unfolding create_record
  create_record-IsAudited signal_id candidate stop lifecycle = record {
    numbered = (refl, tt);
    current = refl;
    versioned = omega arith;
    ended = terminal_time-ends lifecycle candidate.evaluated_at none refl;
  }

  pub transition-IsAudited :
      (r : SignalRecord N) (lifecycle : SignalLifecycle) (at : ℕ) (reason : String)
      → IsAudited r
      → IsAudited (transition r lifecycle at reason)
  unfolding transition
  transition-IsAudited r lifecycle at reason h =
      elim (Bool-cases (same_lifecycle r.lifecycle lifecycle)) [
        | inl same ↦ rw same h
        | inr other ↦ rw other (
            extended-IsAudited r _ at reason h refl refl
              (terminal_time-ends lifecycle at none refl))
      ]

module _ {N : Type 0} (d : Decimals N) where
  changed_record-IsAudited :
      (r : SignalRecord N) (candidate : ScannerCandidate N) (stop : Option N)
      (lifecycle : SignalLifecycle) (stays : Bool)
      → same_lifecycle lifecycle r.lifecycle ≡ stays
      → (is_terminal r.lifecycle && not stays) ≡ false
      → IsAudited r
      → IsAudited (changed_record d r candidate stop lifecycle stays)
  unfolding with_values
  changed_record-IsAudited r candidate stop lifecycle true same guard h =
      let e = same_lifecycle_eq lifecycle r.lifecycle same in
      record {
        numbered = h.numbered;
        current = h.current ∙ ap some (sym e);
        versioned = ground arith;
        ended = h.ended ∙ ap is_terminal (sym e);
      }
  changed_record-IsAudited r candidate stop lifecycle false same guard h =
      extended-IsAudited r (changed_record d r candidate stop lifecycle false)
        candidate.evaluated_at (scanner_reason candidate.lifecycle) h refl refl
        (terminal_time-ends lifecycle candidate.evaluated_at r.terminal_at
          (h.ended ∙ alive (is_terminal r.lifecycle) guard))
    where
      alive : (b : Bool) → (b && true) ≡ false → b ≡ false
      alive true e = e
      alive false e = refl

  pub update_record-IsAudited :
      (r : SignalRecord N) (candidate : ScannerCandidate N) (stop : Option N)
      (lifecycle : SignalLifecycle)
      → (is_terminal r.lifecycle && not (same_lifecycle lifecycle r.lifecycle)) ≡ false
      → IsAudited r
      → IsAudited (update_record d r candidate stop lifecycle)
  unfolding update_record
  update_record-IsAudited r candidate stop lifecycle guard h =
      chosen (same_values d r candidate stop lifecycle)
    where
      chosen :
          (same : Bool)
          → IsAudited (
              if same
              then r
              else changed_record d r candidate stop lifecycle
                  (same_lifecycle lifecycle r.lifecycle))
      chosen true = h
      chosen false =
          changed_record-IsAudited r candidate stop lifecycle (same_lifecycle lifecycle r.lifecycle)
            refl guard h
