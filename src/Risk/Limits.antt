-- ===== src/Risk/Limits.antt =====
-- The limits that a list of assessments keeps, whatever the signals are.
use astra_froge.Common.{
  raise_if-eq-ok, validation_error, ap, ◌∙◌, ℕ, ◌+◌, ◌≤◌, max, String, true, false, Option, none,
  some, List, [], ◌∷◌, length, leb, if◌then◌else◌, lookup, put, ok, >>=-eq-ok, ok_inj, ◌≡◌, refl,
  subst, arith, inl, inr, Bool-cases, err_ne_ok,
}
use native.Mathlib.Nat.{add-zero}
use astra_froge.Schemas.Decimals.{Decimals}
use astra_froge.Schemas.Signals.{SignalRecord, SignalLifecycle, active, watch}
use astra_froge.Schemas.Risk.{RiskDecision, RiskAssessment}
use astra_froge.Risk.Snapshot.{RiskSnapshot}
use astra_froge.Risk.Policy.{
  RiskSettings, Sizing, Reserved, Verdict, refused, sized, stop_rejection,
  signal_contract_rejection, global_lock, placement, open_position_direction, is_execution_grade,
}
use astra_froge.Risk.Assessments.{
  breaks_fields, is_approval, or_else, assessment, placed, verdict_under, verdict, judged,
  assess_as, assess, assess_all, build_assessments, nothing_reserved,
}

module _ {N : Type 0} (d : Decimals N) (settings : RiskSettings N) (snapshot : RiskSnapshot N) where
  -- What an approval keeps to, where `reserved` is what the approvals before it have taken.
  pub record IsWithin (reserved : Reserved N) (a : RiskAssessment N) : Type 0 where
    -- the policy is not locked, and the grade may be executed
    pub unlocked : global_lock d settings (some snapshot) none ≡ none
    pub grade : is_execution_grade a.grade ≡ true
    -- the stop is on the losing side of the entry
    pub stop :
        (s : N) × (a.stop_loss_price ≡ some s)
        × (stop_rejection d a.direction s a.entry_trigger_price ≡ none)
    -- a slot is free, and the symbol is neither open nor reserved
    pub slot :
        leb settings.risk_max_open_trades (length snapshot.open_positions + reserved.slots) ≡ false
    pub not_open : open_position_direction snapshot.open_positions a.symbol ≡ none
    pub not_reserved : lookup a.symbol reserved.symbols ≡ none
    -- the margin of all approvals so far is within the exposure limit and the available balance
    pub margin :
        (m : N) × (a.required_margin_usdt ≡ some m)
        × (d.ltb settings.risk_max_margin_exposure_usdt
              (d.add (d.add snapshot.current_margin_exposure_usdt reserved.margin) m)
            ≡ false)
        × (d.ltb (d.sub snapshot.available_balance_usdt reserved.margin) m ≡ false)

  -- What is reserved after an assessment.
  abbrev pub after : Reserved N → RiskAssessment N → Reserved N
  after reserved a =
      if is_approval a.decision
      then record {
        slots = reserved.slots + 1;
        margin = d.add reserved.margin (or_else a.required_margin_usdt d.zero);
        symbols = put a.symbol a.direction reserved.symbols;
      }
      else reserved

  -- Every approval of the list keeps to the limits that those before it leave.
  abbrev pub AllWithin : Reserved N → List (RiskAssessment N) → Type 0
  AllWithin reserved [] = Unit
  AllWithin reserved (a ∷ rest) =
      (is_approval a.decision ≡ true → IsWithin reserved a) × AllWithin (after reserved a) rest

  module _ (now : ℕ) where
    sized_placement :
        (signal : SignalRecord N) (stop : N) (reserved : Reserved N) (z : Sizing N)
        → global_lock d settings (some snapshot) none ≡ none
        → signal_contract_rejection d signal ≡ none
        → signal.stop_loss_price ≡ some stop
        → placement d settings signal stop snapshot reserved ≡ sized z
        → IsWithin reserved
            (assessment d settings now (some snapshot) signal RiskDecision.approved none (some z))
    unfolding placement assessment signal_contract_rejection
    sized_placement signal stop reserved z unlocked contract stopped h = record {
      unlocked = unlocked;
      grade = ground arith;
      stop = (stop, stopped, ground arith);
      slot = ground arith;
      not_open = ground arith;
      not_reserved = ground arith;
      margin = (z.required_margin, refl, ground arith, ground arith);
    }

    -- An outcome of one turn: the assessment keeps to the limits, and the rest is what is left.
    abbrev IsTurn : Reserved N → RiskAssessment N × Reserved N → Type 0
    IsTurn reserved (a, rest) =
        (is_approval a.decision ≡ true → IsWithin reserved a) × (rest ≡ after reserved a)

    judged-IsTurn :
        (signal : SignalRecord N) (reserved : Reserved N) (stop : Option N) (v : Verdict N)
        → global_lock d settings (some snapshot) none ≡ none
        → signal_contract_rejection d signal ≡ none
        → signal.stop_loss_price ≡ stop
        → placed d settings now (some snapshot) reserved signal stop ≡ ok v
        → IsTurn reserved (judged d settings now (some snapshot) signal reserved v)
    unfolding assessment
    judged-IsTurn signal reserved none v unlocked contract stopped h = absurd (err_ne_ok h)
    judged-IsTurn signal reserved (some stop) (refused code) unlocked contract stopped h =
        ((λ e. cc), refl)
    judged-IsTurn signal reserved (some stop) (sized z) unlocked contract stopped h =
        ((λ _. sized_placement signal stop reserved z unlocked contract stopped (ok_inj h)), refl)

    refused-IsTurn :
        (signal : SignalRecord N) (reserved : Reserved N) (code : String)
        → IsTurn reserved (judged d settings now (some snapshot) signal reserved (refused code))
    unfolding assessment
    refused-IsTurn signal reserved code = ((λ e. cc), refl)

    verdict-IsTurn :
        (signal : SignalRecord N) (reserved : Reserved N) (v : Verdict N)
        (contract lock : Option String)
        → signal_contract_rejection d signal ≡ contract
        → global_lock d settings (some snapshot) none ≡ lock
        → verdict_under d settings now (some snapshot) reserved signal contract lock ≡ ok v
        → IsTurn reserved (judged d settings now (some snapshot) signal reserved v)
    verdict-IsTurn signal reserved v (some code) lock contract locked h =
        subst (λ w. IsTurn reserved (judged d settings now (some snapshot) signal reserved w))
          (ok_inj h) (refused-IsTurn signal reserved code)
    verdict-IsTurn signal reserved v none (some code) contract locked h =
        subst (λ w. IsTurn reserved (judged d settings now (some snapshot) signal reserved w))
          (ok_inj h) (refused-IsTurn signal reserved code)
    verdict-IsTurn signal reserved v none none contract locked h =
        judged-IsTurn signal reserved signal.stop_loss_price v locked contract refl h

    assess-IsTurn :
        (signal : SignalRecord N) (reserved : Reserved N) (l : SignalLifecycle)
        (p : RiskAssessment N × Reserved N)
        → assess_as d settings now
            (some snapshot)
            (global_lock d settings (some snapshot) none)
            reserved
            signal
            l
          ≡ ok p
        → IsTurn reserved p
    unfolding assessment verdict
    assess-IsTurn signal reserved watch p h = subst (IsTurn reserved) (ok_inj h) ((λ e. cc), refl)
    assess-IsTurn signal reserved active p h =
        let (v, passed, same) =
          >>=-eq-ok
            (verdict d settings now (some snapshot) (global_lock d settings (some snapshot) none)
              reserved signal)
            _ h in
        subst (IsTurn reserved) (ok_inj same) (
          verdict-IsTurn signal reserved v (signal_contract_rejection d signal)
            (global_lock d settings (some snapshot) none) refl refl passed)
    assess-IsTurn signal reserved SignalLifecycle.expired p h =
        subst (IsTurn reserved) (ok_inj h) ((λ e. cc), refl)
    assess-IsTurn signal reserved SignalLifecycle.invalidated p h =
        subst (IsTurn reserved) (ok_inj h) ((λ e. cc), refl)
    assess-IsTurn signal reserved SignalLifecycle.rejected p h =
        subst (IsTurn reserved) (ok_inj h) ((λ e. cc), refl)
    assess-IsTurn signal reserved SignalLifecycle.risk_blocked p h =
        subst (IsTurn reserved) (ok_inj h) ((λ e. cc), refl)

    assess_all-AllWithin :
        (signals : List (SignalRecord N)) (reserved : Reserved N) (list : List (RiskAssessment N))
        → assess_all d settings now
            (some snapshot)
            (global_lock d settings (some snapshot) none)
            reserved
            signals
          ≡ ok list
        → AllWithin reserved list
    unfolding assess_all assess
    assess_all-AllWithin [] reserved list h = subst (AllWithin reserved) (ok_inj h) tt
    assess_all-AllWithin (signal ∷ signals) reserved list h =
        let lock = global_lock d settings (some snapshot) none in
        let (next, first, e₁) =
          >>=-eq-ok (assess d settings now (some snapshot) lock reserved signal) _ h in
        let (rest, later, e₂) =
          >>=-eq-ok (assess_all d settings now (some snapshot) lock next.1 signals) _ e₁ in
        let (turn, judged_ok, built) =
          >>=-eq-ok (assess_as d settings now (some snapshot) lock reserved signal signal.lifecycle)
            _ first in
        let (within, same) = assess-IsTurn signal reserved signal.lifecycle next (
          judged_ok
          ∙ ap ok (
              ok_inj
                (raise_if-eq-ok (breaks_fields d settings now turn.0) validation_error
                  (λ _. ok turn) built).1)) in
        subst (AllWithin reserved) (ok_inj e₂) (
          within,
          subst (λ r. AllWithin r rest) same (assess_all-AllWithin signals next.1 rest later),
        )

    -- Against an account that was read, every approval of the risk engine keeps to the policy: the
    -- policy is not locked, the grade may be executed and the stop is on the losing side of the entry;
    -- a slot is left after the open positions and the approvals before it; its symbol is neither open
    -- nor approved before; and its margin, with the current exposure and the approvals before it, is
    -- within the exposure limit and the available balance.
    pub build_assessments-AllWithin :
        (signals : List (SignalRecord N)) (list : List (RiskAssessment N))
        → build_assessments d settings now (some snapshot) none signals ≡ ok list
        → AllWithin (nothing_reserved d settings now) list
    unfolding build_assessments
    build_assessments-AllWithin signals list h =
        assess_all-AllWithin signals (nothing_reserved d settings now) list h

  abbrev pub approvals : List (RiskAssessment N) → ℕ
  approvals [] = 0
  approvals (a ∷ rest) = if is_approval a.decision then approvals rest + 1 else approvals rest

  after_approval :
      (reserved : Reserved N) (a : RiskAssessment N)
      → is_approval a.decision ≡ true
      → (after reserved a).slots ≡ reserved.slots + 1
  after_approval reserved a h = ground arith

  after_other :
      (reserved : Reserved N) (a : RiskAssessment N)
      → is_approval a.decision ≡ false
      → (after reserved a).slots ≡ reserved.slots
  after_other reserved a h = ground arith

  counted :
      (o r r' n limit : ℕ)
      → leb limit (o + r) ≡ false
      → r' ≡ r + 1
      → o + r' + n ≤ max (o + r') limit
      → o + r + (n + 1) ≤ max (o + r) limit
  counted o r r' n limit free next h = ground arith

  slots_left :
      (list : List (RiskAssessment N)) (reserved : Reserved N)
      → AllWithin reserved list
      → length snapshot.open_positions + reserved.slots + approvals list
        ≤ max (length snapshot.open_positions + reserved.slots) settings.risk_max_open_trades
  slots_left [] reserved h = ground arith
  slots_left (a ∷ rest) reserved h = elim (Bool-cases (is_approval a.decision)) [
    | inl yes_a ↦
        let bound : length snapshot.open_positions + reserved.slots + (approvals rest + 1)
            ≤ max (length snapshot.open_positions + reserved.slots) settings.risk_max_open_trades =
          counted (length snapshot.open_positions) reserved.slots (after reserved a).slots
            (approvals rest) settings.risk_max_open_trades (h.0 yes_a).slot
            (after_approval reserved a yes_a) (slots_left rest (after reserved a) h.1) in
        simp yes_a bound
    | inr no_a ↦ simp no_a (
        subst
          (λ (k : ℕ).
            length snapshot.open_positions + k + approvals rest
            ≤ max (length snapshot.open_positions + k) settings.risk_max_open_trades)
          (after_other reserved a no_a) (slots_left rest (after reserved a) h.1))
  ]

  -- The approvals of one list of assessments, with the positions that are open, are never more than
  -- the limit on open trades, unless the open positions alone are more already.
  pub approvals_bound :
      (now : ℕ) (signals : List (SignalRecord N)) (list : List (RiskAssessment N))
      → build_assessments d settings now (some snapshot) none signals ≡ ok list
      → length snapshot.open_positions + approvals list
        ≤ max (length snapshot.open_positions) settings.risk_max_open_trades
  approvals_bound now signals list h =
      let bound =
        slots_left list (nothing_reserved d settings now)
          (build_assessments-AllWithin now signals list h) in
      subst (λ (k : ℕ). k + approvals list ≤ max k settings.risk_max_open_trades)
        (add-zero (length snapshot.open_positions)) bound
