-- ===== src/Risk/Total.antt =====
-- A locked policy always answers, one assessment for each signal and no approval; an open one answers
-- so or raises on a field that breaks its constraint.
use astra_froge.Common.{
  ℕ, String, Bool, true, false, Option, none, some, List, [], ◌∷◌, All, Result, ok, err, ◌>>=◌,
  ◌>>◌, raise_if, validation_error, ◌≡◌, ◌⊎◌, refl, sym, subst, arith, inl, inr, ltb,
}
use astra_froge.Schemas.Decimals.{Decimals}
use astra_froge.Schemas.Signals.{SignalRecord, SignalLifecycle}
use astra_froge.Schemas.Risk.{RiskAssessment, RiskDecision}
use astra_froge.Risk.Snapshot.{RiskSnapshot}
use astra_froge.Risk.Policy.{
  RiskSettings, Reserved, Verdict, refused, sized, signal_contract_rejection, global_lock,
}
use astra_froge.Risk.Assessments.{
  breaks_fields, constructed, is_out_of_range, is_approval, assessment, placed, verdict_under,
  verdict, judged, assess_as, assess, assess_all, nothing_reserved, build_assessments,
}

module _ {N : Type 0} (d : Decimals N) (settings : RiskSettings N) (now : ℕ) where
  -- The assessment of a signal: it bears its id, and under a lock it approves nothing.
  pub record IsVerdictOn (lock : Option String) (signal : SignalRecord N) (a : RiskAssessment N)
      : Type 0 where
    pub same_signal : a.signal_id ≡ signal.signal_id
    pub closed : (code : String) → lock ≡ some code → is_approval a.decision ≡ false

  -- One assessment for each signal, in the order of the signals.
  abbrev pub AreVerdictsOn :
      Option String → List (SignalRecord N) → List (RiskAssessment N) → Type 0
  AreVerdictsOn lock [] [] = Unit {0}
  AreVerdictsOn lock [] (_ ∷ _) = ⊥
  AreVerdictsOn lock (_ ∷ _) [] = ⊥
  AreVerdictsOn lock (signal ∷ signals) (a ∷ rest) =
      IsVerdictOn lock signal a × AreVerdictsOn lock signals rest

  contract_stop :
      (signal : SignalRecord N) (stop : Option N)
      → signal.stop_loss_price ≡ stop
      → signal_contract_rejection d signal ≡ none
      → (s : N) × (stop ≡ some s)
  unfolding signal_contract_rejection
  contract_stop signal none e h = ground arith
  contract_stop signal (some s) e h = (s, refl)

  abbrev IsAnswered : Option String → Result (Verdict N) → Type 0
  IsAnswered lock r =
      (v : Verdict N) × (r ≡ ok v)
      × ((code : String) → lock ≡ some code → (c : String) × (v ≡ refused c))

  verdict_under-IsAnswered :
      (snapshot : Option (RiskSnapshot N)) (reserved : Reserved N) (signal : SignalRecord N)
      (rejection lock : Option String)
      → signal_contract_rejection d signal ≡ rejection
      → (lock ≡ none → (s : RiskSnapshot N) × (snapshot ≡ some s))
      → IsAnswered lock (verdict_under d settings now snapshot reserved signal rejection lock)
  verdict_under-IsAnswered snapshot reserved signal (some c) lock e f =
      (refused c, refl, λ code h. (c, refl))
  verdict_under-IsAnswered snapshot reserved signal none (some c) e f =
      (refused c, refl, λ code h. (c, refl))
  verdict_under-IsAnswered snapshot reserved signal none none e f =
      let (s, read) = f refl in
      let (stop, has_stop) = contract_stop signal signal.stop_loss_price refl e in
      subst
        (λ (x : Option (RiskSnapshot N)).
          IsAnswered none (placed d settings now x reserved signal signal.stop_loss_price))
        (sym read)
        (subst
          (λ (y : Option N). IsAnswered none (placed d settings now (some s) reserved signal y))
          (sym has_stop) (_, refl, λ code h. cc))

  -- What the schemas and the reading of the account ensure of the values that a refusal repeats.
  pub record IsChecked (snapshot : Option (RiskSnapshot N)) (signals : List (SignalRecord N))
      : Type 0 where
    pub percent :
        (d.ltb settings.risk_per_trade_percent d.zero ≡ false)
        × (d.ltb (d.of_int 100) settings.risk_per_trade_percent ≡ false)
    pub trades : ltb settings.risk_max_open_trades 1 ≡ false
    pub zero : d.ltb d.zero d.zero ≡ false
    pub account :
        (s : RiskSnapshot N)
        → snapshot ≡ some s
        → (d.ltb s.wallet_balance_usdt d.zero ≡ false)
          × (d.ltb s.available_balance_usdt d.zero ≡ false)
          × (d.ltb s.current_margin_exposure_usdt d.zero ≡ false)
    pub scores :
        All
          (λ (s : SignalRecord N).
            (is_out_of_range d settings now s.score ≡ false)
            × (is_out_of_range d settings now s.confidence ≡ false))
          signals

  refusal_sound :
      (snapshot : Option (RiskSnapshot N)) (signal : SignalRecord N) (decision : RiskDecision)
      (reason : Option String)
      → IsChecked snapshot (signal ∷ [])
      → breaks_fields d settings now
          (assessment d settings now snapshot signal decision reason none)
        ≡ false
  unfolding assessment
  refusal_sound none signal decision reason h =
      let (low, high) = h.percent in
      let ((score, confidence), _) = h.scores in
      let (trades, zero) : (ltb settings.risk_max_open_trades 1 ≡ false)
          × (d.ltb d.zero d.zero ≡ false) =
        (h.trades, h.zero) in
      simp (score, confidence, low, high, trades, zero)
  refusal_sound (some s) signal decision reason h =
      let (low, high) = h.percent in
      let ((score, confidence), _) = h.scores in
      let (wallet, available, margin) = h.account s refl in
      let trades = h.trades in
      simp (score, confidence, low, high, trades, wallet, available, margin)

  -- The values of some of the signals.
  IsChecked-part :
      (snapshot : Option (RiskSnapshot N)) (signals some_signals : List (SignalRecord N))
      → IsChecked snapshot signals
      → All
          (λ (s : SignalRecord N).
            (is_out_of_range d settings now s.score ≡ false)
            × (is_out_of_range d settings now s.confidence ≡ false))
          some_signals
      → IsChecked snapshot some_signals
  IsChecked-part snapshot signals some_signals h scores = record {
    percent = h.percent;
    trades = h.trades;
    zero = h.zero;
    account = h.account;
    scores = scores;
  }

  -- One turn: an assessment of the signal, which under a lock breaks no field.
  abbrev IsAssessed :
      Option String → SignalRecord N → Result (RiskAssessment N × Reserved N) → Type 0
  IsAssessed lock signal r =
      (p : RiskAssessment N × Reserved N) × (r ≡ ok p)
      × IsVerdictOn lock signal p.0
      × ((code : String) → lock ≡ some code → breaks_fields d settings now p.0 ≡ false)

  judged-IsAssessed :
      (snapshot : Option (RiskSnapshot N)) (reserved : Reserved N) (lock : Option String)
      (signal : SignalRecord N) (v : Verdict N)
      → IsChecked snapshot (signal ∷ [])
      → ((code : String) → lock ≡ some code → (c : String) × (v ≡ refused c))
      → IsAssessed lock signal (ok (judged d settings now snapshot signal reserved v))
  unfolding assessment
  judged-IsAssessed snapshot reserved lock signal (refused c) checked f = (
    judged d settings now snapshot signal reserved (refused c),
    refl,
    record { same_signal = refl; closed = λ code h. refl },
    λ code h. refusal_sound snapshot signal RiskDecision.blocked (some c) checked,
  )
  judged-IsAssessed snapshot reserved lock signal (sized s) checked f = (
    judged d settings now snapshot signal reserved (sized s),
    refl,
    record { same_signal = refl; closed = λ code h. (let (c, e) = f code h in cc) },
    λ code h. (let (c, e) = f code h in cc),
  )

  other-IsAssessed :
      (snapshot : Option (RiskSnapshot N)) (reserved : Reserved N) (lock : Option String)
      (signal : SignalRecord N) (decision : RiskDecision)
      → IsChecked snapshot (signal ∷ [])
      → is_approval decision ≡ false
      → IsAssessed lock signal
          (ok (assessment d settings now snapshot signal decision none none, reserved))
  unfolding assessment
  other-IsAssessed snapshot reserved lock signal decision checked f = (
    (assessment d settings now snapshot signal decision none none, reserved),
    refl,
    record { same_signal = refl; closed = λ code h. f },
    λ code h. refusal_sound snapshot signal decision none checked,
  )

  assess_as-IsAssessed :
      (snapshot : Option (RiskSnapshot N)) (lock : Option String) (reserved : Reserved N)
      (signal : SignalRecord N) (l : SignalLifecycle)
      → IsChecked snapshot (signal ∷ [])
      → (lock ≡ none → (s : RiskSnapshot N) × (snapshot ≡ some s))
      → IsAssessed lock signal (assess_as d settings now snapshot lock reserved signal l)
  unfolding verdict
  assess_as-IsAssessed snapshot lock reserved signal SignalLifecycle.watch checked f =
      other-IsAssessed snapshot reserved lock signal RiskDecision.watch checked refl
  assess_as-IsAssessed snapshot lock reserved signal SignalLifecycle.expired checked f =
      other-IsAssessed snapshot reserved lock signal RiskDecision.terminal checked refl
  assess_as-IsAssessed snapshot lock reserved signal SignalLifecycle.invalidated checked f =
      other-IsAssessed snapshot reserved lock signal RiskDecision.terminal checked refl
  assess_as-IsAssessed snapshot lock reserved signal SignalLifecycle.rejected checked f =
      other-IsAssessed snapshot reserved lock signal RiskDecision.terminal checked refl
  assess_as-IsAssessed snapshot lock reserved signal SignalLifecycle.risk_blocked checked f =
      other-IsAssessed snapshot reserved lock signal RiskDecision.terminal checked refl
  assess_as-IsAssessed snapshot lock reserved signal SignalLifecycle.active checked f =
      let (v, made, refuses) =
        verdict_under-IsAnswered snapshot reserved signal (signal_contract_rejection d signal) lock
          refl f in
      subst
        (λ (r : Result (Verdict N)).
          IsAssessed lock signal (r >>= λ x. ok (judged d settings now snapshot signal reserved x)))
        (sym made) (judged-IsAssessed snapshot reserved lock signal v checked refuses)

  -- The outcomes of an assessment of some signals.
  abbrev pub IsAnswer :
      Option String → List (SignalRecord N) → Result (List (RiskAssessment N)) → Type 0
  IsAnswer lock signals r =
      ((r ≡ err validation_error) × (lock ≡ none))
      ⊎ ((list : List (RiskAssessment N)) × (r ≡ ok list) × AreVerdictsOn lock signals list)

  lock-cases :
      (lock : Option String) (broken : Bool)
      → ((code : String) → lock ≡ some code → broken ≡ false)
      → ((broken ≡ true) × (lock ≡ none)) ⊎ (broken ≡ false)
  lock-cases lock false f = inr refl
  lock-cases none true f = inl (refl, refl)
  lock-cases (some code) true f = inr (f code refl)

  assess_all-IsAnswer :
      (snapshot : Option (RiskSnapshot N)) (lock : Option String) (reserved : Reserved N)
      (signals : List (SignalRecord N))
      → IsChecked snapshot signals
      → (lock ≡ none → (s : RiskSnapshot N) × (snapshot ≡ some s))
      → IsAnswer lock signals (assess_all d settings now snapshot lock reserved signals)
  unfolding assess_all assess
  assess_all-IsAnswer snapshot lock reserved [] checked f = inr ([], refl, tt)
  assess_all-IsAnswer snapshot lock reserved (signal ∷ signals) checked f =
      let (p, made, on, sound) =
        assess_as-IsAssessed snapshot lock reserved signal signal.lifecycle
          (IsChecked-part snapshot (signal ∷ signals) (signal ∷ []) checked (checked.scores.0, tt))
          f in
      subst
        (λ (r : Result (RiskAssessment N × Reserved N)).
          IsAnswer lock (signal ∷ signals) (r >>= constructed d settings now >>= then_rest))
        (sym made)
        (after_turn p on (breaks_fields d settings now p.0)
          (lock-cases lock (breaks_fields d settings now p.0) sound)
          (assess_all-IsAnswer snapshot lock p.1 signals
            (IsChecked-part snapshot (signal ∷ signals) signals checked checked.scores.1) f))
    where
      then_rest : RiskAssessment N × Reserved N → Result (List (RiskAssessment N))
      then_rest next =
          assess_all d settings now snapshot lock next.1 signals >>= λ rest. ok (next.0 ∷ rest)

      rest_of :
          (p : RiskAssessment N × Reserved N) (r : Result (List (RiskAssessment N)))
          → IsVerdictOn lock signal p.0
          → IsAnswer lock signals r
          → IsAnswer lock (signal ∷ signals) (r >>= λ rest. ok (p.0 ∷ rest))
      rest_of p (ok list) on (inl (e, locked)) = cc
      rest_of p (err x) on (inl (e, locked)) = inl (ground arith, locked)
      rest_of p (ok list) on (inr (list', e, all_on)) =
          inr (p.0 ∷ list', ground arith, (on, all_on))
      rest_of p (err x) on (inr (list', e, all_on)) = cc

      after_turn :
          (p : RiskAssessment N × Reserved N)
          → IsVerdictOn lock signal p.0
          → (broken : Bool) → ((broken ≡ true) × (lock ≡ none)) ⊎ (broken ≡ false)
          → IsAnswer lock signals (assess_all d settings now snapshot lock p.1 signals)
          → IsAnswer lock
              (signal ∷ signals)
              ((raise_if broken validation_error >> ok p) >>= then_rest)
      after_turn p on true (inl (_, no_lock)) later = inl (refl, no_lock)
      after_turn p on true (inr e) later = cc
      after_turn p on false (inl (e, _)) later = cc
      after_turn p on false (inr _) later =
          rest_of p (assess_all d settings now snapshot lock p.1 signals) on later

  global_lock_read :
      (snapshot : Option (RiskSnapshot N)) (code : Option String)
      → global_lock d settings snapshot code ≡ none
      → (s : RiskSnapshot N) × (snapshot ≡ some s)
  unfolding global_lock
  global_lock_read snapshot (some c) h = cc
  global_lock_read none none h = cc
  global_lock_read (some s) none h = (s, refl)

  -- Where the settings, the scores and the account are as their schemas and readers check them, the
  -- risk engine answers with one assessment for each signal, in their order, and under a lock of the
  -- policy, an account that could not be read included, it approves none. Only an open policy may
  -- raise instead, and only for a field of an assessment that breaks its constraint.
  pub build_assessments-IsAnswer :
      (snapshot : Option (RiskSnapshot N)) (code : Option String) (signals : List (SignalRecord N))
      → IsChecked snapshot signals
      → IsAnswer
          (global_lock d settings snapshot code)
          signals
          (build_assessments d settings now snapshot code signals)
  unfolding build_assessments
  build_assessments-IsAnswer snapshot code signals checked =
      assess_all-IsAnswer snapshot (global_lock d settings snapshot code)
        (nothing_reserved d settings now) signals checked (global_lock_read snapshot code)
