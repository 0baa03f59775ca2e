-- ===== src/Risk/Assessments.antt =====
-- `_build_assessments`: the signals in their order, each against what those before it have reserved.
use astra_froge.Common.{
  ltb, ◌||◌, ◌>>◌, raise_if, validation_error, ℕ, ◌+◌, String, Bool, true, false, Option, none,
  some, List, [], ◌∷◌, ◌++◌, length, if◌then◌else◌, contains, put, Result, ok, err, ◌>>=◌,
  runtime_error,
}
use astra_froge.Schemas.Decimals.{Decimals}
use astra_froge.Schemas.Signals.{SignalRecord, SignalLifecycle, active, watch}
use astra_froge.Schemas.Risk.{RiskDecision, RiskAssessment}
use astra_froge.Risk.Snapshot.{RiskSnapshot, RiskClient, snapshot_or_error}
use astra_froge.Risk.Policy.{
  RiskSettings, Sizing, Reserved, Verdict, refused, sized, signal_contract_rejection, global_lock,
  placement,
}

abbrev pub is_approval : RiskDecision → Bool
is_approval RiskDecision.approved = true
is_approval _ = false

-- `if code not in audit_codes: audit_codes.append(code)`
abbrev pub with_code : String → List String → List String
with_code code codes = if contains codes code then codes else codes ++ code ∷ []

abbrev pub with_reason : Option String → List String → List String
with_reason none codes = codes
with_reason (some code) codes = with_code code codes

-- A field of the snapshot, where there is one.
abbrev pub of_snapshot : {A N : Type 0} → (RiskSnapshot N → A) → Option (RiskSnapshot N) → Option A
of_snapshot f none = none
of_snapshot f (some snapshot) = some (f snapshot)

abbrev pub of_sizing : {N : Type 0} → (Sizing N → N) → Option (Sizing N) → Option N
of_sizing f none = none
of_sizing f (some sizing) = some (f sizing)

abbrev pub or_else : {A : Type 0} → Option A → A → A
or_else none a = a
or_else (some b) a = b

module _ {N : Type 0} (d : Decimals N) (settings : RiskSettings N) (now : ℕ) where
  -- The fields of `_assessment`; `sizing` and `notional` are given for an approval.
  unfoldable pub assessment :
      Option (RiskSnapshot N)
      → SignalRecord N
      → RiskDecision
      → Option String
      → Option (Sizing N)
      → RiskAssessment N
  assessment snapshot signal decision reason sizing =
      let coded = with_reason reason signal.audit_codes in
      record {
        signal_id = signal.signal_id;
        symbol = signal.symbol;
        direction = signal.direction;
        setup = signal.setup;
        setup_name = signal.setup_name;
        signal_lifecycle = signal.lifecycle;
        grade = signal.grade;
        score = signal.score;
        confidence = signal.confidence;
        decision = decision;
        blocked_reason = reason;
        approved_for_execution = is_approval decision;
        entry_trigger_price = signal.entry_trigger_price;
        stop_loss_price = signal.stop_loss_price;
        stop_distance = of_sizing (λ s. s.stop_distance) sizing;
        risk_percent = settings.risk_per_trade_percent;
        risk_budget_usdt = of_sizing (λ s. s.risk_budget) sizing;
        recommended_quantity = of_sizing (λ s. s.quantity) sizing;
        position_notional_usdt =
            of_sizing (λ s. d.mul s.quantity signal.entry_trigger_price) sizing;
        required_margin_usdt = of_sizing (λ s. s.required_margin) sizing;
        wallet_balance_usdt = of_snapshot (λ s. s.wallet_balance_usdt) snapshot;
        available_balance_usdt = of_snapshot (λ s. s.available_balance_usdt) snapshot;
        daily_realized_pnl_usdt = of_snapshot (λ s. s.daily_realized_pnl_usdt) snapshot;
        daily_unrealized_pnl_usdt = of_snapshot (λ s. s.daily_unrealized_pnl_usdt) snapshot;
        daily_net_pnl_usdt = of_snapshot (λ s. s.daily_net_pnl_usdt) snapshot;
        daily_pnl_percent = of_snapshot (λ s. s.daily_pnl_percent) snapshot;
        open_position_count = or_else (of_snapshot (λ s. length s.open_positions) snapshot) 0;
        current_margin_exposure_usdt =
            or_else (of_snapshot (λ s. s.current_margin_exposure_usdt) snapshot) d.zero;
        max_open_trades_limit = settings.risk_max_open_trades;
        updated_at = now;
        audit_codes = if is_approval decision then with_code "RISK_APPROVED" coded else coded;
      }

  -- The tests of the fields of `RiskAssessment`; a count is a natural number here.
  abbrev pub is_out_of_range : Option ℕ → Bool
  is_out_of_range none = false
  is_out_of_range (some n) = ltb 100 n

  abbrev pub is_negative : Option N → Bool
  is_negative none = false
  is_negative (some a) = d.ltb a d.zero

  abbrev pub is_not_positive : Option N → Bool
  is_not_positive none = false
  is_not_positive (some a) = d.ltb a d.zero || d.eqb a d.zero

  abbrev pub breaks_fields : RiskAssessment N → Bool
  breaks_fields a =
      is_out_of_range a.score
      || is_out_of_range a.confidence
      || is_not_positive a.stop_distance
      || d.ltb a.risk_percent d.zero
      || d.ltb (d.of_int 100) a.risk_percent
      || is_negative a.risk_budget_usdt
      || is_not_positive a.recommended_quantity
      || is_negative a.position_notional_usdt
      || is_negative a.required_margin_usdt
      || is_negative a.wallet_balance_usdt
      || is_negative a.available_balance_usdt
      || d.ltb a.current_margin_exposure_usdt d.zero
      || ltb a.max_open_trades_limit 1

  -- The verdict where neither the contract nor the lock refuses; the code's assertions are errors.
  abbrev pub placed :
      Option (RiskSnapshot N) → Reserved N → SignalRecord N → Option N → Result (Verdict N)
  placed none reserved signal stop = err (runtime_error "AssertionError")
  placed (some snapshot) reserved signal none = err (runtime_error "AssertionError")
  placed (some snapshot) reserved signal (some stop) =
      ok (placement d settings signal stop snapshot reserved)

  -- The verdict, by the refusal of the contract and the lock.
  abbrev pub verdict_under :
      Option (RiskSnapshot N)
      → Reserved N
      → SignalRecord N
      → Option String
      → Option String
      → Result (Verdict N)
  verdict_under snapshot reserved signal (some code) lock = ok (refused code)
  verdict_under snapshot reserved signal none (some code) = ok (refused code)
  verdict_under snapshot reserved signal none none =
      placed snapshot reserved signal signal.stop_loss_price

  -- The verdict on an active signal.
  unfoldable pub verdict :
      Option (RiskSnapshot N) → Option String → Reserved N → SignalRecord N → Result (Verdict N)
  unfolding signal_contract_rejection placement
  verdict snapshot lock reserved signal =
      verdict_under snapshot reserved signal (signal_contract_rejection d signal) lock

  -- What is reserved once a signal is approved.
  abbrev pub reserve : SignalRecord N → Sizing N → Reserved N → Reserved N
  reserve signal sizing reserved = record {
    slots = reserved.slots + 1;
    margin = d.add reserved.margin sizing.required_margin;
    symbols = put signal.symbol signal.direction reserved.symbols;
  }

  abbrev pub judged :
      Option (RiskSnapshot N)
      → SignalRecord N
      → Reserved N
      → Verdict N
      → RiskAssessment N × Reserved N
  judged snapshot signal reserved (refused code) =
      (assessment snapshot signal RiskDecision.blocked (some code) none, reserved)
  judged snapshot signal reserved (sized sizing) = (
    assessment snapshot signal RiskDecision.approved none (some sizing),
    reserve signal sizing reserved,
  )

  -- One turn of the loop, by the lifecycle of the signal.
  abbrev pub assess_as :
      Option (RiskSnapshot N)
      → Option String
      → Reserved N
      → SignalRecord N
      → SignalLifecycle
      → Result (RiskAssessment N × Reserved N)
  assess_as snapshot lock reserved signal watch =
      ok (assessment snapshot signal RiskDecision.watch none none, reserved)
  assess_as snapshot lock reserved signal active =
      verdict snapshot lock reserved signal >>= λ v. ok (judged snapshot signal reserved v)
  assess_as snapshot lock reserved signal _ =
      ok (assessment snapshot signal RiskDecision.terminal none none, reserved)

  -- The construction of the `RiskAssessment`, which raises where a field breaks its constraint.
  abbrev pub constructed : RiskAssessment N × Reserved N → Result (RiskAssessment N × Reserved N)
  constructed next = raise_if (breaks_fields next.0) validation_error >> ok next

  unfoldable pub assess :
      Option (RiskSnapshot N)
      → Option String
      → Reserved N
      → SignalRecord N
      → Result (RiskAssessment N × Reserved N)
  unfolding assessment verdict
  assess snapshot lock reserved signal =
      assess_as snapshot lock reserved signal signal.lifecycle >>= constructed

  unfoldable pub assess_all :
      Option (RiskSnapshot N)
      → Option String
      → Reserved N
      → List (SignalRecord N)
      → Result (List (RiskAssessment N))
  unfolding assess
  assess_all snapshot lock reserved [] = ok []
  assess_all snapshot lock reserved (signal ∷ signals) =
      assess snapshot lock reserved signal >>= λ next.
      assess_all snapshot lock next.1 signals >>= λ rest. ok (next.0 ∷ rest)

  abbrev pub nothing_reserved : Reserved N
  nothing_reserved = record { slots = 0; margin = d.zero; symbols = [] }

  -- `_build_assessments`
  unfoldable pub build_assessments :
      Option (RiskSnapshot N)
      → Option String
      → List (SignalRecord N)
      → Result (List (RiskAssessment N))
  unfolding global_lock assess_all
  build_assessments snapshot snapshot_code signals =
      assess_all snapshot (global_lock d settings snapshot snapshot_code) nothing_reserved signals

  -- `assessments`
  unfoldable pub assessments :
      Option (RiskClient N) → List (SignalRecord N) → Result (List (RiskAssessment N))
  unfolding snapshot_or_error build_assessments
  assessments client signals =
      snapshot_or_error d client now >>= λ read. build_assessments read.0 read.1 signals
