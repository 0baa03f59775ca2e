-- ===== src/Risk/Policy.antt =====
-- The refusals of the risk engine: `_signal_contract_rejection`, `_global_lock`, and what one signal
-- may take of what is left.
use astra_froge.Common.{
  ℕ, zero, suc, ◌+◌, String, Bool, true, false, not, ◌&&◌, ◌||◌, Option, none, some, List, [], ◌∷◌,
  length, leb, if◌then◌else◌, ◌==◌, Dict, lookup,
}
use astra_froge.Schemas.{
  ScannerDirection, long, short, same_direction, ScannerGrade, a_plus, grade_a,
}
use astra_froge.Schemas.Decimals.{Decimals}
use astra_froge.Schemas.Signals.{SignalRecord}
use astra_froge.Risk.Snapshot.{RiskSnapshot, OpenPosition}

-- The settings of the policy.
pub record RiskSettings (N : Type 0) : Type 0 where
  pub risk_per_trade_percent : N
  pub risk_daily_loss_limit_percent : N
  pub risk_daily_profit_lock_percent : N
  pub risk_max_open_trades : ℕ
  pub risk_max_margin_exposure_usdt : N

-- The parts of one position: the risk budget, the distance of the stop, the quantity and the margin.
pub record Sizing (N : Type 0) : Type 0 where
  pub risk_budget : N
  pub stop_distance : N
  pub quantity : N
  pub required_margin : N

-- What the signals before this one have been given.
pub record Reserved (N : Type 0) : Type 0 where
  pub slots : ℕ
  pub margin : N
  pub symbols : Dict ScannerDirection

-- A refusal with its code, or a size.
pub data Verdict (N : Type 0) : Type 0 where
  refused : String → Verdict N
  sized : Sizing N → Verdict N

abbrev pub is_execution_grade : Option ScannerGrade → Bool
is_execution_grade (some a_plus) = true
is_execution_grade (some grade_a) = true
is_execution_grade _ = false

abbrev pub position_conflict : ScannerDirection → ScannerDirection → String
position_conflict held wanted =
    if same_direction held wanted
    then "SAME_SYMBOL_POSITION_EXISTS"
    else "CONFLICTING_SYMBOL_POSITION_EXISTS"

-- `_open_position_direction`
unfoldable pub open_position_direction : List OpenPosition → String → Option ScannerDirection
open_position_direction [] symbol = none
open_position_direction (position ∷ positions) symbol =
    if position.symbol == symbol
    then some position.direction
    else open_position_direction positions symbol

module _ {N : Type 0} (d : Decimals N) where
  abbrev pub at_most : N → N → Bool
  at_most a b = d.ltb a b || d.eqb a b

  abbrev pub stop_rejection : ScannerDirection → N → N → Option String
  stop_rejection long stop entry = if at_most entry stop then some "STOP_LOSS_INVALID" else none
  stop_rejection short stop entry = if at_most stop entry then some "STOP_LOSS_INVALID" else none

  abbrev pub priced_rejection : SignalRecord N → Option N → Option String
  priced_rejection signal none = some "STOP_LOSS_MISSING"
  priced_rejection signal (some stop) =
      stop_rejection signal.direction stop signal.entry_trigger_price

  -- `_signal_contract_rejection`
  unfoldable pub signal_contract_rejection : SignalRecord N → Option String
  signal_contract_rejection signal =
      if not (is_execution_grade signal.grade)
      then some "GRADE_NOT_EXECUTABLE"
      else priced_rejection signal signal.stop_loss_price

  module _ (settings : RiskSettings N) where
    abbrev pub account_lock : RiskSnapshot N → Option String
    account_lock snapshot =
        if not snapshot.can_trade
        then some "ACCOUNT_CANNOT_TRADE"
        else if at_most snapshot.wallet_balance_usdt d.zero
        then some "ACCOUNT_BALANCE_UNAVAILABLE"
        else if at_most settings.risk_per_trade_percent d.zero
        then some "RISK_PERCENT_NOT_CONFIGURED"
        else if at_most settings.risk_max_margin_exposure_usdt d.zero
        then some "MAX_MARGIN_EXPOSURE_NOT_CONFIGURED"
        else if d.ltb d.zero settings.risk_daily_loss_limit_percent
            && at_most snapshot.daily_pnl_percent
                (d.sub d.zero settings.risk_daily_loss_limit_percent)
        then some "DAILY_LOSS_LIMIT_REACHED"
        else if d.ltb d.zero settings.risk_daily_profit_lock_percent
            && at_most settings.risk_daily_profit_lock_percent snapshot.daily_pnl_percent
        then some "DAILY_PROFIT_LOCK_REACHED"
        else none

    -- `_global_lock`
    unfoldable pub global_lock : Option (RiskSnapshot N) → Option String → Option String
    global_lock snapshot (some code) = some code
    global_lock none none = some "DEMO_PRIVATE_API_NOT_CONFIGURED"
    global_lock (some snapshot) none = account_lock snapshot

    -- `_position_sizing`, with the stop that the contract has
    unfoldable pub position_sizing : SignalRecord N → N → RiskSnapshot N → ℕ → Sizing N
    position_sizing signal stop snapshot leverage =
        let stop_distance = d.abs (d.sub signal.entry_trigger_price stop) in
        let risk_budget =
          d.div (d.mul snapshot.wallet_balance_usdt settings.risk_per_trade_percent)
            (d.of_int 100) in
        let quantity = d.div risk_budget stop_distance in
        record {
          risk_budget = risk_budget;
          stop_distance = stop_distance;
          quantity = quantity;
          required_margin = d.div (d.mul quantity signal.entry_trigger_price) (d.of_int leverage);
        }

    -- The two limits on the margin.
    abbrev pub margin_verdict : RiskSnapshot N → Reserved N → Sizing N → Verdict N
    margin_verdict snapshot reserved sizing =
        if d.ltb settings.risk_max_margin_exposure_usdt (
          d.add (d.add snapshot.current_margin_exposure_usdt reserved.margin)
            sizing.required_margin)
        then refused "MAX_MARGIN_EXPOSURE_REACHED"
        else if d.ltb (d.sub snapshot.available_balance_usdt reserved.margin) sizing.required_margin
        then refused "AVAILABLE_BALANCE_INSUFFICIENT"
        else sized sizing

    abbrev pub leverage_verdict :
        SignalRecord N → N → RiskSnapshot N → Reserved N → Option ℕ → Verdict N
    leverage_verdict signal stop snapshot reserved none = refused "SYMBOL_LEVERAGE_UNAVAILABLE"
    leverage_verdict signal stop snapshot reserved (some zero) =
        refused "SYMBOL_LEVERAGE_UNAVAILABLE"
    leverage_verdict signal stop snapshot reserved (some (suc n)) =
        margin_verdict snapshot reserved (position_sizing signal stop snapshot (suc n))

    -- The slots, and then the margin.
    abbrev pub slot_verdict : SignalRecord N → N → RiskSnapshot N → Reserved N → Verdict N
    slot_verdict signal stop snapshot reserved =
        if leb settings.risk_max_open_trades (length snapshot.open_positions + reserved.slots)
        then refused "MAX_OPEN_TRADES_REACHED"
        else leverage_verdict signal stop snapshot reserved
            (lookup signal.symbol snapshot.leverage_by_symbol)

    abbrev pub reserved_verdict :
        SignalRecord N → N → RiskSnapshot N → Reserved N → Option ScannerDirection → Verdict N
    reserved_verdict signal stop snapshot reserved none = slot_verdict signal stop snapshot reserved
    reserved_verdict signal stop snapshot reserved (some held) =
        refused (position_conflict held signal.direction)

    abbrev pub symbol_verdict :
        SignalRecord N → N → RiskSnapshot N → Reserved N → Option ScannerDirection → Verdict N
    symbol_verdict signal stop snapshot reserved none =
        reserved_verdict signal stop snapshot reserved (lookup signal.symbol reserved.symbols)
    symbol_verdict signal stop snapshot reserved (some held) =
        refused (position_conflict held signal.direction)

    -- The checks of an active signal against the account and what is reserved.
    unfoldable pub placement : SignalRecord N → N → RiskSnapshot N → Reserved N → Verdict N
    unfolding open_position_direction position_sizing
    placement signal stop snapshot reserved =
        symbol_verdict signal stop snapshot reserved
          (open_position_direction snapshot.open_positions signal.symbol)
