-- ===== src/Commands/Command.antt =====
-- The parts of a command: its prices, its checks, and the validation of the schema.
use astra_froge.Common.{
  ℕ, String, Bool, true, false, not, ◌&&◌, ◌||◌, Option, none, some, List, [], ◌∷◌, ltb, leb,
  if◌then◌else◌, ◌==◌, Result, ok, err, ◌>>◌, raise_if, validation_error,
}
use astra_froge.Schemas.{
  ScannerDirection, long, short, same_direction, ScannerGrade, a_plus, grade_a, ExecutionCommand,
}
use astra_froge.Schemas.Decimals.{Decimals}
use astra_froge.Schemas.Signals.{SignalRecord}
use astra_froge.Schemas.Risk.{RiskAssessment}
use astra_froge.Commands.Facts.{AccountPosition}
use astra_froge.Commands.Approval.{blocked}

-- `_required_text`
unfoldable pub required_text : Option String → String → Result String
required_text none code = err (blocked code)
required_text (some value) code = if value == "" then err (blocked code) else ok value

-- `_required_grade`
unfoldable pub required_grade : Option ScannerGrade → Result ScannerGrade
required_grade (some a_plus) = ok a_plus
required_grade (some grade_a) = ok grade_a
required_grade _ = err (blocked "GRADE_NOT_EXECUTABLE")

-- `_leverage`
unfoldable pub leverage_of : {N : Type 0} → List (AccountPosition N) → String → Result ℕ
leverage_of [] symbol = err (blocked "SYMBOL_LEVERAGE_UNAVAILABLE")
leverage_of (position ∷ positions) symbol =
    if position.symbol == symbol then ok position.leverage else leverage_of positions symbol

module _ {N : Type 0} (d : Decimals N) where
  -- `a <= b`, which is false where a value is not a number
  abbrev pub le : N → N → Bool
  le a b = d.ltb a b || d.eqb a b

  -- `_required_decimal`
  unfoldable pub required_decimal : Option N → String → Result N
  required_decimal none code = err (blocked code)
  required_decimal (some value) code =
      if d.is_finite value && d.ltb d.zero value then ok value else err (blocked code)

  -- `_take_profit`; `multiple` is the setting `execution_take_profit_r_multiple`.
  unfoldable pub take_profit : N → ScannerDirection → N → N → Result N
  take_profit multiple direction entry stop = do
    raise_if (le multiple d.zero) (blocked "TAKE_PROFIT_POLICY_NOT_CONFIGURED")
    let distance = d.abs (d.sub entry stop)
    raise_if (le distance d.zero) (blocked "STOP_DISTANCE_INVALID")
    elim direction [
      | long ↦ ok (d.add entry (d.mul distance multiple))
      | short ↦ ok (d.sub entry (d.mul distance multiple))
    ]

  -- The side of the stop that `_validate_plan_consistency` refuses.
  abbrev pub wrong_stop : ScannerDirection → N → N → Bool
  wrong_stop long stop entry = le entry stop
  wrong_stop short stop entry = le stop entry

  -- `_validate_plan_consistency`
  unfoldable pub validate_plan_consistency :
      SignalRecord N → RiskAssessment N → N → N → N → ℕ → N → Result (Unit {0})
  validate_plan_consistency signal assessment quantity notional margin leverage stop = do
    raise_if (not (same_direction assessment.direction signal.direction))
        (blocked "EXECUTION_DIRECTION_CONFLICT")
    raise_if (not (d.eqb (d.mul quantity assessment.entry_trigger_price) notional))
        (blocked "APPROVED_NOTIONAL_CONFLICT")
    raise_if (not (d.eqb (d.div notional (d.of_int leverage)) margin))
        (blocked "APPROVED_MARGIN_CONFLICT")
    raise_if (wrong_stop signal.direction stop assessment.entry_trigger_price)
        (blocked "STOP_LOSS_CONFLICT")

  -- The prices that `validate_command` refuses.
  abbrev pub wrong_prices : ExecutionCommand N → ScannerDirection → Bool
  wrong_prices c long =
      le c.entry_trigger_price c.stop_loss_price || le c.take_profit_price c.entry_trigger_price
  wrong_prices c short =
      le c.stop_loss_price c.entry_trigger_price || le c.entry_trigger_price c.take_profit_price

  abbrev pub wrong_grade : ScannerGrade → Bool
  wrong_grade a_plus = false
  wrong_grade grade_a = false
  wrong_grade _ = true

  -- The constraints `gt=0` and `ge=1` of the fields that are set when a command is built.
  abbrev pub wrong_fields : ExecutionCommand N → Bool
  wrong_fields c =
      not (d.ltb d.zero c.entry_trigger_price)
      || not (d.ltb d.zero c.stop_loss_price)
      || not (d.ltb d.zero c.take_profit_price)
      || not (d.ltb d.zero c.take_profit_r_multiple)
      || not (d.ltb d.zero c.approved_quantity)
      || not (d.ltb d.zero c.approved_notional)
      || not (d.ltb d.zero c.approved_margin)
      || ltb c.leverage 1

  -- The construction of an `ExecutionCommand`, with `validate_command`.
  unfoldable pub validate_command : ExecutionCommand N → Result (ExecutionCommand N)
  validate_command c =
      if wrong_fields c
        || wrong_grade c.grade
        || wrong_prices c c.direction
        || leb c.expires_at c.created_at
      then err validation_error
      else ok c
