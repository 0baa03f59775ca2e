-- ===== src/Commands/Revalidate.antt =====
-- `revalidate`, the proof of a command immediately before its entry.
use astra_froge.Common.{
  String, Bool, false, not, ◌&&◌, ◌||◌, Option, none, some, eqb, leb, any, ◌==◌, Result, ok, ◌>>=◌,
  ◌>>◌, raise_if,
}
use astra_froge.Schemas.{same_direction, ExecutionCommand}
use astra_froge.Schemas.Decimals.{Decimals}
use astra_froge.Schemas.Signals.{SignalRecord}
use astra_froge.Schemas.Risk.{RiskAssessment}
use astra_froge.Commands.Facts.{AccountPosition, AccountSnapshot, Facts}
use astra_froge.Commands.Approval.{blocked, names, current_approval}
use astra_froge.Commands.Command.{leverage_of, take_profit}

module _ {N : Type 0} (d : Decimals N) (multiple : N) where
  -- `a == b`, for an optional value and a value
  abbrev pub holds : Option N → N → Bool
  holds none b = false
  holds (some a) b = d.eqb a b

  abbrev pub has_position : String → AccountPosition N → Bool
  has_position symbol position =
      position.symbol == symbol && not (d.eqb position.position_amount d.zero)

  unfoldable pub revalidate :
      Facts N → ExecutionCommand N → Result (SignalRecord N × RiskAssessment N × AccountSnapshot N)
  unfolding current_approval leverage_of take_profit
  revalidate facts command = do
    (signal, assessment, snapshot) ← current_approval facts command.signal_id
    raise_if (leb command.expires_at facts.now) (blocked "EXECUTION_COMMAND_EXPIRED")
    raise_if (not (names signal.decision_key command.decision_key))
        (blocked "DECISION_KEY_SUPERSEDED")
    raise_if (not (names signal.source_snapshot_version command.source_snapshot_version))
        (blocked "SOURCE_SNAPSHOT_SUPERSEDED")
    raise_if
        (not (same_direction signal.direction command.direction)
          || not (same_direction assessment.direction command.direction))
        (blocked "EXECUTION_DIRECTION_CONFLICT")
    raise_if (not (d.eqb assessment.entry_trigger_price command.entry_trigger_price))
        (blocked "ENTRY_TRIGGER_CONFLICT")
    raise_if (not (holds assessment.stop_loss_price command.stop_loss_price))
        (blocked "STOP_LOSS_CONFLICT")
    raise_if (not (holds assessment.recommended_quantity command.approved_quantity))
        (blocked "APPROVED_QUANTITY_CONFLICT")
    raise_if (not (holds assessment.position_notional_usdt command.approved_notional))
        (blocked "APPROVED_NOTIONAL_CONFLICT")
    raise_if (not (holds assessment.required_margin_usdt command.approved_margin))
        (blocked "APPROVED_MARGIN_CONFLICT")
    leverage ← leverage_of snapshot.positions command.symbol
    raise_if (not (eqb leverage command.leverage)) (blocked "LEVERAGE_CONFLICT")
    expected ←
        take_profit d multiple command.direction command.entry_trigger_price command.stop_loss_price
    raise_if (not (d.eqb expected command.take_profit_price)) (blocked "TAKE_PROFIT_CONFLICT")
    raise_if (any (has_position command.symbol) snapshot.positions)
        (blocked "EXISTING_EXCHANGE_POSITION_CONFLICT")
    ok (signal, assessment, snapshot)
