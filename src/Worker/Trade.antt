-- ===== src/Worker/Trade.antt =====
-- `_validate_trade`.
use astra_froge.Common.{String, not, ◌||◌, ◌==◌, Result, ◌>>◌, raise_if, Error, app_error}
use astra_froge.Schemas.{ScannerDirection, long, short, same_direction, ExecutionCommand}
use astra_froge.Schemas.Decimals.{Decimals}
use astra_froge.Schemas.Execution.{DemoTradeRecord}

-- `_conflict`
abbrev pub conflict : String → Error
conflict code = app_error 409 code

module _ {N : Type 0} (d : Decimals N) where
  -- The take-profit price that follows from the fill.
  abbrev pub expected_target : ScannerDirection → DemoTradeRecord N → N → N
  expected_target long t multiple =
      d.add t.entry_price (d.mul (d.abs (d.sub t.entry_price t.stop_loss_price)) multiple)
  expected_target short t multiple =
      d.sub t.entry_price (d.mul (d.abs (d.sub t.entry_price t.stop_loss_price)) multiple)

  -- `_validate_trade`
  unfoldable pub validate_trade : ExecutionCommand N → DemoTradeRecord N → Result (Unit {0})
  validate_trade c t = do
    raise_if (not (t.signal_id == c.signal_id)) (conflict "EXCHANGE_SIGNAL_IDENTITY_CONFLICT")
    raise_if (not (t.symbol == c.symbol) || not (same_direction t.direction c.direction))
        (conflict "EXCHANGE_TRADE_IDENTITY_CONFLICT")
    raise_if (not (t.client_order_id == c.entry_client_order_id))
        (conflict "ENTRY_CLIENT_ORDER_ID_CONFLICT")
    raise_if (not (t.stop_client_order_id == c.stop_client_order_id))
        (conflict "STOP_CLIENT_ORDER_ID_CONFLICT")
    raise_if (not (t.take_profit_client_order_id == c.take_profit_client_order_id))
        (conflict "TAKE_PROFIT_CLIENT_ORDER_ID_CONFLICT")
    raise_if (not (t.order_status == "FILLED")) (conflict "ENTRY_FILL_NOT_VERIFIED")
    raise_if (d.ltb t.executed_quantity d.zero || d.eqb t.executed_quantity d.zero)
        (conflict "ENTRY_EXECUTED_QUANTITY_INVALID")
    raise_if (d.ltb c.approved_quantity t.executed_quantity)
        (conflict "ENTRY_QUANTITY_EXCEEDS_APPROVAL")
    raise_if (t.stop_order_id == "" || t.take_profit_order_id == "")
        (conflict "PROTECTION_IDENTITY_MISSING")
    raise_if
        (not (d.eqb t.take_profit_price (expected_target c.direction t c.take_profit_r_multiple)))
        (conflict "TAKE_PROFIT_R_MULTIPLE_CONFLICT")
