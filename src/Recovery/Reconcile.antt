-- ===== src/Recovery/Reconcile.antt =====
-- `_reconcile_exchange_state` of the startup coordinator: the durable open trades against the
-- positions and orders of the exchange.
use astra_froge.Common.{
  String, Bool, true, false, not, ◌&&◌, ◌||◌, Option, none, some, List, [], ◌∷◌, if◌then◌else◌,
  ◌==◌, keep_if, Dict, lookup, has_entry, put, same_keys, Result, ok, err, ◌>>=◌, ◌>>◌, raise_if,
  or_raise, recovery_failure, contains,
}
use astra_froge.Schemas.{ScannerDirection, long, short, same_direction}
use astra_froge.Schemas.Decimals.{Decimals}
use astra_froge.Schemas.Execution.{DemoTradeRecord, is_open}
use astra_froge.Recovery.Payloads.{OrderPayload, AlgoPayload, PositionPayload, PrivateClient}

-- `status in _OPEN_PROTECTION_STATUSES`
abbrev pub is_open_protection : Option String → Bool
is_open_protection none = false
is_open_protection (some status) = contains ("NEW" ∷ "PARTIALLY_FILLED" ∷ []) status

-- A symbol and an order id.
abbrev pub Identity : Type 0
Identity = String × String

abbrev pub same_identity : Identity → Identity → Bool
same_identity a b = a.0 == b.0 && a.1 == b.1

-- One protective order of a local trade.
abbrev pub expect_order : String → Identity → Dict Identity → Result (Dict Identity)
expect_order client_order_id identity expected =
    if has_entry client_order_id expected
    then err (recovery_failure "DUPLICATE_LOCAL_PROTECTIVE_ORDER")
    else ok (put client_order_id identity expected)

module _ {N : Type 0} where
  -- The first loop: the open trades by symbol, and the protective orders that they expect.
  unfoldable pub index_trades :
      List (DemoTradeRecord N)
      → Dict (DemoTradeRecord N)
      → Dict Identity
      → Result (Dict (DemoTradeRecord N) × Dict Identity)
  index_trades [] by_symbol expected = ok (by_symbol, expected)
  index_trades (trade ∷ trades) by_symbol expected = do
    raise_if (has_entry trade.symbol by_symbol) (recovery_failure "DUPLICATE_LOCAL_OPEN_TRADE")
    with_stop ← expect_order trade.stop_client_order_id (trade.symbol, trade.stop_order_id) expected
    with_both ←
        expect_order trade.take_profit_client_order_id (trade.symbol, trade.take_profit_order_id)
          with_stop
    index_trades trades (put trade.symbol trade by_symbol) with_both

-- The loop over the open protective orders of the exchange.
unfoldable pub index_algo_orders : List AlgoPayload → Dict Identity → Result (Dict Identity)
index_algo_orders [] actual = ok actual
index_algo_orders (payload ∷ payloads) actual = do
  raise_if (payload.client_order_id == "" || payload.order_id == "" || payload.symbol == "")
      (recovery_failure "OPEN_ALGO_ORDER_PAYLOAD_INVALID")
  raise_if (not (is_open_protection payload.status))
      (recovery_failure "OPEN_ALGO_ORDER_STATUS_INVALID")
  raise_if (has_entry payload.client_order_id actual)
      (recovery_failure "DUPLICATE_EXCHANGE_OPEN_ALGO_ORDER")
  index_algo_orders payloads (put payload.client_order_id (payload.symbol, payload.order_id) actual)

abbrev pub is_identity : Option Identity → Identity → Bool
is_identity none expected = false
is_identity (some actual) expected = same_identity actual expected

-- The loop over the expected orders.
unfoldable pub match_identities : Dict Identity → Dict Identity → Result (Unit {0})
match_identities actual [] = ok tt
match_identities actual ((client_order_id, expected) ∷ rest) =
    raise_if (not (is_identity (lookup client_order_id actual) expected))
      (recovery_failure "OPEN_ALGO_ORDER_IDENTITY_MISMATCH")
    >> match_identities actual rest

-- `_verify_protective_order`
unfoldable pub verify_protective_order : AlgoPayload → String → String → Result (Unit {0})
verify_protective_order payload expected_client_order_id expected_order_id =
    raise_if
      (not (payload.client_order_id == expected_client_order_id)
        || not (payload.order_id == expected_order_id)
        || not (is_open_protection payload.status))
      (recovery_failure "PROTECTIVE_ORDER_RECONCILIATION_MISMATCH")

abbrev pub is_filled : Option String → Bool
is_filled none = false
is_filled (some status) = status == "FILLED"

module _ {N : Type 0} (d : Decimals N) where
  -- `_decimal`; `upper` is the field's name in capitals.
  unfoldable pub finite_decimal : Option N → String → Result N
  finite_decimal none code = err (recovery_failure "EXCHANGE_POSITION_PAYLOAD_INVALID")
  finite_decimal (some value) code =
      if d.is_finite value then ok value else err (recovery_failure code)

  -- The direction and the size of a position that is not flat.
  abbrev pub position_of : N → ScannerDirection × N
  position_of amount = (if d.ltb d.zero amount then long else short, d.abs amount)

  -- The loop over the positions of the exchange.
  unfoldable pub index_positions :
      List (PositionPayload N) → Dict (ScannerDirection × N) → Result (Dict (ScannerDirection × N))
  unfolding finite_decimal
  index_positions [] by_symbol = ok by_symbol
  index_positions (payload ∷ payloads) by_symbol = do
    raise_if (payload.symbol == "") (recovery_failure "EXCHANGE_POSITION_PAYLOAD_INVALID")
    amount ← finite_decimal payload.position_amt "EXCHANGE_POSITIONAMT_INVALID"
    let rest = index_positions payloads
    let repeated = has_entry payload.symbol by_symbol
    if d.eqb amount d.zero
        then rest by_symbol
        else if repeated
        then err (recovery_failure "DUPLICATE_EXCHANGE_POSITION")
        else rest (put payload.symbol (position_of amount) by_symbol)

  -- `_verify_entry_order`
  unfoldable pub verify_entry_order : OrderPayload N → DemoTradeRecord N → Result (Unit {0})
  unfolding finite_decimal
  verify_entry_order payload trade = do
    raise_if
        (not (payload.client_order_id == trade.client_order_id)
          || not (payload.order_id == trade.exchange_order_id)
          || not (is_filled payload.status))
        (recovery_failure "ENTRY_ORDER_RECONCILIATION_MISMATCH")
    executed ← finite_decimal payload.executed_qty "EXCHANGE_EXECUTEDQTY_INVALID"
    raise_if (not (d.eqb executed trade.executed_quantity))
        (recovery_failure "ENTRY_ORDER_RECONCILIATION_MISMATCH")

  -- A trade and the position of its symbol.
  abbrev pub is_position_of : DemoTradeRecord N → Option (ScannerDirection × N) → Bool
  is_position_of trade none = false
  is_position_of trade (some (direction, quantity)) =
      same_direction direction trade.direction && d.eqb quantity trade.executed_quantity

  -- The queries for one local trade.
  unfoldable pub verify_trade :
      PrivateClient N → Dict (ScannerDirection × N) → String → DemoTradeRecord N → Result (Unit {0})
  unfolding verify_entry_order verify_protective_order
  verify_trade client positions symbol trade = do
    raise_if (not (is_position_of trade (lookup symbol positions)))
        (recovery_failure "LOCAL_EXCHANGE_POSITION_MISMATCH")
    entry ← client.query_order symbol trade.client_order_id
    verify_entry_order entry trade
    stop ← client.query_algo_order symbol trade.stop_client_order_id
    verify_protective_order stop trade.stop_client_order_id trade.stop_order_id
    take_profit ← client.query_algo_order symbol trade.take_profit_client_order_id
    verify_protective_order take_profit trade.take_profit_client_order_id trade.take_profit_order_id

  -- The last loop.
  unfoldable pub verify_trades :
      PrivateClient N → Dict (ScannerDirection × N) → Dict (DemoTradeRecord N) → Result (Unit {0})
  unfolding verify_trade
  verify_trades client positions [] = ok tt
  verify_trades client positions ((symbol, trade) ∷ rest) =
      verify_trade client positions symbol trade >> verify_trades client positions rest

  abbrev pub is_listed_order : List (OrderPayload N) → Bool
  is_listed_order [] = false
  is_listed_order (_ ∷ _) = true

  -- `_reconcile_exchange_state`; no client stands for a private API that is not configured.
  unfoldable pub reconcile_exchange_state :
      Option (PrivateClient N) → List (DemoTradeRecord N) → Result (Unit {0})
  unfolding index_trades index_algo_orders match_identities index_positions verify_trades
  reconcile_exchange_state configured trades = do
    client ← or_raise configured (recovery_failure "DEMO_PRIVATE_API_NOT_CONFIGURED")
    (local_by_symbol, expected) ← index_trades (keep_if is_open trades) [] []
    regular ← client.open_orders
    raise_if (is_listed_order regular) (recovery_failure "UNEXPECTED_OPEN_REGULAR_ORDER")
    payloads ← client.open_algo_orders
    actual ← index_algo_orders payloads []
    raise_if (not (same_keys actual expected)) (recovery_failure "OPEN_ALGO_ORDER_SET_MISMATCH")
    match_identities actual expected
    position_payloads ← client.positions
    exchange_by_symbol ← index_positions position_payloads []
    raise_if (not (same_keys local_by_symbol exchange_by_symbol))
        (recovery_failure "LOCAL_EXCHANGE_POSITION_MISMATCH")
    verify_trades client exchange_by_symbol local_by_symbol
