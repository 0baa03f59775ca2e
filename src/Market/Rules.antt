-- ===== src/Market/Rules.antt =====
-- `parse_symbol_trading_rules` and the methods of `SymbolTradingRules`.
use astra_froge.Common.{
  String, Bool, false, not, ◌||◌, Option, none, some, List, [], ◌∷◌, find?, if◌then◌else◌, ◌==◌,
  Dict, lookup, put, Result, ok, err, ◌>>=◌, ◌>>◌, raise_if, or_raise, value_error,
}
use astra_froge.Schemas.{ScannerDirection, long, short}
use astra_froge.Schemas.Decimals.{Decimals}

-- The rounding of Python's `Decimal`: `to_integral_value` with ROUND_DOWN and ROUND_UP, and `%`.
pub record Rounding (N : Type 0) : Type 0 where
  pub whole_down : N → N
  pub whole_up : N → N
  pub remainder : N → N → N

-- One filter. A field holds what `Decimal(str(...))` reads, `none` where it raises; the outer option of
-- `notional` tells whether the key is there.
pub record FilterPayload (N : Type 0) : Type 0 where
  pub filter_type : Option String
  pub min_qty : Option N
  pub max_qty : Option N
  pub step_size : Option N
  pub min_price : Option N
  pub max_price : Option N
  pub tick_size : Option N
  pub notional : Option (Option N)
  pub min_notional : Option N

-- One symbol; `filters` is `none` where it is not a list.
pub record SymbolPayload (N : Type 0) : Type 0 where
  pub symbol : Option String
  pub status : Option String
  pub contract_type : Option String
  pub quote_asset : Option String
  pub filters : Option (List (FilterPayload N))

-- `SymbolTradingRules`
pub record SymbolTradingRules (N : Type 0) : Type 0 where
  pub symbol : String
  pub quantity_min : N
  pub quantity_max : N
  pub quantity_step : N
  pub price_min : N
  pub price_max : N
  pub price_tick : N
  pub min_notional : N

abbrev pub is_text : Option String → String → Bool
is_text none expected = false
is_text (some text) expected = text == expected

-- `a or b`, for filters
abbrev pub or_filter : {A : Type 0} → Option A → Option A → Option A
or_filter none b = b
or_filter (some a) b = some a

module _ {N : Type 0} where
  -- The loop of `_filter_map`.
  unfoldable pub filter_map :
      List (FilterPayload N) → Dict (FilterPayload N) → Dict (FilterPayload N)
  filter_map [] mapped = mapped
  filter_map (item ∷ items) mapped = elim item.filter_type [
    | none ↦ filter_map items mapped
    | some filter_type ↦ filter_map items (put filter_type item mapped)
  ]

  -- `notional_filter.get("notional", notional_filter.get("minNotional"))`
  abbrev pub notional_of : Option (Option N) → Option N → Option N
  notional_of none min_notional = min_notional
  notional_of (some notional) min_notional = notional

module _ {N : Type 0} (d : Decimals N) where
  -- `_decimal`
  unfoldable pub read_decimal : Option N → String → Result N
  read_decimal none message = err (value_error message)
  read_decimal (some value) message =
      if d.is_finite value then ok value else err (value_error message)

  abbrev pub is_at_most : N → N → Bool
  is_at_most a b = d.ltb a b || d.eqb a b

  -- The checks at the end of the parsing.
  unfoldable pub check_rules : SymbolTradingRules N → Result (SymbolTradingRules N)
  check_rules rules = do
    raise_if
        (is_at_most rules.quantity_min d.zero
          || d.ltb rules.quantity_max rules.quantity_min
          || is_at_most rules.quantity_step d.zero)
        (value_error "Invalid market quantity filter")
    raise_if
        (d.ltb rules.price_min d.zero
          || is_at_most rules.price_max rules.price_min
          || is_at_most rules.price_tick d.zero)
        (value_error "Invalid price filter")
    raise_if (is_at_most rules.min_notional d.zero) (value_error "Invalid minimum notional filter")
    ok rules

  -- The numbers of the three filters.
  unfoldable pub rules_of :
      String → FilterPayload N → FilterPayload N → FilterPayload N → Result (SymbolTradingRules N)
  unfolding read_decimal
  rules_of symbol quantity_filter price_filter notional_filter = do
    quantity_min ← read_decimal quantity_filter.min_qty "Invalid exchange rule field: minQty"
    quantity_max ← read_decimal quantity_filter.max_qty "Invalid exchange rule field: maxQty"
    quantity_step ← read_decimal quantity_filter.step_size "Invalid exchange rule field: stepSize"
    price_min ← read_decimal price_filter.min_price "Invalid exchange rule field: minPrice"
    price_max ← read_decimal price_filter.max_price "Invalid exchange rule field: maxPrice"
    price_tick ← read_decimal price_filter.tick_size "Invalid exchange rule field: tickSize"
    min_notional ←
        read_decimal (notional_of notional_filter.notional notional_filter.min_notional)
          "Invalid exchange rule field: minNotional"
    ok (record {
      symbol = symbol;
      quantity_min = quantity_min;
      quantity_max = quantity_max;
      quantity_step = quantity_step;
      price_min = price_min;
      price_max = price_max;
      price_tick = price_tick;
      min_notional = min_notional;
    })

  -- The three filters.
  unfoldable pub read_rules : String → SymbolPayload N → Result (SymbolTradingRules N)
  unfolding filter_map rules_of
  read_rules symbol payload = do
    items ← or_raise payload.filters (value_error "Symbol filters are unavailable")
    let filters = filter_map items []
    quantity_filter ←
        or_raise (or_filter (lookup "MARKET_LOT_SIZE" filters) (lookup "LOT_SIZE" filters))
          (value_error "Required exchange filters are unavailable")
    price_filter ←
        or_raise (lookup "PRICE_FILTER" filters)
          (value_error "Required exchange filters are unavailable")
    notional_filter ←
        or_raise (or_filter (lookup "MIN_NOTIONAL" filters) (lookup "NOTIONAL" filters))
          (value_error "Required exchange filters are unavailable")
    rules_of symbol quantity_filter price_filter notional_filter

  -- The symbol's payload, where it may be traded.
  unfoldable pub find_symbol : Option (List (SymbolPayload N)) → String → Result (SymbolPayload N)
  find_symbol symbols symbol = do
    items ← or_raise symbols (value_error "Exchange symbol metadata is unavailable")
    payload ←
        or_raise (find? (λ (p : SymbolPayload N). is_text p.symbol symbol) items)
          (value_error "Symbol is not present in exchange metadata")
    raise_if (not (is_text payload.status "TRADING"))
        (value_error "Symbol is not currently trading")
    raise_if (not (is_text payload.contract_type "PERPETUAL"))
        (value_error "Symbol is not a perpetual contract")
    raise_if (not (is_text payload.quote_asset "USDT")) (value_error "Symbol is not USDT quoted")
    ok payload

  -- `parse_symbol_trading_rules`
  unfoldable pub parse_symbol_trading_rules :
      Option (List (SymbolPayload N)) → String → Result (SymbolTradingRules N)
  unfolding find_symbol read_rules check_rules
  parse_symbol_trading_rules symbols symbol =
      (find_symbol symbols symbol >>= read_rules symbol) >>= check_rules

  module _ (rounding : Rounding N) (rules : SymbolTradingRules N) where
    -- `normalize_market_quantity`
    unfoldable pub normalize_market_quantity : N → Result N
    normalize_market_quantity raw_quantity = do
      raise_if (d.ltb raw_quantity rules.quantity_min)
          (value_error "Risk-approved quantity is below the exchange minimum")
      let normalized =
          d.mul (rounding.whole_down (d.div raw_quantity rules.quantity_step)) rules.quantity_step
      raise_if (d.ltb normalized rules.quantity_min || d.ltb rules.quantity_max normalized)
          (value_error "Risk-approved quantity is outside exchange limits")
      raise_if (not (d.eqb (rounding.remainder normalized rules.quantity_step) d.zero))
          (value_error "Normalized quantity violates exchange step size")
      ok normalized

    abbrev pub rounds_up : ScannerDirection → Bool → Bool
    rounds_up short is_stop_loss = is_stop_loss
    rounds_up long is_stop_loss = not is_stop_loss

    -- `normalize_protective_price`
    unfoldable pub normalize_protective_price : N → ScannerDirection → Bool → Result N
    normalize_protective_price raw_price direction is_stop_loss = do
      raise_if (is_at_most raw_price d.zero)
          (value_error "Protective trigger price must be positive")
      let ticks = d.div raw_price rules.price_tick
      let normalized =
          d.mul
            (if rounds_up direction is_stop_loss
              then rounding.whole_up ticks
              else rounding.whole_down ticks)
            rules.price_tick
      raise_if (d.ltb normalized rules.price_min || d.ltb rules.price_max normalized)
          (value_error "Protective trigger price is outside exchange limits")
      raise_if (not (d.eqb (rounding.remainder normalized rules.price_tick) d.zero))
          (value_error "Protective trigger price violates exchange tick size")
      ok normalized

  -- `validate_market_notional`
  unfoldable pub validate_market_notional : SymbolTradingRules N → N → N → Result N
  validate_market_notional rules quantity mark_price = do
    raise_if (is_at_most mark_price d.zero) (value_error "Exchange mark price is unavailable")
    raise_if (d.ltb (d.mul quantity mark_price) rules.min_notional)
        (value_error "Order notional is below the exchange minimum")
    ok (d.mul quantity mark_price)
