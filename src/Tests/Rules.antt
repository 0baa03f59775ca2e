-- ===== src/Tests/Rules.antt =====
-- The theorems on the exchange's rules, at one symbol.
use Prim.Native.Nat.{◌*◌, ◌-◌, ◌/◌}
use astra_froge.Common.{Some, List, arith, ℕ, ◌≡◌, refl, false, none, some, [], ◌∷◌, ok, ltb}
use astra_froge.Market.Rules.{
  Rounding, FilterPayload, SymbolPayload, SymbolTradingRules, parse_symbol_trading_rules,
  normalize_market_quantity,
}
use astra_froge.Market.Filters.{IsListedAs}
use astra_froge.Market.Usable.{IsUsable, parse-IsUsable}
use astra_froge.Market.Rounded.{RoundingLaws, IsPlaceable, normalize_market_quantity-IsPlaceable}
use astra_froge.Tests.Market.{naturals}

abbrev lot_size : FilterPayload ℕ
lot_size = record {
  filter_type = some "LOT_SIZE";
  min_qty = some 1;
  max_qty = some 100;
  step_size = some 2;
  min_price = none;
  max_price = none;
  tick_size = none;
  notional = none;
  min_notional = none;
}

abbrev price_filter : FilterPayload ℕ
price_filter = record lot_size {
  filter_type = some "PRICE_FILTER";
  min_price = some 0;
  max_price = some 1000;
  tick_size = some 1;
}

abbrev min_notional : FilterPayload ℕ
min_notional = record lot_size { filter_type = some "MIN_NOTIONAL"; notional = some (some 5) }

abbrev payload : SymbolPayload ℕ
payload = record {
  symbol = some "BTCUSDT";
  status = some "TRADING";
  contract_type = some "PERPETUAL";
  quote_asset = some "USDT";
  filters = some (lot_size ∷ price_filter ∷ min_notional ∷ []);
}

abbrev rules : SymbolTradingRules ℕ
rules = record {
  symbol = "BTCUSDT";
  quantity_min = 1;
  quantity_max = 100;
  quantity_step = 2;
  price_min = 0;
  price_max = 1000;
  price_tick = 1;
  min_notional = 5;
}

parsed : parse_symbol_trading_rules naturals (some (payload ∷ [])) "BTCUSDT" ≡ ok rules
unfolding parse_symbol_trading_rules
parsed = refl

parse-IsUsable_example :
    (symbols : List (SymbolPayload ℕ)) × (some (payload ∷ []) ≡ some symbols)
    × Some (IsListedAs naturals "BTCUSDT" rules) symbols
    × IsUsable naturals rules
parse-IsUsable_example = parse-IsUsable naturals (some (payload ∷ [])) "BTCUSDT" rules parsed

-- On the naturals the division rounds down already.
abbrev rounding : Rounding ℕ
rounding = record { whole_down = λ a. a; whole_up = λ a. a; remainder = λ a b. a - a / b * b }

not_below_zero : (a : ℕ) → ltb a 0 ≡ false
not_below_zero a = ground arith

not_below_itself : (a : ℕ) → ltb a a ≡ false
not_below_itself a = ground arith

rounding_laws : RoundingLaws naturals rounding
rounding_laws = record {
  down = λ a natural. not_below_itself a;
  quotient = λ a b natural positive. not_below_zero (a / b);
}

normalized : normalize_market_quantity naturals rounding rules 7 ≡ ok 6
unfolding normalize_market_quantity
normalized = refl

normalize_market_quantity-IsPlaceable_example : IsPlaceable naturals rounding rules 7 6
normalize_market_quantity-IsPlaceable_example =
    normalize_market_quantity-IsPlaceable naturals rounding rules rounding_laws refl 7 6 refl
      normalized
