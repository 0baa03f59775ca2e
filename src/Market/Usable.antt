-- ===== src/Market/Usable.antt =====
-- Where the parsed rules come from, and what they keep to.
use astra_froge.Common.{
  String, Bool, true, false, not, Option, none, some, List, [], ◌∷◌, Some, Some-map, find?, ==_iff,
  ok, ◌>>=◌, >>=-eq-ok, raise_if-eq-ok, or_raise, value_error, ◌≡◌, ap, ◌∙◌, subst, inl, inr,
  Bool-cases, false≢true, some_inj, ok_inj, arith,
}
use astra_froge.Schemas.Decimals.{Decimals}
use astra_froge.Market.Rules.{
  SymbolPayload, SymbolTradingRules, is_text, is_at_most, find_symbol, read_rules, check_rules,
  parse_symbol_trading_rules,
}
use astra_froge.Market.Filters.{IsListedAs, IsReadFrom, given, read_rules-IsReadFrom}

module _ {N : Type 0} (d : Decimals N) where
  -- Rules by which an order can be placed.
  pub record IsUsable (rules : SymbolTradingRules N) : Type 0 where
    pub quantity : is_at_most d rules.quantity_min d.zero ≡ false
    pub quantities : d.ltb rules.quantity_max rules.quantity_min ≡ false
    pub step : is_at_most d rules.quantity_step d.zero ≡ false
    pub price : d.ltb rules.price_min d.zero ≡ false
    pub prices : is_at_most d rules.price_max rules.price_min ≡ false
    pub tick : is_at_most d rules.price_tick d.zero ≡ false
    pub notional : is_at_most d rules.min_notional d.zero ≡ false

  check_rules-IsUsable :
      (parsed rules : SymbolTradingRules N) → check_rules d parsed ≡ ok rules → IsUsable rules
  unfolding check_rules
  check_rules-IsUsable parsed rules h = record {
    quantity = ground arith;
    quantities = ground arith;
    step = ground arith;
    price = ground arith;
    prices = ground arith;
    tick = ground arith;
    notional = ground arith;
  }

  text_of : (o : Option String) (text : String) → is_text o text ≡ true → o ≡ some text
  text_of none text h = absurd (false≢true h)
  text_of (some t) text h = ap some ((==_iff t text).0 h)

  find?-Some :
      (symbol : String) (p : SymbolPayload N) (items : List (SymbolPayload N))
      → find? (λ (x : SymbolPayload N). is_text x.symbol symbol) items ≡ some p
      → Some (λ (x : SymbolPayload N). (x ≡ p) × (x.symbol ≡ some symbol)) items
  find?-Some symbol p [] h = cc
  find?-Some symbol p (x ∷ xs) h = elim (Bool-cases (is_text x.symbol symbol)) [
    | inl same ↦ inl (some_inj (rw same at h), text_of x.symbol symbol same)
    | inr other ↦ inr (find?-Some symbol p xs (rw other at h))
  ]

  holds_of : (b : Bool) → not b ≡ false → b ≡ true
  holds_of b h = ground arith

  -- Rules that were parsed stand in the exchange's answer: one of its symbols has that name, trades,
  -- is a perpetual contract and is quoted in USDT, and the numbers are those of its lot size, price and
  -- notional filters. And the rules are usable: the least quantity, the step, the tick and the least
  -- notional are positive, the least price is not negative, and the limits are in their order.
  pub parse-IsUsable :
      (answer : Option (List (SymbolPayload N))) (symbol : String) (rules : SymbolTradingRules N)
      → parse_symbol_trading_rules d answer symbol ≡ ok rules
      → (symbols : List (SymbolPayload N)) × (answer ≡ some symbols)
        × Some (IsListedAs d symbol rules) symbols
        × IsUsable rules
  unfolding parse_symbol_trading_rules find_symbol check_rules
  parse-IsUsable answer symbol rules h =
      let (parsed, from_payload, checked) =
        >>=-eq-ok (find_symbol d answer symbol >>= read_rules d symbol) _ h in
      let (payload, found, read) = >>=-eq-ok (find_symbol d answer symbol) _ from_payload in
      let same : parsed ≡ rules = ground arith in
      let (items, listed, from_items) = read_rules-IsReadFrom d symbol payload parsed read in
      let (symbols, answered, e₁) =
        >>=-eq-ok (or_raise answer (value_error "Exchange symbol metadata is unavailable")) _
          found in
      let (p, searched, e₂) =
        >>=-eq-ok
          (or_raise (find? (λ (x : SymbolPayload N). is_text x.symbol symbol) symbols)
            (value_error "Symbol is not present in exchange metadata"))
          _ e₁ in
      let (trading, e₃) = raise_if-eq-ok (not (is_text p.status "TRADING")) _ _ e₂ in
      let (perpetual, e₄) = raise_if-eq-ok (not (is_text p.contract_type "PERPETUAL")) _ _ e₃ in
      let (quoted, e₅) = raise_if-eq-ok (not (is_text p.quote_asset "USDT")) _ _ e₄ in
      let is_payload = ok_inj e₅ in
      (
        symbols,
        given d answer _ answered,
        Some-map _ _ symbols
            (λ x source.
              let to_p = source.0 in
              record {
                named = source.1;
                trading =
                    ap (λ (y : SymbolPayload N). y.status) to_p
                    ∙ text_of p.status "TRADING" (holds_of (is_text p.status "TRADING") trading);
                perpetual =
                    ap (λ (y : SymbolPayload N). y.contract_type) to_p
                    ∙ text_of p.contract_type "PERPETUAL"
                        (holds_of (is_text p.contract_type "PERPETUAL") perpetual);
                quoted =
                    ap (λ (y : SymbolPayload N). y.quote_asset) to_p
                    ∙ text_of p.quote_asset "USDT" (holds_of (is_text p.quote_asset "USDT") quoted);
                items = items;
                filters = ap (λ (y : SymbolPayload N). y.filters) (to_p ∙ is_payload) ∙ listed;
                read = subst (IsReadFrom d items) same from_items;
              })
            (find?-Some symbol p symbols (given d _ _ searched)),
        check_rules-IsUsable parsed rules checked,
      )
