-- ===== src/Market/Filters.antt =====
-- Where the numbers of the rules stand in the exchange's filters.
use astra_froge.Common.{
  String, Option, none, some, List, [], ◌∷◌, Some, Some-map, ◌==◌, ==_iff, Dict, lookup, put,
  lookup-put, lookup-put_other, ok, >>=-eq-ok, or_raise, Error, value_error, ◌≡◌, ◌⊎◌, sym, ap, ◌∙◌,
  inl, inr, Bool-cases, Option-cases, some_inj, arith,
}
use astra_froge.Schemas.Decimals.{Decimals}
use astra_froge.Market.Rules.{
  FilterPayload, SymbolPayload, SymbolTradingRules, or_filter, filter_map, notional_of,
  read_decimal, rules_of, read_rules,
}

module _ {N : Type 0} (d : Decimals N) where
  abbrev pub IsOfType : String → FilterPayload N → Type 0
  IsOfType name f = f.filter_type ≡ some name

  -- Where the rules stand in the filters of a symbol.
  pub record IsReadFrom (items : List (FilterPayload N)) (rules : SymbolTradingRules N)
      : Type 0 where
    pub lot :
        Some
          (λ (f : FilterPayload N).
            (IsOfType "MARKET_LOT_SIZE" f ⊎ IsOfType "LOT_SIZE" f)
            × (f.min_qty ≡ some rules.quantity_min)
            × (f.max_qty ≡ some rules.quantity_max)
            × (f.step_size ≡ some rules.quantity_step))
          items
    pub price :
        Some
          (λ (f : FilterPayload N).
            IsOfType "PRICE_FILTER" f
            × (f.min_price ≡ some rules.price_min)
            × (f.max_price ≡ some rules.price_max)
            × (f.tick_size ≡ some rules.price_tick))
          items
    pub least_notional :
        Some
          (λ (f : FilterPayload N).
            (IsOfType "MIN_NOTIONAL" f ⊎ IsOfType "NOTIONAL" f)
            × ((f.notional ≡ some (some rules.min_notional))
                ⊎ ((f.notional ≡ none) × (f.min_notional ≡ some rules.min_notional))))
          items

  -- The symbol, as a USDT perpetual that trades, with the filters of the rules.
  pub record IsListedAs (symbol : String) (rules : SymbolTradingRules N) (p : SymbolPayload N)
      : Type 0 where
    pub named : p.symbol ≡ some symbol
    pub trading : p.status ≡ some "TRADING"
    pub perpetual : p.contract_type ≡ some "PERPETUAL"
    pub quoted : p.quote_asset ≡ some "USDT"
    pub items : List (FilterPayload N)
    pub filters : p.filters ≡ some items
    pub read : IsReadFrom items rules

  filter_map-Some :
      (name : String) (f : FilterPayload N) (items : List (FilterPayload N))
      (before : Dict (FilterPayload N))
      → lookup name (filter_map items before) ≡ some f
      → (lookup name before ≡ some f)
        ⊎ Some (λ (x : FilterPayload N). (x ≡ f) × IsOfType name x) items
  unfolding filter_map
  filter_map-Some name f [] before h = inl h
  filter_map-Some name f (item ∷ items) before h = elim (Option-cases item.filter_type) [
    | inl untyped ↦ skipped (filter_map-Some name f items before (simp untyped at h))
    | inr (t, typed) ↦
        stored t typed (filter_map-Some name f items (put t item before) (simp typed at h))
  ]
    where
      skipped :
          (lookup name before ≡ some f)
            ⊎ Some (λ (x : FilterPayload N). (x ≡ f) × IsOfType name x) items
          → (lookup name before ≡ some f)
            ⊎ Some (λ (x : FilterPayload N). (x ≡ f) × IsOfType name x) (item ∷ items)
      skipped (inl there) = inl there
      skipped (inr among) = inr (inr among)

      stored :
          (t : String)
          → item.filter_type ≡ some t
          → (lookup name (put t item before) ≡ some f)
            ⊎ Some (λ (x : FilterPayload N). (x ≡ f) × IsOfType name x) items
          → (lookup name before ≡ some f)
            ⊎ Some (λ (x : FilterPayload N). (x ≡ f) × IsOfType name x) (item ∷ items)
      stored t typed (inr among) = inr (inr among)
      stored t typed (inl found) = elim (Bool-cases (t == name)) [
        | inl same ↦
            let at = (==_iff t name).0 same in
            inr (
              inl (
                some_inj (
                    sym (lookup-put t item before)
                    ∙ ap (λ k. lookup k (put t item before)) at
                    ∙ found),
                typed ∙ ap some at,
              ))
        | inr other ↦ inl (sym (lookup-put_other t name item before other) ∙ found)
      ]

  -- A filter that was found is one of the items.
  found-Some :
      (name : String) (f : FilterPayload N) (items : List (FilterPayload N))
      → lookup name (filter_map items []) ≡ some f
      → Some (λ (x : FilterPayload N). (x ≡ f) × IsOfType name x) items
  found-Some name f items h = elim (filter_map-Some name f items [] h) [
    | inl there ↦ cc
    | inr among ↦ among
  ]

  either-Some :
      (name other : String) (f : FilterPayload N) (items : List (FilterPayload N))
      → or_filter (lookup name (filter_map items [])) (lookup other (filter_map items [])) ≡ some f
      → Some (λ (x : FilterPayload N). (x ≡ f) × (IsOfType name x ⊎ IsOfType other x)) items
  either-Some name other f items h = elim (Option-cases (lookup name (filter_map items []))) [
    | inl missing ↦
        Some-map _ _ items (λ x source. (source.0, inr source.1))
          (found-Some other f items (rw missing at h))
    | inr (g, there) ↦
        Some-map _ _ items (λ x source. (source.0, inl source.1))
          (found-Some name f items (there ∙ rw there at h))
  ]

  pub given : {A : Type 0} (o : Option A) (e : Error) {a : A} → or_raise o e ≡ ok a → o ≡ some a
  given none e h = cc
  given (some a) e h = cc

  number : (o : Option N) (message : String) (q : N) → read_decimal d o message ≡ ok q → o ≡ some q
  unfolding read_decimal
  number none message q h = cc
  number (some v) message q h = ground arith

  notional_source :
      (f : FilterPayload N) (q : N)
      → notional_of f.notional f.min_notional ≡ some q
      → (f.notional ≡ some (some q)) ⊎ ((f.notional ≡ none) × (f.min_notional ≡ some q))
  notional_source f q h = elim (Option-cases f.notional) [
    | inl missing ↦ inr (missing, simp missing at h)
    | inr (n, there) ↦ inl (there ∙ ap some (simp there at h))
  ]

  -- The numbers that three filters give.
  record IsMadeOf (lot price notional : FilterPayload N) (rules : SymbolTradingRules N)
      : Type 0 where
    quantity_min :
        read_decimal d lot.min_qty "Invalid exchange rule field: minQty" ≡ ok rules.quantity_min
    quantity_max :
        read_decimal d lot.max_qty "Invalid exchange rule field: maxQty" ≡ ok rules.quantity_max
    step :
        read_decimal d lot.step_size "Invalid exchange rule field: stepSize"
        ≡ ok rules.quantity_step
    price_min :
        read_decimal d price.min_price "Invalid exchange rule field: minPrice" ≡ ok rules.price_min
    price_max :
        read_decimal d price.max_price "Invalid exchange rule field: maxPrice" ≡ ok rules.price_max
    tick :
        read_decimal d price.tick_size "Invalid exchange rule field: tickSize" ≡ ok rules.price_tick
    least :
        read_decimal d
          (notional_of notional.notional notional.min_notional)
          "Invalid exchange rule field: minNotional"
        ≡ ok rules.min_notional

  rules_of-IsMadeOf :
      (symbol : String) (lot price notional : FilterPayload N) (rules : SymbolTradingRules N)
      → rules_of d symbol lot price notional ≡ ok rules
      → IsMadeOf lot price notional rules
  unfolding rules_of
  rules_of-IsMadeOf symbol lot price notional rules h = record {
    quantity_min = ground arith;
    quantity_max = ground arith;
    step = ground arith;
    price_min = ground arith;
    price_max = ground arith;
    tick = ground arith;
    least = ground arith;
  }

  made-IsReadFrom :
      (items : List (FilterPayload N)) (lot price notional : FilterPayload N)
      (rules : SymbolTradingRules N)
      → IsMadeOf lot price notional rules
      → or_filter
          (lookup "MARKET_LOT_SIZE" (filter_map items []))
          (lookup "LOT_SIZE" (filter_map items []))
        ≡ some lot
      → lookup "PRICE_FILTER" (filter_map items []) ≡ some price
      → or_filter
          (lookup "MIN_NOTIONAL" (filter_map items []))
          (lookup "NOTIONAL" (filter_map items []))
        ≡ some notional
      → IsReadFrom items rules
  made-IsReadFrom items lot price notional rules made lot_found price_found notional_found =
      record {
        lot =
            Some-map _ _ items
              (λ x source. (
                source.1,
                ap (λ (y : FilterPayload N). y.min_qty) source.0
                    ∙ number lot.min_qty _ rules.quantity_min made.quantity_min,
                ap (λ (y : FilterPayload N). y.max_qty) source.0
                    ∙ number lot.max_qty _ rules.quantity_max made.quantity_max,
                ap (λ (y : FilterPayload N). y.step_size) source.0
                    ∙ number lot.step_size _ rules.quantity_step made.step,
              ))
              (either-Some "MARKET_LOT_SIZE" "LOT_SIZE" lot items lot_found);
        price =
            Some-map _ _ items
              (λ x source. (
                source.1,
                ap (λ (y : FilterPayload N). y.min_price) source.0
                    ∙ number price.min_price _ rules.price_min made.price_min,
                ap (λ (y : FilterPayload N). y.max_price) source.0
                    ∙ number price.max_price _ rules.price_max made.price_max,
                ap (λ (y : FilterPayload N). y.tick_size) source.0
                    ∙ number price.tick_size _ rules.price_tick made.tick,
              ))
              (found-Some "PRICE_FILTER" price items price_found);
        least_notional =
            Some-map _ _ items
              (λ x source. (
                source.1,
                notional_source x rules.min_notional (
                    ap (λ (y : FilterPayload N). notional_of y.notional y.min_notional) source.0
                    ∙ number (notional_of notional.notional notional.min_notional) _
                        rules.min_notional made.least),
              ))
              (either-Some "MIN_NOTIONAL" "NOTIONAL" notional items notional_found);
      }

  pub read_rules-IsReadFrom :
      (symbol : String) (p : SymbolPayload N) (rules : SymbolTradingRules N)
      → read_rules d symbol p ≡ ok rules
      → (items : List (FilterPayload N)) × (p.filters ≡ some items) × IsReadFrom items rules
  unfolding read_rules
  read_rules-IsReadFrom symbol p rules h =
      let missing : Error = value_error "Required exchange filters are unavailable" in
      let (items, listed, e₁) =
        >>=-eq-ok (or_raise p.filters (value_error "Symbol filters are unavailable")) _ h in
      let filters : Dict (FilterPayload N) = filter_map items [] in
      let (lot, lot_found, e₂) =
        >>=-eq-ok
          (or_raise (or_filter (lookup "MARKET_LOT_SIZE" filters) (lookup "LOT_SIZE" filters))
            missing)
          _ e₁ in
      let (price, price_found, e₃) =
        >>=-eq-ok (or_raise (lookup "PRICE_FILTER" filters) missing) _ e₂ in
      let (notional, notional_found, e₄) =
        >>=-eq-ok
          (or_raise (or_filter (lookup "MIN_NOTIONAL" filters) (lookup "NOTIONAL" filters)) missing)
          _ e₃ in
      (
        items,
        given p.filters _ listed,
        made-IsReadFrom items lot price notional rules
            (rules_of-IsMadeOf symbol lot price notional rules e₄) (given _ missing lot_found)
            (given _ missing price_found) (given _ missing notional_found),
      )
