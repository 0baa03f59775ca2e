-- ===== src/Recovery/Reconciled.antt =====
-- What a reconciliation that passes has proved of the exchange.
use astra_froge.Common.{
  Bool, Some, Some-map, and-true, false≢true, String, true, false, not, ◌||◌, Option, none, some,
  List, [], ◌∷◌, ◌++◌, ◌==◌, any, All, All-map, keep_if, Dict, lookup, has_entry, put, same_keys,
  ok, >>=-eq-ok, raise_if-eq-ok, append_put, keys_within-has_entry, back_within, ◌≡◌, refl, sym, ap,
  ◌∙◌, subst, inl, inr, Bool-cases, ok_inj, arith,
}
use mathlib.Core.List.{append_assoc, append-nil}
use astra_froge.Schemas.{ScannerDirection, long, short, same_direction}
use astra_froge.Schemas.Decimals.{Decimals}
use astra_froge.Schemas.Execution.{DemoTradeRecord, is_open}
use astra_froge.Recovery.Positions.{
  is_held, finite_part, index_positions-All, index_positions-Some, IsSourceOf,
}
use astra_froge.Recovery.Payloads.{OrderPayload, AlgoPayload, PositionPayload, PrivateClient}
use astra_froge.Recovery.Reconcile.{
  Identity, is_open_protection, is_filled, expect_order, index_trades, verify_protective_order,
  finite_decimal, position_of, index_positions, verify_entry_order, is_position_of, verify_trade,
  verify_trades, is_listed_order, reconcile_exchange_state, index_algo_orders, match_identities,
}

-- An open protective order of the exchange, under the given ids.
pub record IsProtection (payload : AlgoPayload) (client_order_id order_id : String) : Type 0 where
  pub client_order : (payload.client_order_id == client_order_id) ≡ true
  pub order : (payload.order_id == order_id) ≡ true
  pub active : is_open_protection payload.status ≡ true

protection_of :
    (payload : AlgoPayload) (client_order_id order_id : String)
    → verify_protective_order payload client_order_id order_id ≡ ok tt
    → IsProtection payload client_order_id order_id
unfolding verify_protective_order
protection_of payload client_order_id order_id h = record {
  client_order = ground arith;
  order = ground arith;
  active = ground arith;
}

module _ {N : Type 0} where
  abbrev by_symbol : List (DemoTradeRecord N) → Dict (DemoTradeRecord N)
  by_symbol [] = []
  by_symbol (trade ∷ trades) = (trade.symbol, trade) ∷ by_symbol trades

  index_trades-append :
      (trades : List (DemoTradeRecord N)) (before after : Dict (DemoTradeRecord N))
      (expected orders : Dict Identity)
      → index_trades trades before expected ≡ ok (after, orders)
      → after ≡ before ++ by_symbol trades
  unfolding index_trades
  index_trades-append [] before after expected orders h =
      sym (ap (λ p. p.0) (ok_inj h)) ∙ sym (append-nil before)
  index_trades-append (trade ∷ trades) before after expected orders h =
      let (fresh, e₁) = raise_if-eq-ok (has_entry trade.symbol before) _ _ h in
      let (with_stop, _, e₂) =
        >>=-eq-ok
          (expect_order trade.stop_client_order_id (trade.symbol, trade.stop_order_id) expected) _
          e₁ in
      let (with_both, _, e₃) =
        >>=-eq-ok
          (expect_order trade.take_profit_client_order_id (trade.symbol, trade.take_profit_order_id)
            with_stop)
          _ e₂ in
      index_trades-append trades (put trade.symbol trade before) after with_both orders e₃
      ∙ ap (λ d. d ++ by_symbol trades) (append_put trade.symbol trade before fresh)
      ∙ append_assoc before ((trade.symbol, trade) ∷ []) (by_symbol trades)

  -- A symbol of the index is the symbol of one of the trades.
  has_entry-by_symbol :
      (symbol : String) (trades : List (DemoTradeRecord N))
      → has_entry symbol (by_symbol trades)
        ≡ any (λ (t : DemoTradeRecord N). t.symbol == symbol) trades
  has_entry-by_symbol symbol [] = refl
  has_entry-by_symbol symbol (trade ∷ trades) = elim (Bool-cases (trade.symbol == symbol)) [
    | inl same ↦ rw same
    | inr other ↦ rw (other, has_entry-by_symbol symbol trades)
  ]

module _ {N : Type 0} (d : Decimals N) where
  -- The FILLED entry order of a trade, for its whole quantity.
  pub record IsEntryOf (payload : OrderPayload N) (trade : DemoTradeRecord N) : Type 0 where
    pub client_order : (payload.client_order_id == trade.client_order_id) ≡ true
    pub order : (payload.order_id == trade.exchange_order_id) ≡ true
    pub filled : is_filled payload.status ≡ true
    pub quantity :
        (q : N) × (payload.executed_qty ≡ some q) × (d.eqb q trade.executed_quantity ≡ true)

  -- The side of a position that is not flat: long above zero, and short otherwise.
  abbrev pub is_on_side : ScannerDirection → N → Bool
  is_on_side long amount = d.ltb d.zero amount
  is_on_side short amount = not (d.ltb d.zero amount)

  -- The position of a trade, as the exchange reports it: of its symbol, not flat, on its side, and of
  -- its size.
  pub record IsPositionOf (trade : DemoTradeRecord N) (p : PositionPayload N) : Type 0 where
    pub symbol : p.symbol ≡ trade.symbol
    pub amount : N
    pub read : p.position_amt ≡ some amount
    pub held : d.eqb amount d.zero ≡ false
    pub side : is_on_side trade.direction amount ≡ true
    pub size : d.eqb (d.abs amount) trade.executed_quantity ≡ true

  position_payload :
      (trade : DemoTradeRecord N) (payloads : List (PositionPayload N))
      (positions : Dict (ScannerDirection × N)) (found : Option (ScannerDirection × N))
      → index_positions d payloads [] ≡ ok positions
      → lookup trade.symbol positions ≡ found
      → is_position_of d trade found ≡ true
      → Some (IsPositionOf trade) payloads
  position_payload trade payloads positions none indexed e h = absurd (false≢true h)
  position_payload trade payloads positions (some (direction, quantity)) indexed e h =
      elim (index_positions-Some d trade.symbol (direction, quantity) payloads [] positions indexed
        e) [
          | inl there ↦ cc
          | inr among ↦ Some-map _ _ payloads (λ p source. position p source) among
        ]
    where
      both :
          (same_direction direction trade.direction ≡ true)
          × (d.eqb quantity trade.executed_quantity ≡ true)
      both = and-true _ _ h

      side_of :
          (t : ScannerDirection) (a : N)
          → same_direction (position_of d a).0 t ≡ true
          → is_on_side t a ≡ true
      side_of long a e = ground arith
      side_of short a e = ground arith

      position :
          (p : PositionPayload N)
          → IsSourceOf d trade.symbol (direction, quantity) p
          → IsPositionOf trade p
      position p source = record {
        symbol = source.symbol;
        amount = source.amount;
        read = source.read;
        held = source.held;
        side = side_of trade.direction source.amount (
            ap (λ (q : ScannerDirection × N). same_direction q.0 trade.direction) source.made
            ∙ both.0);
        size =
            ap (λ (q : ScannerDirection × N). d.eqb q.1 trade.executed_quantity) source.made
            ∙ both.1;
      }

  -- What the exchange shows of one open trade: its position, its filled entry and its two open
  -- protective orders.
  pub record IsOnExchange (client : PrivateClient N) (payloads : List (PositionPayload N))
      (trade : DemoTradeRecord N) : Type 0 where
    pub position : Some (IsPositionOf trade) payloads
    pub entry :
        (p : OrderPayload N) × (client.query_order trade.symbol trade.client_order_id ≡ ok p)
        × IsEntryOf p trade
    pub stop :
        (p : AlgoPayload) × (client.query_algo_order trade.symbol trade.stop_client_order_id ≡ ok p)
        × IsProtection p trade.stop_client_order_id trade.stop_order_id
    pub take_profit :
        (p : AlgoPayload) × (client.query_algo_order trade.symbol trade.take_profit_client_order_id
          ≡ ok p)
        × IsProtection p trade.take_profit_client_order_id trade.take_profit_order_id

  entry_of :
      (payload : OrderPayload N) (trade : DemoTradeRecord N)
      → verify_entry_order d payload trade ≡ ok tt
      → IsEntryOf payload trade
  unfolding verify_entry_order
  entry_of payload trade h =
      let (same, e₁) =
        raise_if-eq-ok
          (not (payload.client_order_id == trade.client_order_id)
            || not (payload.order_id == trade.exchange_order_id)
            || not (is_filled payload.status))
          _ _ h in
      let (q, read, e₂) =
        >>=-eq-ok (finite_decimal d payload.executed_qty "EXCHANGE_EXECUTEDQTY_INVALID") _ e₁ in
      record {
        client_order = ground arith;
        order = ground arith;
        filled = ground arith;
        quantity = (q, finite_part d payload.executed_qty _ q read, ground arith);
      }

  held_true : (b : Bool) → not b ≡ false → b ≡ true
  held_true b h = ground arith

  trade-IsOnExchange :
      (client : PrivateClient N) (payloads : List (PositionPayload N))
      (positions : Dict (ScannerDirection × N)) (trade : DemoTradeRecord N)
      → index_positions d payloads [] ≡ ok positions
      → verify_trade d client positions trade.symbol trade ≡ ok tt
      → IsOnExchange client payloads trade
  unfolding verify_trade
  trade-IsOnExchange client payloads positions trade indexed h =
      let (there, e₁) =
        raise_if-eq-ok (not (is_position_of d trade (lookup trade.symbol positions))) _ _ h in
      let (entry, asked, e₂) =
        >>=-eq-ok (client.query_order trade.symbol trade.client_order_id) _ e₁ in
      let (_, filled, e₃) = >>=-eq-ok (verify_entry_order d entry trade) _ e₂ in
      let (stop, asked_stop, e₄) =
        >>=-eq-ok (client.query_algo_order trade.symbol trade.stop_client_order_id) _ e₃ in
      let (_, stopped, e₅) =
        >>=-eq-ok (verify_protective_order stop trade.stop_client_order_id trade.stop_order_id) _
          e₄ in
      let (take_profit, asked_target, e₆) =
        >>=-eq-ok (client.query_algo_order trade.symbol trade.take_profit_client_order_id) _ e₅ in
      record {
        position =
            position_payload trade payloads positions (lookup trade.symbol positions) indexed refl
              (held_true (is_position_of d trade (lookup trade.symbol positions)) there);
        entry = (entry, asked, entry_of entry trade filled);
        stop = (stop, asked_stop, protection_of stop _ _ stopped);
        take_profit = (take_profit, asked_target, protection_of take_profit _ _ e₆);
      }

  verify_trades-All :
      (client : PrivateClient N) (payloads : List (PositionPayload N))
      (positions : Dict (ScannerDirection × N)) (trades : List (DemoTradeRecord N))
      → index_positions d payloads [] ≡ ok positions
      → verify_trades d client positions (by_symbol trades) ≡ ok tt
      → All (IsOnExchange client payloads) trades
  unfolding verify_trades
  verify_trades-All client payloads positions [] indexed h = tt
  verify_trades-All client payloads positions (trade ∷ trades) indexed h =
      let (_, first, rest) = >>=-eq-ok (verify_trade d client positions trade.symbol trade) _ h in
      (
        trade-IsOnExchange client payloads positions trade indexed first,
        verify_trades-All client payloads positions trades indexed rest,
      )

  -- What a reconciliation proves of the exchange.
  pub record IsReconciled (client : PrivateClient N) (trades : List (DemoTradeRecord N))
      : Type 0 where
    -- there is no open regular order
    pub regular :
        (orders : List (OrderPayload N)) × (client.open_orders ≡ ok orders)
        × (is_listed_order d orders ≡ false)
    -- every open trade is on the exchange, as one of the positions that it reports
    pub payloads : List (PositionPayload N)
    pub reported : client.positions ≡ ok payloads
    pub covered : All (IsOnExchange client payloads) (keep_if is_open trades)
    -- every position that is not flat is that of an open trade
    pub managed :
        All
          (λ (p : PositionPayload N).
            is_held d p ≡ true
            → any (λ (t : DemoTradeRecord N). t.symbol == p.symbol) (keep_if is_open trades) ≡ true)
          payloads

  -- A reconciliation that passes has a configured client, and there the exchange and the durable
  -- state agree: no regular order is open; each open trade is one of the reported positions,
  -- of its symbol, direction and quantity, with a FILLED entry order of that quantity and two open protective orders under its ids; and
  -- every position that is not flat belongs to an open trade.
  pub reconcile-IsReconciled :
      (configured : Option (PrivateClient N)) (trades : List (DemoTradeRecord N))
      → reconcile_exchange_state d configured trades ≡ ok tt
      → (client : PrivateClient N) × (configured ≡ some client) × IsReconciled client trades
  unfolding reconcile_exchange_state
  reconcile-IsReconciled none trades h = cc
  reconcile-IsReconciled (some client) trades h =
      let ((local, expected), indexed, e₁) =
        >>=-eq-ok (index_trades (keep_if is_open trades) [] []) _ h in
      let (orders, asked, e₂) = >>=-eq-ok client.open_orders _ e₁ in
      let (no_orders, e₃) = raise_if-eq-ok (is_listed_order d orders) _ _ e₂ in
      let (algos, _, e₄) = >>=-eq-ok client.open_algo_orders _ e₃ in
      let (actual, _, e₅) = >>=-eq-ok (index_algo_orders algos []) _ e₄ in
      let (_, e₆) = raise_if-eq-ok (not (same_keys actual expected)) _ _ e₅ in
      let (_, _, e₇) = >>=-eq-ok (match_identities actual expected) _ e₆ in
      let (payloads, reported, e₈) = >>=-eq-ok client.positions _ e₇ in
      let (positions, listed, e₉) = >>=-eq-ok (index_positions d payloads []) _ e₈ in
      let (same, verified) = raise_if-eq-ok (not (same_keys local positions)) _ _ e₉ in
      let exact = index_trades-append (keep_if is_open trades) [] local [] expected indexed in
      (
        client,
        refl,
        record {
          regular = (orders, asked, no_orders);
          covered =
              verify_trades-All client payloads positions (keep_if is_open trades) listed
                (subst (λ x. verify_trades d client positions x ≡ ok tt) exact verified);
          payloads = payloads;
          reported = reported;
          managed =
              All-map _ _ payloads
                (λ p there held.
                  sym (has_entry-by_symbol p.symbol (keep_if is_open trades))
                  ∙ subst (λ x. has_entry p.symbol x ≡ true) exact
                      (keys_within-has_entry p.symbol positions local
                        (back_within local positions same) (there held)))
                (index_positions-All d payloads [] positions listed);
        },
      )
