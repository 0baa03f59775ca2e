-- ===== src/Worker/Fills.antt =====
-- What stands behind a trade that `_validate_trade` accepts.
use astra_froge.Common.{
  String, Bool, true, false, ◌&&◌, ◌||◌, ◌==◌, ==_iff, ok, ◌≡◌, ◌≢◌, ◌↔◌, refl, sym, ◌∙◌, subst,
  inl, inr, Bool-cases, false≢true, or-false, arith,
}
use astra_froge.Schemas.{
  same_direction_eq, ScannerDirection, long, short, same_direction, ExecutionCommand,
}
use astra_froge.Schemas.Decimals.{Decimals}
use astra_froge.Schemas.Execution.{DemoTradeRecord}
use astra_froge.Commands.Targets.{target_of}
use astra_froge.Worker.Trade.{expected_target, validate_trade}

all_three : (a b c : Bool) → (a && b && c) ≡ true → (a ≡ true) × (b ≡ true) × (c ≡ true)
all_three a b c h = ground arith

from_three : (a b c : Bool) → a ≡ true → b ≡ true → c ≡ true → (a && b && c) ≡ true
from_three a b c e f g = ground arith

neither : (a b : Bool) → a ≡ false → b ≡ false → (a || b) ≡ false
neither a b e f = ground arith

same_direction_of : (a b : ScannerDirection) → a ≡ b → same_direction a b ≡ true
same_direction_of long b h = subst (λ x. same_direction long x ≡ true) h refl
same_direction_of short b h = subst (λ x. same_direction short x ≡ true) h refl

differs : (a : String) → (a == "") ≡ false → a ≢ ""
differs a h e = false≢true (sym h ∙ (==_iff a "").1 e)

differ : (a : String) → a ≢ "" → (a == "") ≡ false
differ a h = elim (Bool-cases (a == "")) [
  | inl same ↦ absurd (h ((==_iff a "").0 same))
  | inr apart ↦ apart
]

module _ {N : Type 0} (d : Decimals N) where
  -- The tests of `_validate_trade`, each as it comes out for an accepted trade.
  record IsAccepted (c : ExecutionCommand N) (t : DemoTradeRecord N) : Type 0 where
    identity :
        ((t.signal_id == c.signal_id)
          && (t.symbol == c.symbol)
          && same_direction t.direction c.direction)
        ≡ true
    orders :
        ((t.client_order_id == c.entry_client_order_id)
          && (t.stop_client_order_id == c.stop_client_order_id)
          && (t.take_profit_client_order_id == c.take_profit_client_order_id))
        ≡ true
    filled : (t.order_status == "FILLED") ≡ true
    positive : (d.ltb t.executed_quantity d.zero || d.eqb t.executed_quantity d.zero) ≡ false
    approved : d.ltb c.approved_quantity t.executed_quantity ≡ false
    protected : ((t.stop_order_id == "") || (t.take_profit_order_id == "")) ≡ false
    target :
        d.eqb t.take_profit_price (expected_target d c.direction t c.take_profit_r_multiple) ≡ true

  fill_of :
      (c : ExecutionCommand N) (t : DemoTradeRecord N)
      → validate_trade d c t ≡ ok tt
      → IsAccepted c t
  unfolding validate_trade
  fill_of c t h = record {
    identity = ground arith;
    orders = ground arith;
    filled = ground arith;
    positive = ground arith;
    approved = ground arith;
    protected = ground arith;
    target = ground arith;
  }

  accepted :
      (c : ExecutionCommand N) (t : DemoTradeRecord N)
      → IsAccepted c t
      → validate_trade d c t ≡ ok tt
  unfolding validate_trade
  accepted c t r =
      let identity = r.identity in
      let orders = r.orders in
      let filled = r.filled in
      let positive = r.positive in
      let approved = r.approved in
      let protected = r.protected in let target = r.target in ground arith

  -- A trade that the exchange filled for this command, and that a stop and a target protect: the
  -- target pays the command's multiple of the risk, measured from the fill, on the winning side of it.
  pub record IsFillOf (c : ExecutionCommand N) (t : DemoTradeRecord N) : Type 0 where
    pub signal : t.signal_id ≡ c.signal_id
    pub symbol : t.symbol ≡ c.symbol
    pub direction : t.direction ≡ c.direction
    pub entry_order : t.client_order_id ≡ c.entry_client_order_id
    pub stop_order : t.stop_client_order_id ≡ c.stop_client_order_id
    pub target_order : t.take_profit_client_order_id ≡ c.take_profit_client_order_id
    pub filled : t.order_status ≡ "FILLED"
    pub positive : (d.ltb t.executed_quantity d.zero || d.eqb t.executed_quantity d.zero) ≡ false
    pub approved : d.ltb c.approved_quantity t.executed_quantity ≡ false
    pub stop_named : t.stop_order_id ≢ ""
    pub target_named : t.take_profit_order_id ≢ ""
    pub target :
        d.eqb t.take_profit_price
          (target_of d t.direction t.entry_price t.stop_loss_price c.take_profit_r_multiple)
        ≡ true

  expected_target_of :
      (direction : ScannerDirection) (t : DemoTradeRecord N) (multiple : N)
      → expected_target d direction t multiple
        ≡ target_of d direction t.entry_price t.stop_loss_price multiple
  expected_target_of long t multiple = refl
  expected_target_of short t multiple = refl

  IsFillOf-accepted :
      (c : ExecutionCommand N) (t : DemoTradeRecord N) → IsAccepted c t → IsFillOf c t
  IsFillOf-accepted c t h =
      let (signal, symbol, direction) = all_three _ _ _ h.identity in
      let (entry, stop, target) = all_three _ _ _ h.orders in
      let (stop_named, target_named) = or-false _ _ h.protected in
      let same = same_direction_eq t.direction c.direction direction in
      record {
        signal = (==_iff t.signal_id c.signal_id).0 signal;
        symbol = (==_iff t.symbol c.symbol).0 symbol;
        direction = same;
        entry_order = (==_iff t.client_order_id c.entry_client_order_id).0 entry;
        stop_order = (==_iff t.stop_client_order_id c.stop_client_order_id).0 stop;
        target_order =
            (==_iff t.take_profit_client_order_id c.take_profit_client_order_id).0 target;
        filled = (==_iff t.order_status "FILLED").0 h.filled;
        positive = h.positive;
        approved = h.approved;
        stop_named = differs t.stop_order_id stop_named;
        target_named = differs t.take_profit_order_id target_named;
        target =
            subst
              (λ (x : ScannerDirection).
                d.eqb t.take_profit_price
                  (target_of d x t.entry_price t.stop_loss_price c.take_profit_r_multiple)
                ≡ true)
              (sym same)
              (subst (λ (x : N). d.eqb t.take_profit_price x ≡ true)
                (expected_target_of c.direction t c.take_profit_r_multiple) h.target);
      }

  IsAccepted-fill : (c : ExecutionCommand N) (t : DemoTradeRecord N) → IsFillOf c t → IsAccepted c t
  IsAccepted-fill c t h = record {
    identity =
        from_three _ _ _ ((==_iff t.signal_id c.signal_id).1 h.signal)
          ((==_iff t.symbol c.symbol).1 h.symbol)
          (same_direction_of t.direction c.direction h.direction);
    orders =
        from_three _ _ _ ((==_iff t.client_order_id c.entry_client_order_id).1 h.entry_order)
          ((==_iff t.stop_client_order_id c.stop_client_order_id).1 h.stop_order)
          ((==_iff t.take_profit_client_order_id c.take_profit_client_order_id).1 h.target_order);
    filled = (==_iff t.order_status "FILLED").1 h.filled;
    positive = h.positive;
    approved = h.approved;
    protected =
        neither _ _ (differ t.stop_order_id h.stop_named)
          (differ t.take_profit_order_id h.target_named);
    target =
        subst (λ (x : N). d.eqb t.take_profit_price x ≡ true)
          (sym (expected_target_of c.direction t c.take_profit_r_multiple))
          (subst
            (λ (x : ScannerDirection).
              d.eqb t.take_profit_price
                (target_of d x t.entry_price t.stop_loss_price c.take_profit_r_multiple)
              ≡ true)
            h.direction h.target);
  }

  -- `_validate_trade` accepts a trade exactly when it has the command's signal, symbol, direction
  -- and three client order ids, is FILLED, has a quantity above zero and not above the approved one,
  -- names both protection orders, and has its target on the winning side of the fill, at the command's
  -- multiple of the distance of the stop.
  pub validate_trade_iff :
      (c : ExecutionCommand N) (t : DemoTradeRecord N)
      → (validate_trade d c t ≡ ok tt) ↔ IsFillOf c t
  validate_trade_iff c t =
      ((λ h. IsFillOf-accepted c t (fill_of c t h)), (λ h. accepted c t (IsAccepted-fill c t h)))
