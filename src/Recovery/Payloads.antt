-- ===== src/Recovery/Payloads.antt =====
-- What the exchange answers to the startup recovery. A payload is the dictionary of one order or
-- position: a text is what `str(payload.get(key, ""))` gives, and a number is what `Decimal(str(...))`
-- reads, `none` where it raises.
use astra_froge.Common.{String, Option, List, Result}

-- A regular order.
pub record OrderPayload (N : Type 0) : Type 0 where
  pub client_order_id : String
  pub order_id : String
  pub status : Option String
  pub executed_qty : Option N

-- A protective order.
pub record AlgoPayload : Type 0 where
  pub client_order_id : String
  pub order_id : String
  pub symbol : String
  pub status : Option String

pub record PositionPayload (N : Type 0) : Type 0 where
  pub symbol : String
  pub position_amt : Option N

-- `RecoveryPrivateClient`: the queries, each of which answers or raises.
pub record PrivateClient (N : Type 0) : Type 0 where
  pub positions : Result (List (PositionPayload N))
  pub open_orders : Result (List (OrderPayload N))
  pub open_algo_orders : Result (List AlgoPayload)
  -- by the symbol and the client's order id
  pub query_order : String → String → Result (OrderPayload N)
  pub query_algo_order : String → String → Result AlgoPayload
