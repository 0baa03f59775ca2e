-- ===== src/Schemas/Execution.antt =====
-- app/schemas/execution.py: a trade on the exchange, with the fields that the
-- modelled services read, and the plan of one.
use astra_froge.Common.{ℕ, String, Bool, true, false, Option, List}
use astra_froge.Schemas.Scanner.{ScannerDirection, ScannerSetup, ScannerGrade}
use astra_froge.Schemas.Signals.{SignalLifecycle}
use astra_froge.Schemas.Risk.{RiskDecision}

-- `DemoTradeLifecycle`
pub data DemoTradeLifecycle : Type 0 where
  trade_open closed : DemoTradeLifecycle

-- `DemoTradeRecord`
pub record DemoTradeRecord (N : Type 0) : Type 0 where
  pub trade_id : String
  pub signal_id : String
  pub symbol : String
  pub direction : ScannerDirection
  pub lifecycle : DemoTradeLifecycle
  pub entry_price : N
  pub stop_loss_price : N
  pub take_profit_price : N
  pub exchange_order_id : String
  pub client_order_id : String
  pub stop_order_id : String
  pub stop_client_order_id : String
  pub take_profit_order_id : String
  pub take_profit_client_order_id : String
  pub executed_quantity : N
  pub order_status : String

-- `trade.lifecycle is DemoTradeLifecycle.OPEN`
abbrev pub is_open : {N : Type 0} → DemoTradeRecord N → Bool
is_open trade = elim trade.lifecycle [ trade_open ↦ true | closed ↦ false ]

-- `DemoExecutionState`
pub data DemoExecutionState : Type 0 where
  ready waiting_for_risk execution_locked : DemoExecutionState

-- `DemoPlanState`
pub data DemoPlanState : Type 0 where
  executable watch blocked terminal : DemoPlanState

-- `DemoExecutionPlan`
pub record DemoExecutionPlan (N : Type 0) : Type 0 where
  pub signal_id : String
  pub symbol : String
  pub direction : ScannerDirection
  pub setup : ScannerSetup
  pub setup_name : String
  pub signal_lifecycle : SignalLifecycle
  pub risk_decision : RiskDecision
  pub plan_state : DemoPlanState
  pub grade : Option ScannerGrade
  pub score : Option ℕ
  pub confidence : Option ℕ
  pub entry_trigger_price : N
  pub stop_loss_price : Option N
  pub recommended_quantity : Option N
  pub take_profit_r_multiple : N
  pub blocked_reason : Option String
  pub executable_now : Bool
  pub updated_at : ℕ
  pub audit_codes : List String
