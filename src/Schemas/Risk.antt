-- ===== src/Schemas/Risk.antt =====
-- app/schemas/risk.py: what the risk engine says of one signal.
use astra_froge.Common.{ℕ, String, Bool, Option, List}
use astra_froge.Schemas.Scanner.{ScannerDirection, ScannerSetup, ScannerGrade}
use astra_froge.Schemas.Signals.{SignalLifecycle}

-- `RiskDecision`
pub data RiskDecision : Type 0 where
  approved blocked watch terminal : RiskDecision

-- `RiskAssessment`
pub record RiskAssessment (N : Type 0) : Type 0 where
  pub signal_id : String
  pub symbol : String
  pub direction : ScannerDirection
  pub setup : ScannerSetup
  pub setup_name : String
  pub signal_lifecycle : SignalLifecycle
  pub grade : Option ScannerGrade
  pub score : Option ℕ
  pub confidence : Option ℕ
  pub decision : RiskDecision
  pub blocked_reason : Option String
  pub approved_for_execution : Bool
  pub entry_trigger_price : N
  pub stop_loss_price : Option N
  pub stop_distance : Option N
  pub risk_percent : N
  pub risk_budget_usdt : Option N
  pub recommended_quantity : Option N
  pub position_notional_usdt : Option N
  pub required_margin_usdt : Option N
  pub wallet_balance_usdt : Option N
  pub available_balance_usdt : Option N
  pub daily_realized_pnl_usdt : Option N
  pub daily_unrealized_pnl_usdt : Option N
  pub daily_net_pnl_usdt : Option N
  pub daily_pnl_percent : Option N
  pub open_position_count : ℕ
  pub current_margin_exposure_usdt : N
  pub max_open_trades_limit : ℕ
  pub updated_at : ℕ
  pub audit_codes : List String
