-- ===== src/Tests/Risk.antt =====
-- The theorems on the risk engine, at two signals of which one is approved.
use astra_froge.Common.{ℕ, ◌+◌, ◌≤◌, max, ◌≡◌, refl, true, false, none, some, [], ◌∷◌, length, ok}
use astra_froge.Schemas.Risk.{RiskAssessment, RiskDecision}
use astra_froge.Risk.Snapshot.{RiskSnapshot}
use astra_froge.Risk.Policy.{RiskSettings, global_lock}
use astra_froge.Risk.Assessments.{build_assessments, nothing_reserved}
use astra_froge.Risk.Limits.{AllWithin, build_assessments-AllWithin, approvals, approvals_bound}
use astra_froge.Risk.Total.{IsChecked, IsAnswer, build_assessments-IsAnswer}
use astra_froge.Tests.Market.{naturals, signal, assessment}

abbrev settings : RiskSettings ℕ
settings = record {
  risk_per_trade_percent = 1;
  risk_daily_loss_limit_percent = 0;
  risk_daily_profit_lock_percent = 0;
  risk_max_open_trades = 4;
  risk_max_margin_exposure_usdt = 1000;
}

abbrev snapshot : RiskSnapshot ℕ
snapshot = record {
  captured_at = 4;
  can_trade = true;
  wallet_balance_usdt = 3000;
  available_balance_usdt = 3000;
  daily_realized_pnl_usdt = 0;
  daily_unrealized_pnl_usdt = 0;
  daily_net_pnl_usdt = 0;
  daily_pnl_percent = 0;
  current_margin_exposure_usdt = 0;
  open_positions = [];
  leverage_by_symbol = ("BTCUSDT", 3) ∷ [];
}

abbrev approval : RiskAssessment ℕ
approval = record assessment { audit_codes = "RISK_APPROVED" ∷ [] }

-- The second signal finds the symbol taken by the first.
abbrev refusal : RiskAssessment ℕ
refusal = record assessment {
  decision = RiskDecision.blocked;
  blocked_reason = some "SAME_SYMBOL_POSITION_EXISTS";
  approved_for_execution = false;
  recommended_quantity = none;
  position_notional_usdt = none;
  required_margin_usdt = none;
  risk_budget_usdt = none;
  stop_distance = none;
  audit_codes = "SAME_SYMBOL_POSITION_EXISTS" ∷ [];
}

assessed :
    build_assessments naturals settings 4 (some snapshot) none (signal ∷ signal ∷ [])
    ≡ ok (approval ∷ refusal ∷ [])
unfolding build_assessments
assessed = refl

build_assessments-AllWithin_example :
    AllWithin naturals settings snapshot
      (nothing_reserved naturals settings 4)
      (approval ∷ refusal ∷ [])
build_assessments-AllWithin_example =
    build_assessments-AllWithin naturals settings snapshot 4 (signal ∷ signal ∷ [])
      (approval ∷ refusal ∷ []) assessed

approvals_bound_example :
    length snapshot.open_positions + approvals naturals settings snapshot (approval ∷ refusal ∷ [])
    ≤ max (length snapshot.open_positions) settings.risk_max_open_trades
approvals_bound_example =
    approvals_bound naturals settings snapshot 4 (signal ∷ signal ∷ []) (approval ∷ refusal ∷ [])
      assessed

-- No account: the first signal and the second are refused.
checked : IsChecked naturals settings 4 none (signal ∷ signal ∷ [])
checked = record {
  percent = (refl, refl);
  trades = refl;
  zero = refl;
  account = λ s h. cc;
  scores = ((refl, refl), ((refl, refl), tt));
}

build_assessments-IsAnswer_example :
    IsAnswer naturals settings 4
      (global_lock naturals settings none (some "DEMO_PRIVATE_API_UNAVAILABLE"))
      (signal ∷ signal ∷ [])
      (build_assessments naturals settings 4 none
        (some "DEMO_PRIVATE_API_UNAVAILABLE")
        (signal ∷ signal ∷ []))
build_assessments-IsAnswer_example =
    build_assessments-IsAnswer naturals settings 4 none (some "DEMO_PRIVATE_API_UNAVAILABLE")
      (signal ∷ signal ∷ []) checked
