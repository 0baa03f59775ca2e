-- ===== src/Commands/Guards.antt =====
-- What stands behind a validation that passes: `_validate_signal`, `_current_approval` and
-- `revalidate`.
use astra_froge.Common.{
  All, ℕ, String, true, false, ◌&&◌, ◌||◌, Option, some, ltb, leb, find?, ◌==◌, ok, ◌≡◌, eqb,
}
use astra_froge.Schemas.{ExecutionCommand}
use astra_froge.Schemas.Decimals.{Decimals}
use astra_froge.Schemas.Signals.{SignalRecord}
use astra_froge.Schemas.Risk.{RiskAssessment}
use astra_froge.Commands.Facts.{AccountPosition, AccountSnapshot, Facts}
use astra_froge.Commands.Approval
use astra_froge.Commands.Command.{leverage_of}
use astra_froge.Commands.Targets.{target_of}

-- A signal that may be executed.
pub record IsExecutable {N : Type 0} (now : ℕ) (signal : SignalRecord N) : Type 0 where
  pub decision : Approval.decision_is_ready signal.decision_status ≡ true
  pub active : Approval.is_active signal.lifecycle ≡ true
  pub grade : Approval.is_executable_grade signal.grade ≡ true
  pub entry :
      (Approval.trigger_is_ready signal.entry_trigger_status
        && signal.entry_ready
        && signal.is_ready
        && signal.selected)
      ≡ true
  pub clear :
      (Approval.is_listed signal.rejection_reasons || Approval.is_listed signal.watch_reasons)
      ≡ false
  pub fresh : signal.decision_fresh ≡ true
  pub keyed : Approval.is_missing signal.decision_key ≡ false
  pub sourced : Approval.is_missing signal.source_snapshot_version ≡ false
  pub unexpired : leb (Approval.expiry signal) now ≡ false

module _ {N : Type 0} where
  -- The facts on which an approval stands.
  pub record IsApproval (facts : Facts N) (signal_id : String) (signal : SignalRecord N)
      (assessment : RiskAssessment N) (snapshot : AccountSnapshot N) : Type 0 where
    pub refreshed : facts.refreshed ≡ some snapshot
    pub current :
        (facts.status_fresh && Approval.names facts.status_snapshot_id snapshot.snapshot_id) ≡ true
    pub healthy : (snapshot.source_healthy && snapshot.can_trade) ≡ true
    pub found : facts.get_signal signal_id ≡ some signal
    pub executable : IsExecutable facts.checked_at signal
    pub assessed :
        find? (λ (item : RiskAssessment N). item.signal_id == signal_id) facts.assessments
        ≡ some assessment
    pub recent : ltb assessment.updated_at snapshot.captured_at ≡ false
    pub risk :
        (Approval.is_approved assessment.decision
          && assessment.approved_for_execution
          && Approval.is_none assessment.blocked_reason)
        ≡ true

module _ {N : Type 0} (d : Decimals N) (multiple : N) where
  -- A number that the assessment gives, and that the command repeats.
  abbrev pub IsGivenAs : Option N → N → Type 0
  IsGivenAs given value = (g : N) × (given ≡ some g) × (d.eqb g value ≡ true)

  -- A command that its approval still covers, with its target.
  pub record IsCovered (facts : Facts N) (c : ExecutionCommand N) (signal : SignalRecord N)
      (assessment : RiskAssessment N) (snapshot : AccountSnapshot N) : Type 0 where
    pub approval : IsApproval facts c.signal_id signal assessment snapshot
    pub unexpired : leb c.expires_at facts.now ≡ false
    pub decision_key : signal.decision_key ≡ some c.decision_key
    pub source : signal.source_snapshot_version ≡ some c.source_snapshot_version
    pub direction : (signal.direction ≡ c.direction) × (assessment.direction ≡ c.direction)
    pub trigger : d.eqb assessment.entry_trigger_price c.entry_trigger_price ≡ true
    pub stop : IsGivenAs assessment.stop_loss_price c.stop_loss_price
    pub quantity : IsGivenAs assessment.recommended_quantity c.approved_quantity
    pub notional : IsGivenAs assessment.position_notional_usdt c.approved_notional
    pub margin : IsGivenAs assessment.required_margin_usdt c.approved_margin
    pub leverage : leverage_of snapshot.positions c.symbol ≡ ok c.leverage
    pub policy : (d.ltb multiple d.zero || d.eqb multiple d.zero) ≡ false
    pub target :
        d.eqb
          (target_of d c.direction c.entry_trigger_price c.stop_loss_price multiple)
          c.take_profit_price
        ≡ true
    pub no_position :
        All
          (λ (p : AccountPosition N). p.symbol ≡ c.symbol → d.eqb p.position_amount d.zero ≡ true)
          snapshot.positions
