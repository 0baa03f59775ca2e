-- ===== src/Commands/Facts.antt =====
-- What the command service reads of the services beside it (app/services/account_snapshot.py, and the
-- contracts of Schemas).
use astra_froge.Common.{ℕ, String, Bool, Option, List}
use astra_froge.Schemas.Signals.{SignalRecord}
use astra_froge.Schemas.Risk.{RiskAssessment}

-- `AccountPositionSnapshot`
pub record AccountPosition (N : Type 0) : Type 0 where
  pub symbol : String
  pub position_amount : N
  pub leverage : ℕ

-- `AccountSnapshot`, the fields that the command service reads
pub record AccountSnapshot (N : Type 0) : Type 0 where
  pub snapshot_id : String
  pub captured_at : ℕ
  pub source_healthy : Bool
  pub can_trade : Bool
  pub positions : List (AccountPosition N)

-- What one call of the service reads of the services beside it: whether there is a snapshot service,
-- the snapshot that `force_refresh` returns (or `none`, where it raises), its status, the signals by
-- their id, the assessments, and the clock at the two places where the call asks for it.
pub record Facts (N : Type 0) : Type 0 where
  pub has_snapshots : Bool
  pub refreshed : Option (AccountSnapshot N)
  pub status_fresh : Bool
  pub status_snapshot_id : Option String
  pub get_signal : String → Option (SignalRecord N)
  pub assessments : List (RiskAssessment N)
  pub checked_at : ℕ
  pub now : ℕ
