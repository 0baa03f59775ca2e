-- ===== src/Risk.antt =====
-- app/services/risk.py: signals against the account and the limits of the policy.
pub mod Snapshot
pub mod Policy
pub mod Assessments
pub mod Limits
pub mod Total
