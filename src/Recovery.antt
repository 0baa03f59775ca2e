-- ===== src/Recovery.antt =====
-- app/services/recovery.py and app/services/execution_leader_safety.py: who may enter new trades.
pub mod Gate
pub mod Lease
pub mod GateLaws
pub mod Payloads
pub mod Reconcile
pub mod Revalidate
pub mod Coordinator
pub mod Reconciled
pub mod Positions
pub mod Recovered
pub mod Guarded
pub mod Entries
pub mod Cycles
