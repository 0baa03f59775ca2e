-- ===== src/Signals.antt =====
-- app/services/signals.py: the records of signals and their history.
pub mod Values
pub mod Records
pub mod Service
pub mod Histories
pub mod Audit
pub mod Blocking
pub mod Finality
