-- ===== src/Worker.antt =====
-- app/services/execution_worker.py: the one worker that owns the submission of new entries.
pub mod Trade
pub mod Actions
pub mod Cycle
pub mod Submission
pub mod Keeps
pub mod Validity
pub mod Outcomes
pub mod Authority
pub mod Locking
pub mod Fills
