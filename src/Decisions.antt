-- ===== src/Decisions.antt =====
-- app/services/signal_decision.py: the final eligibility of one candidate.
pub mod Reasons
pub mod Decide
pub mod Rejections
pub mod Eligible
