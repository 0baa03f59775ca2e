-- ===== src/Tests.antt =====
-- Concrete runs, and each theorem at a concrete input.
mod Fixtures
mod Queue
mod Market
mod Worker
mod Enqueue
mod Recovery
mod Risk
mod Decisions
mod Signals
mod Rules
