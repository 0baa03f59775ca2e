-- ===== src/Queue.antt =====
-- app/persistence/execution_command_repository.py: the durable queue of execution commands.
pub mod Transitions
pub mod Tables
pub mod Rows
pub mod Repository
pub mod Claims
pub mod Invariant
pub mod Effects
pub mod Lifecycle
pub mod Claiming
pub mod Exclusion
pub mod Idempotency
