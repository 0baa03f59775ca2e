-- ===== src/Commands.antt =====
-- app/services/execution_command.py: from a READY signal and an approved risk assessment to one
-- durable command, and the check of a command immediately before its entry.
pub mod Facts
pub mod Approval
pub mod Command
pub mod Targets
pub mod Enqueue
pub mod Enqueued
pub mod Revalidate
pub mod Status
pub mod Guards
pub mod Consistency
