-- ===== src/Schemas.antt =====
-- The typed contracts of app/schemas that the modelled services exchange.
mod Scanner
mod Command
pub mod Decimals
pub mod Signals
pub mod Risk
pub mod Execution
pub use Scanner.*
pub use Command.*
