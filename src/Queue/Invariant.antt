-- ===== src/Queue/Invariant.antt =====
-- The well-formedness of the queue's tables: what every row promises of its payload and its history.
mod History
mod Rows
mod Saves
mod Steps
mod Methods
mod Expiry
mod Oldest
mod Claims
unfoldable pub use History.*
pub use Rows.*
pub use Saves.*
pub use Steps.*
pub use Methods.*
pub use Expiry.*
pub use Oldest.*
unfoldable pub use Claims.*
