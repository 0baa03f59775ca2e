-- ===== src/Market.antt =====
-- app/services/exchange_rules.py: the exchange's filters for one symbol.
pub mod Rules
pub mod Filters
pub mod Usable
pub mod Rounded
