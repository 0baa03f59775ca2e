-- ===== src/Schemas/Decimals.antt =====
-- Python's `decimal.Decimal`, which is not part of the repository: its operations are a parameter.
use astra_froge.Common.{ℕ, Bool, Option}

pub record Decimals (N : Type 0) : Type 0 where
  pub zero : N
  -- `a == b` and `a < b`
  pub eqb : N → N → Bool
  pub ltb : N → N → Bool
  pub add : N → N → N
  pub sub : N → N → N
  pub mul : N → N → N
  pub div : N → N → N
  pub abs : N → N
  -- `Decimal(n)` of an integer
  pub of_int : ℕ → N
  pub is_finite : N → Bool
  -- `int(value)`, where `value == value.to_integral_value()` and it is not negative
  pub to_int : N → Option ℕ
