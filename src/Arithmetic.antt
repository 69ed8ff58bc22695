-- ===== src/Arithmetic.antt =====
-- C++'s `double`, as the failover control computes with it: constants, the operators, the comparisons
-- and the mathematical functions. All of it is a parameter of the model.
pub mod Order
use ckriopassthru.Base.{ℕ, Bool, true, false, if◌then◌else◌}

pub record Arithmetic (Value : Type 0) : Type 0 where
  -- `decimal n k` is the constant n / 10 ^ k.
  pub decimal : ℕ → ℕ → Value
  pub negate : Value → Value
  pub add : Value → Value → Value
  pub subtract : Value → Value → Value
  pub multiply : Value → Value → Value
  pub divide : Value → Value → Value
  pub less : Value → Value → Bool
  pub less_equal : Value → Value → Bool
  pub equal : Value → Value → Bool
  pub fabs : Value → Value
  pub sin : Value → Value
  pub pi : Value

module _ {Value : Type 0} (arithmetic : Arithmetic Value) where
  open arithmetic use {decimal, negate, less}

  abbrev pub number : ℕ → Value
  number n = decimal n 0

  -- `std::min` and `std::max`: the first argument where neither is less.
  unfoldable pub min : Value → Value → Value
  min a b = if less b a then b else a

  unfoldable pub max : Value → Value → Value
  max a b = if less a b then b else a
