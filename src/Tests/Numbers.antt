-- ===== src/Tests/Numbers.antt =====
-- Numbers for the tests: -1, 0 and 1, with sums that stay in range.
use ckriopassthru.Base.{ℕ, zero, suc, Bool, true, false, not, arith}
use ckriopassthru.Arithmetic.{Arithmetic}
use ckriopassthru.Arithmetic.Order.{IsOrdered}

pub data Sign : Type 0 where
  minus nought plus : Sign

abbrev opposite : Sign → Sign
opposite minus = plus
opposite nought = nought
opposite plus = minus

abbrev below : Sign → Sign → Bool
below minus nought = true
below minus plus = true
below nought plus = true
below _ _ = false

abbrev sum : Sign → Sign → Sign
sum nought s = s
sum s nought = s
sum plus plus = plus
sum minus minus = minus
sum _ _ = nought

abbrev product : Sign → Sign → Sign
product nought s = nought
product plus s = s
product minus s = opposite s

abbrev same : Sign → Sign → Bool
same minus minus = true
same nought nought = true
same plus plus = true
same _ _ = false

abbrev from_number : ℕ → Sign
from_number zero = nought
from_number (suc n) = plus

abbrev pub signs : Arithmetic Sign
signs = record {
  decimal = λ n k. from_number n;
  negate = opposite;
  add = sum;
  subtract = λ a b. sum a (opposite b);
  multiply = product;
  divide = product;
  less = below;
  less_equal = λ a b. not (below b a);
  equal = same;
  fabs = λ a. product a a;
  sin = λ a. a;
  pi = plus;
}

pub signs-IsOrdered : IsOrdered signs
signs-IsOrdered = ground arith
