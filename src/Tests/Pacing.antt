-- ===== src/Tests/Pacing.antt =====
-- Two rounds of a thread whose loop is to take 100 ms.
use ckriopassthru.Base.{ℕ, ◌+◌, ◌-◌, ◌*◌, ◌/◌, ◌^◌, List, [], ◌∷◌, ltb, leb, ◌==◌}
use ckriopassthru.Arithmetic.{Arithmetic}
use ckriopassthru.Timers.Pace.{Moments, ThreadRateControl, thread_rate_control, start_rate}

-- Numbers in thousandths.
abbrev thousandths : Arithmetic ℕ
thousandths = record {
  decimal = λ n k. n * 1000 / 10 ^ k;
  negate = λ v. v;
  add = λ v w. v + w;
  subtract = λ v w. v - w;
  multiply = λ v w. v * w / 1000;
  divide = λ v w. v * 1000 / w;
  less = ltb;
  less_equal = leb;
  equal = λ v w. v == w;
  fabs = λ v. v;
  sin = λ v. v;
  pi = 3141;
}

-- The first round takes 30 ms and waits, and the second one takes too long.
abbrev rounds : List Moments
rounds =
    record { at_test = 31000; at_alarm = 31005; at_end = 100900 }
    ∷ record { at_test = 250000; at_alarm = 250001; at_end = 250002 }
    ∷ []

abbrev control : ThreadRateControl
control = start_rate 1000 thread_rate_control
