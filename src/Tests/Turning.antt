-- ===== src/Tests/Turning.antt =====
-- Angles turned into the range of half a turn.
use ckriopassthru.Base.{ℕ, ◌+◌, ◌-◌, ◌≡◌, refl, none, some, arith, ltb, leb, ◌==◌, if◌then◌else◌}
use ckriopassthru.Arithmetic.{Arithmetic}
use ckriopassthru.Yaw.{normalize_yaw}
use ckriopassthru.Yaw.Range.{
  IsNormal, TurnsShort, TurnsBackShort, normalize_yaw-IsNormal, normalize_yaw-hangs,
}

-- The number `n` stands for n - 1000 degrees, and from 5000 on for infinity.
abbrev shifted : Arithmetic ℕ
shifted = record {
  decimal = λ n k. n + 1000;
  negate = λ a. 2000 - a;
  add = λ a b. a + b - 1000;
  subtract = λ a b. if ltb 5000 a then a else a + 1000 - b;
  multiply = λ a b. a;
  divide = λ a b. a;
  less = λ a b. ltb a b;
  less_equal = λ a b. leb a b;
  equal = λ a b. a == b;
  fabs = λ a. a;
  sin = λ a. a;
  pi = 1003;
}

short : TurnsShort shifted
short v h = ground (arith, h)

back_short : TurnsBackShort shifted
back_short v h = ground (arith, h)

-- 540 degrees are 180.
normalize_yaw-IsNormal_example :
    (w : ℕ) × (normalize_yaw shifted 2 1540 ≡ some w) × IsNormal shifted w
normalize_yaw-IsNormal_example =
    normalize_yaw-IsNormal shifted 2 1 0 1540 short back_short (λ h. refl) (omega arith) refl
      (omega arith) refl

normalize_yaw-hangs_example : normalize_yaw shifted 40 6000 ≡ none
normalize_yaw-hangs_example = normalize_yaw-hangs shifted 40 6000 refl refl
