-- ===== src/Yaw.antt =====
-- src/main/include/utils/CKMath.hpp, `normalizeYaw`, and src/main/include/utils/Units.hpp, `deg2rad`. The loops
-- run on fuel: `none` is a loop that has not ended.
pub mod Range
use ckriopassthru.Base.{ℕ, zero, suc, Option, none, some, if◌then◌else◌}
use ckriopassthru.Arithmetic.{Arithmetic, number}

module _ {Value : Type 0} (arithmetic : Arithmetic Value) where
  open arithmetic use {negate, add, subtract, multiply, divide, less, pi}

  abbrev pub half_turn : Value
  half_turn = number arithmetic 180

  abbrev pub turn : Value
  turn = number arithmetic 360

  -- The first loop, and the second.
  unfoldable pub turn_back : ℕ → Value → Option Value
  turn_back zero v = none
  turn_back (suc fuel) v =
      let again = turn_back fuel (subtract v turn) in if less half_turn v then again else some v

  unfoldable pub turn_on : ℕ → Value → Option Value
  turn_on zero v = none
  turn_on (suc fuel) v =
      let again = turn_on fuel (add v turn) in if less v (negate half_turn) then again else some v

  unfoldable pub normalize_yaw : ℕ → Value → Option Value
  unfolding turn_back turn_on
  normalize_yaw fuel v = elim (turn_back fuel v) [ none ↦ none | some w ↦ turn_on fuel w ]

  unfoldable pub deg2rad : Value → Value
  deg2rad deg = divide (multiply deg pi) half_turn
