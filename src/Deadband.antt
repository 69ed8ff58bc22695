-- ===== src/Deadband.antt =====
-- src/main/include/utils/CKMath.hpp: limits, and the normalisation of a joystick's axis with a deadband.
use ckriopassthru.Base.{not, if◌then◌else◌}
use ckriopassthru.Arithmetic.{Arithmetic, number}

module _ {Value : Type 0} (arithmetic : Arithmetic Value) where
  open arithmetic use {negate, subtract, multiply, divide, less, equal, fabs}

  -- `ck::math::max` and `ck::math::min`: the second argument where neither is less.
  unfoldable pub ck_max : Value → Value → Value
  ck_max a b = if less b a then a else b

  unfoldable pub ck_min : Value → Value → Value
  ck_min a b = if less a b then a else b

  unfoldable pub limit : Value → Value → Value → Value
  unfolding ck_max ck_min
  limit v min_val max_val = ck_min max_val (ck_max min_val v)

  unfoldable pub limit_magnitude : Value → Value → Value
  unfolding limit
  limit_magnitude v max_magnitude = limit v (negate max_magnitude) max_magnitude

  -- The difference of two tests, as a double.
  unfoldable pub signum : Value → Value
  signum val =
      if less (number arithmetic 0) val
      then (if less val (number arithmetic 0) then number arithmetic 0 else number arithmetic 1)
      else if less val (number arithmetic 0)
      then negate (number arithmetic 1)
      else number arithmetic 0

  unfoldable pub handle_deadband : Value → Value → Value
  handle_deadband val deadband =
      if less (fabs deadband) (fabs val) then val else number arithmetic 0

  unfoldable pub normalize_with_deadband : Value → Value → Value
  unfolding handle_deadband signum
  normalize_with_deadband val deadband =
      let v = handle_deadband val deadband in
      if not (equal v (number arithmetic 0))
      then multiply (signum v)
          (divide (subtract (fabs v) deadband) (subtract (number arithmetic 1) deadband))
      else v
