-- ===== src/Failover/DriveHelper.antt =====
-- src/main/cpp/failover/utils/drive_helper.cpp: the outputs of the two sides of a drive from a throttle
-- and a wheel. The constants are those of src/main/include/failover/utils/drive_helper.hpp.
use ckriopassthru.Base.{◌≡◌, Bool, false, arith, if◌then◌else◌}
use ckriopassthru.Arithmetic.{Arithmetic, number, min, max}
use ckriopassthru.Deadband.{limit_magnitude}

pub record DriveMotorValues (Value : Type 0) : Type 0 where
  pub left : Value
  pub right : Value

pub record DriveHelper (Value : Type 0) : Type 0 where
  pub old_wheel : Value
  pub quick_stop_accumulator : Value
  pub neg_inertia_accumulator : Value

module _ {Value : Type 0} (arithmetic : Arithmetic Value) where
  open arithmetic use {decimal, negate, add, subtract, multiply, divide, less, fabs, sin, pi}

  abbrev one : Value
  one = number arithmetic 1

  abbrev minus_one : Value
  minus_one = negate (number arithmetic 1)

  unfoldable pub new_drive_helper : DriveHelper Value
  new_drive_helper = record {
    old_wheel = number arithmetic 0;
    quick_stop_accumulator = number arithmetic 0;
    neg_inertia_accumulator = number arithmetic 0;
  }

  -- One application of the sine, for a non linearity.
  unfoldable pub curve : Value → Value → Value
  curve k wheel =
      divide (sin (multiply (multiply (divide pi (number arithmetic 2)) k) wheel))
        (sin (multiply (divide pi (number arithmetic 2)) k))

  unfoldable pub curved_wheel : Bool → Value → Value
  unfolding curve
  curved_wheel is_high_gear wheel =
      let high = curve (decimal 65 2) in
      let low = curve (decimal 5 1) in
      if is_high_gear then high (high wheel) else low (low (low wheel))

  unfoldable pub neg_inertia_scalar : Bool → Value → Value → Value
  neg_inertia_scalar is_high_gear wheel neg_inertia =
      if is_high_gear
      then number arithmetic 4
      else if less (number arithmetic 0) (multiply wheel neg_inertia)
      then decimal 35 1
      else if less (decimal 65 2) (fabs wheel)
      then number arithmetic 5
      else number arithmetic 4

  abbrev sensitivity : Bool → Value
  sensitivity is_high_gear = if is_high_gear then decimal 95 2 else decimal 13 1

  -- An accumulator loses 1 towards 0, and is 0 between -1 and 1.
  unfoldable pub decay : Value → Value
  decay x =
      if less one x
      then subtract x one
      else if less x minus_one
      then add x one
      else number arithmetic 0

  -- The last two blocks: what a side has too much goes to the other, and both are limited.
  unfoldable pub share : Value → Value → Value → DriveMotorValues Value
  share over left right =
      if less one left
      then record { left = one; right = subtract right (multiply over (subtract left one)) }
      else if less one right
      then record { left = subtract left (multiply over (subtract right one)); right = one }
      else if less left minus_one
      then record { left = minus_one; right = add right (multiply over (subtract minus_one left)) }
      else if less right minus_one
      then record { left = add left (multiply over (subtract minus_one right)); right = minus_one }
      else record { left = left; right = right }

  unfoldable pub clamp : Value → Value
  unfolding min max
  clamp x = max arithmetic (min arithmetic x one) minus_one

  unfoldable pub quick_stop : Bool → Value → Value → Value → Value
  unfolding limit_magnitude decay
  quick_stop is_quick_turn throttle wheel q =
      if is_quick_turn
      then (if less (fabs throttle) (decimal 2 1)
          then add (multiply (subtract one (decimal 1 1)) q) (
              multiply (multiply (decimal 1 1) (limit_magnitude arithmetic wheel one))
                (number arithmetic 5))
          else q)
      else decay q

  -- `calculateOutput`.
  unfoldable pub calculate_output :
      Value → Value → Bool → Bool → DriveHelper Value → DriveMotorValues Value × DriveHelper Value
  unfolding curved_wheel neg_inertia_scalar decay quick_stop share clamp
  calculate_output throttle wheel is_quick_turn is_high_gear h =
      let neg_inertia = subtract wheel h.old_wheel in
      let curved = curved_wheel is_high_gear wheel in
      let power = multiply neg_inertia (neg_inertia_scalar is_high_gear curved neg_inertia) in
      let accumulated = add h.neg_inertia_accumulator power in
      let turned = add curved accumulated in
      let over = if is_quick_turn then one else number arithmetic 0 in
      let angular_power =
        if is_quick_turn
        then turned
        else subtract (multiply (multiply (fabs throttle) turned) (sensitivity is_high_gear))
            h.quick_stop_accumulator in
      let shared = share over (add throttle angular_power) (subtract throttle angular_power) in
      (
        record { left = clamp shared.left; right = clamp shared.right },
        record {
          old_wheel = wheel;
          quick_stop_accumulator =
              quick_stop is_quick_turn throttle turned h.quick_stop_accumulator;
          neg_inertia_accumulator = decay accumulated;
        },
      )

  clamp-limits :
      (x : Value)
      → less one one ≡ false
      → less minus_one minus_one ≡ false
      → less one minus_one ≡ false
      → (less one (clamp x) ≡ false) × (less (clamp x) minus_one ≡ false)
  unfolding clamp min max
  clamp-limits x a b c = ground (arith, a, b, c)

  -- Whatever throttle and wheel are, the outputs are neither above 1 nor below -1, if comparison
  -- with these two numbers is that of numbers.
  pub calculate_output-limits :
      (throttle wheel : Value) (is_quick_turn is_high_gear : Bool) (h : DriveHelper Value)
      → less one one ≡ false
      → less minus_one minus_one ≡ false
      → less one minus_one ≡ false
      → let v = (calculate_output throttle wheel is_quick_turn is_high_gear h).0 in
        (less one v.left ≡ false)
        × (less v.left minus_one ≡ false)
        × (less one v.right ≡ false)
        × (less v.right minus_one ≡ false)
  unfolding calculate_output
  calculate_output-limits throttle wheel q g h a b c =
      let v = (calculate_output throttle wheel q g h).0 in
      let side : (x : Value) → (less one (clamp x) ≡ false) × (less (clamp x) minus_one ≡ false) =
        λ x. clamp-limits x a b c in
      ((side _).0, (side _).1, (side _).0, (side _).1)
