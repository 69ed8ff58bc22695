-- ===== src/Failover/Drivetrain/Limits.antt =====
-- The bounds of what src/main/cpp/failover/subsystems/DrivetrainFailover.cpp tells its motors.
use ckriopassthru.Base.{◌≡◌, true, false, arith, inl, inr, Bool-cases}
use ckriopassthru.Arithmetic.{Arithmetic, number}
use ckriopassthru.Arithmetic.Order.{◌≼◌, IsNumber, IsOrdered, not_less-le}
use ckriopassthru.Deadband.{normalize_with_deadband}
use ckriopassthru.Failover.Swerve.{Inputs}
use ckriopassthru.Failover.Ramp.{
  ValueRamper, ramp_step, calculate_output, IsBetween, IsStep, ramp-IsBetween,
}
use ckriopassthru.Failover.DriveHelper.{calculate_output-limits}
use ckriopassthru.Failover.Drivetrain.{Drivetrain, wanted_outputs, drive_outputs}

module _ {Value : Type 0} (arithmetic : Arithmetic Value) where
  open arithmetic use {decimal, negate, less, equal}

  -- From -1 to 1.
  abbrev pub IsLimited : Value → Type 0
  IsLimited x =
      ◌≼◌ arithmetic (negate (number arithmetic 1)) x × ◌≼◌ arithmetic x (number arithmetic 1)

  -- The ramper's steps at a time are proper ones.
  abbrev pub Steps : Value → ValueRamper Value → Type 0
  Steps now r =
      IsStep arithmetic r.prev_value (ramp_step arithmetic r now r.accel_ramp_rate)
      × IsStep arithmetic r.prev_value (ramp_step arithmetic r now r.decel_ramp_rate)

  IsBetween-IsLimited :
      IsOrdered arithmetic
      → (p v c : Value) → IsBetween arithmetic p v c
      → IsLimited p
      → IsLimited c
      → IsLimited v
  IsBetween-IsLimited o p v c (inl b) hp hc = (o.le_trans _ p v hp.0 b.0, o.le_trans v c _ b.1 hc.1)
  IsBetween-IsLimited o p v c (inr b) hp hc = (o.le_trans _ c v hc.0 b.0, o.le_trans v p _ b.1 hp.1)

  calculate_output-IsLimited :
      IsOrdered arithmetic
      → (now wanted : Value) (r : ValueRamper Value) → IsLimited r.prev_value
      → IsLimited wanted
      → Steps now r
      → let (v, r') = calculate_output arithmetic now wanted r in
        IsLimited v × IsLimited r'.prev_value
  unfolding calculate_output
  calculate_output-IsLimited o now wanted r hp hw hs =
      let between =
        ramp-IsBetween arithmetic o (ramp_step arithmetic r now r.accel_ramp_rate)
          (ramp_step arithmetic r now r.decel_ramp_rate) r.prev_value wanted
          (o.numbers_of_le _ r.prev_value hp.0).1 (o.numbers_of_le _ wanted hw.0).1 hs.0 hs.1 in
      let v = IsBetween-IsLimited o r.prev_value _ wanted between hp hw in
      elim (Bool-cases (equal r.prev_time (number arithmetic 0))) [
        | inl e ↦ rw e ((o.minus_one-le-zero, o.zero-le-one), hp)
        | inr e ↦ rw e (v, v)
      ]

  -- The helper's clamp, where its result is a number.
  wanted-IsLimited :
      IsOrdered arithmetic
      → (x : Value) → IsNumber arithmetic x
      → less (number arithmetic 1) x ≡ false
      → less x (negate (number arithmetic 1)) ≡ false
      → IsLimited x
  wanted-IsLimited o x n above below = (
    not_less-le arithmetic o x _ n (o.numbers_of_le _ _ o.minus_one-le-zero).0 below,
    not_less-le arithmetic o _ x (o.numbers_of_le _ _ o.zero-le-one).1 n above,
  )

  le-not_less : IsOrdered arithmetic → (x y : Value) → ◌≼◌ arithmetic x y → less y x ≡ false
  le-not_less o x y h =
      let (nx, ny) = o.numbers_of_le x y h in ground (arith, o.less-eq-not-le y x ny nx, h)

  wanted_outputs-IsLimited :
      IsOrdered arithmetic
      → (inputs : Inputs Value) (d : Drivetrain Value)
      → IsNumber arithmetic (wanted_outputs arithmetic inputs d).0.left
      → IsNumber arithmetic (wanted_outputs arithmetic inputs d).0.right
      → IsLimited (wanted_outputs arithmetic inputs d).0.left
        × IsLimited (wanted_outputs arithmetic inputs d).0.right
  unfolding wanted_outputs
  wanted_outputs-IsLimited o inputs d nl nr =
      let (m, z) = o.numbers_of_le _ _ o.minus_one-le-zero in
      let one = (o.numbers_of_le _ _ o.zero-le-one).1 in
      let limits =
        calculate_output-limits arithmetic _
          (normalize_with_deadband arithmetic (inputs.raw_axis 0) (decimal 12 2)) _ true
          d.drive_helper (le-not_less o _ _ one) (le-not_less o _ _ m)
          (le-not_less o _ _ (o.le_trans _ _ _ o.minus_one-le-zero o.zero-le-one)) in
      (wanted-IsLimited o _ nl limits.0 limits.1, wanted-IsLimited o _ nr limits.2 limits.3)

  -- For an ordered arithmetic and steps that are not negative, where what the drive helper asks for
  -- is a number and the rampers are between -1 and 1, both outputs of the drive are between -1 and
  -- 1, and so are the rampers afterwards.
  pub drive_outputs-IsLimited :
      IsOrdered arithmetic
      → (inputs : Inputs Value) (left_time right_time : Value) (d : Drivetrain Value)
      → IsLimited d.left_value_ramper.prev_value
      → IsLimited d.right_value_ramper.prev_value
      → IsNumber arithmetic (wanted_outputs arithmetic inputs d).0.left
      → IsNumber arithmetic (wanted_outputs arithmetic inputs d).0.right
      → Steps left_time d.left_value_ramper
      → Steps right_time d.right_value_ramper
      → let (v, d') = drive_outputs arithmetic inputs left_time right_time d in
        IsLimited v.left
        × IsLimited v.right
        × IsLimited d'.left_value_ramper.prev_value
        × IsLimited d'.right_value_ramper.prev_value
  unfolding drive_outputs
  drive_outputs-IsLimited o inputs left_time right_time d hl hr nl nr sl sr =
      let w = (wanted_outputs arithmetic inputs d).0 in
      let (wl, wr) = wanted_outputs-IsLimited o inputs d nl nr in
      let (left, left_prev) =
        calculate_output-IsLimited o left_time w.left d.left_value_ramper hl wl sl in
      let (right, right_prev) =
        calculate_output-IsLimited o right_time w.right d.right_value_ramper hr wr sr in
      (left, right, left_prev, right_prev)
