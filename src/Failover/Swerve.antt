-- ===== src/Failover/Swerve.antt =====
-- src/main/cpp/failover/subsystems/SwerveDrivetrainFailover.cpp: the motors of the swerve drive, and the
-- joystick that exists while failover control is active. The kinematics and the units are WPILib's, so
-- they are parameters, and so is what the joystick and the motors' sensors read.
mod Construction
pub use Construction.{Four, SwervePointers, steering_ids}
unfoldable pub use Construction.{set_drive_config, set_steering_config, swerve_drivetrain_failover}
use ckriopassthru.Base.{ℕ, Bool, true, false, Option, none, some, ◌&&◌, if◌then◌else◌}
use ckriopassthru.Arithmetic.{Arithmetic, number}
use ckriopassthru.Deadband.{normalize_with_deadband}
use ckriopassthru.Talon.{talon_fx}
use ckriopassthru.Phoenix.{rio_canivore}
use ckriopassthru.MotorSettings.{fast_master}
use ckriopassthru.Failover.Messages.{
  Generated, Messages, Build, ◌>>=◌, ◌>>◌, return, edit, add_motor_control, add_motor_config,
  change_motor_control, change_motor_config,
}

-- The speed of a wheel in meters per second, and its direction.
pub record ModuleState (Value Rotation : Type 0) : Type 0 where
  pub speed : Value
  pub angle : Rotation

pub record Kinematics (Value : Type 0) : Type 1 where
  pub Rotation : Type 0
  pub degrees : Rotation → Value
  pub inches_to_meters : Value → Value
  -- `ToSwerveModuleStates` of the drive whose wheels are at the places, which are in inches.
  pub to_swerve_module_states :
      Four (Value × Value) → Value → Value → Value → Four (ModuleState Value Rotation)
  -- `SwerveModuleState::Optimize` with the wheel's direction in degrees.
  pub optimize : ModuleState Value Rotation → Value → ModuleState Value Rotation

-- What the joystick reads, and the sensor positions of the motors that are registered.
pub record Inputs (Value : Type 0) : Type 0 where
  pub is_connected : Bool
  pub raw_axis : ℕ → Value
  pub raw_button : ℕ → Bool
  pub sensor_position : ℕ → Option Value

-- The members that change: whether `mJoystick` points to a joystick, and `mSteeringAngles`.
pub record SwerveDrivetrain (Value : Type 0) : Type 0 where
  pub joystick : Bool
  pub steering_angles : Four Value

module _ {Value : Type 0} where
  -- `set_output_value` through a pointer, and through four.
  unfoldable pub set_output : ℕ → Value → Messages Value → Messages Value
  set_output motor v = change_motor_control motor λ c. record c { output_value = v }

  unfoldable pub set_outputs : Four ℕ → Four Value → Messages Value → Messages Value
  unfolding set_output
  set_outputs p v s = set_output p.back_right v.back_right (
      set_output p.back_left v.back_left
        (set_output p.front_right v.front_right (set_output p.front_left v.front_left s)))

module _ {Value : Type 0} (arithmetic : Arithmetic Value) (kinematics : Kinematics Value)
    (pointers : SwervePointers) where
  open arithmetic use {decimal, negate, multiply, divide, pi}
  open kinematics use {Rotation, degrees, inches_to_meters, to_swerve_module_states, optimize}

  abbrev pub all_zero : Four Value
  all_zero = record {
    front_left = number arithmetic 0;
    front_right = number arithmetic 0;
    back_left = number arithmetic 0;
    back_right = number arithmetic 0;
  }

  -- The object before `init`.
  abbrev pub idle : SwerveDrivetrain Value
  idle = record { joystick = false; steering_angles = all_zero }

  abbrev to_degrees : Value → Value
  to_degrees p = multiply (divide p (number arithmetic 4096)) (number arithmetic 360)

  -- A local angle of `init`: 0 unless `onMotor` finds the motor.
  unfoldable pub current_angle : Inputs Value → ℕ → Value
  current_angle inputs id = elim (inputs.sensor_position id) [
    | none ↦ number arithmetic 0
    | some p ↦ p
  ]

  unfoldable pub init :
      Inputs Value
      → SwerveDrivetrain Value × Messages Value
      → SwerveDrivetrain Value × Messages Value
  unfolding current_angle set_outputs
  init inputs (d, s) =
      let angles : Four Value = record {
        front_left = current_angle inputs steering_ids.front_left;
        front_right = current_angle inputs steering_ids.front_right;
        back_left = current_angle inputs steering_ids.back_left;
        back_right = current_angle inputs steering_ids.back_right;
      } in
      (
        record {
          joystick = true;
          steering_angles = record {
            front_left = to_degrees angles.front_left;
            front_right = to_degrees angles.front_right;
            back_left = to_degrees angles.back_left;
            back_right = to_degrees angles.back_right;
          };
        },
        set_outputs pointers.steering angles s,
      )

  unfoldable pub uninit :
      SwerveDrivetrain Value × Messages Value → SwerveDrivetrain Value × Messages Value
  unfolding set_outputs
  uninit (d, s) = (record d { joystick = false }, set_outputs pointers.drive all_zero s)

  -- The body of the loop, for one angle.
  unfoldable pub measured : Inputs Value → ℕ → Value → Value
  measured inputs id angle = elim (inputs.sensor_position id) [
    | none ↦ angle
    | some p ↦ to_degrees p
  ]

  unfoldable pub periodic : Inputs Value → SwerveDrivetrain Value → SwerveDrivetrain Value
  unfolding measured
  periodic inputs d = record d {
    steering_angles = record {
      front_left = measured inputs steering_ids.front_left d.steering_angles.front_left;
      front_right = measured inputs steering_ids.front_right d.steering_angles.front_right;
      back_left = measured inputs steering_ids.back_left d.steering_angles.back_left;
      back_right = measured inputs steering_ids.back_right d.steering_angles.back_right;
    };
  }

  -- The wheel's diameter is 3.9 inches and the gear ratio 6.75.
  unfoldable pub meters_per_second_to_native_units_drive_velocity : Value → Value
  meters_per_second_to_native_units_drive_velocity mps =
      let circumference = multiply (inches_to_meters (decimal 39 1)) pi in
      let rpm = multiply (divide mps circumference) (number arithmetic 60) in
      divide (multiply (multiply rpm (decimal 675 2)) (number arithmetic 2048))
        (number arithmetic 600)

  unfoldable pub degrees_to_native_units_steering_angle : Rotation → Value
  degrees_to_native_units_steering_angle rotation =
      multiply (multiply (divide (degrees rotation) (number arithmetic 360)) (number arithmetic 1))
        (number arithmetic 4096)

  abbrev locations : Four (Value × Value)
  locations = record {
    front_left = (decimal 9375 3, negate (decimal 9375 3));
    front_right = (decimal 9375 3, decimal 9375 3);
    back_left = (negate (decimal 9375 3), negate (decimal 9375 3));
    back_right = (negate (decimal 9375 3), decimal 9375 3);
  }

  -- The states of the wheels that the axes ask for, after `Optimize`.
  unfoldable pub wanted_states : Inputs Value → Four Value → Four (ModuleState Value Rotation)
  unfolding normalize_with_deadband
  wanted_states inputs angles =
      let axis : ℕ → Value =
        λ i. negate (normalize_with_deadband arithmetic (inputs.raw_axis i) (decimal 1 1)) in
      let states =
        to_swerve_module_states locations (multiply (number arithmetic 4) (axis 1))
          (multiply (number arithmetic 4) (axis 0)) (multiply (number arithmetic 8) (axis 3)) in
      record {
        front_left = optimize states.front_left angles.front_left;
        front_right = optimize states.front_right angles.front_right;
        back_left = optimize states.back_left angles.back_left;
        back_right = optimize states.back_right angles.back_right;
      }

  unfoldable pub run :
      Inputs Value
      → SwerveDrivetrain Value × Messages Value
      → SwerveDrivetrain Value × Messages Value
  unfolding wanted_states set_outputs meters_per_second_to_native_units_drive_velocity
      degrees_to_native_units_steering_angle
  run inputs (d, s) =
      if d.joystick && inputs.is_connected
      then (let w = wanted_states inputs d.steering_angles in
          (
            d,
            set_outputs pointers.steering
                (record {
                  front_left = degrees_to_native_units_steering_angle w.front_left.angle;
                  front_right = degrees_to_native_units_steering_angle w.front_right.angle;
                  back_left = degrees_to_native_units_steering_angle w.back_left.angle;
                  back_right = degrees_to_native_units_steering_angle w.back_right.angle;
                })
                (set_outputs pointers.drive
                  (record {
                    front_left =
                        meters_per_second_to_native_units_drive_velocity w.front_left.speed;
                    front_right =
                        meters_per_second_to_native_units_drive_velocity w.front_right.speed;
                    back_left = meters_per_second_to_native_units_drive_velocity w.back_left.speed;
                    back_right =
                        meters_per_second_to_native_units_drive_velocity w.back_right.speed;
                  })
                  s),
          ))
      else (d, set_outputs pointers.drive all_zero s)
