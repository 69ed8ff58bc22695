-- ===== src/Failover/Swerve/Construction.antt =====
-- The constructor of src/main/cpp/failover/subsystems/SwerveDrivetrainFailover.cpp: the configuration and
-- control messages of the eight motors.
use ckriopassthru.Base.{ℕ, true}
use ckriopassthru.Arithmetic.{Arithmetic, number}
use ckriopassthru.Talon.{talon_fx}
use ckriopassthru.Phoenix.{rio_canivore}
use ckriopassthru.MotorSettings.{fast_master}
use ckriopassthru.Failover.Messages.{
  Generated, Build, ◌>>=◌, ◌>>◌, return, edit, add_motor_control, add_motor_config,
  change_motor_control, change_motor_config,
}

-- One for each corner.
pub record Four (A : Type 0) : Type 0 where
  pub front_left : A
  pub front_right : A
  pub back_left : A
  pub back_right : A

-- The pointers that the constructor sets.
pub record SwervePointers : Type 0 where
  pub drive : Four ℕ
  pub steering : Four ℕ

abbrev drive_ids : Four ℕ
drive_ids = record { front_left = 1; front_right = 2; back_left = 3; back_right = 4 }

abbrev pub steering_ids : Four ℕ
steering_ids = record { front_left = 5; front_right = 6; back_left = 7; back_right = 8 }

abbrev cancoder_ids : Four ℕ
cancoder_ids = record { front_left = 25; front_right = 26; back_left = 27; back_right = 28 }

module _ {Value : Type 0} (arithmetic : Arithmetic Value) (generated : Generated Value) where
  open arithmetic use {decimal}
  open generated use {
    velocity, position, invert_none, brake, limit_switch_deactivated, limit_switch_disabled,
  }

  -- The pointer to the control message; the one to the configuration is not used again.
  unfoldable pub set_drive_config : ℕ → Build Value ℕ
  unfolding add_motor_config add_motor_control
  set_drive_config id = do
    config ← add_motor_config generated
    edit (
        change_motor_config config λ c. record c {
          id = id;
          controller_type = talon_fx;
          can_network = rio_canivore;
          settings = record c.settings {
            controller_mode = fast_master;
            invert_type = invert_none;
            neutral_mode = brake;
            voltage_compensation_saturation = number arithmetic 12;
            voltage_compensation_enabled = true;
            kp = decimal 7 2;
            ki = number arithmetic 0;
            kd = decimal 43 2;
            kf = decimal 469 4;
            open_loop_ramp = decimal 15 2;
            forward_limit_switch_source = limit_switch_deactivated;
            forward_limit_switch_normal = limit_switch_disabled;
            reverse_limit_switch_source = limit_switch_deactivated;
            reverse_limit_switch_normal = limit_switch_disabled;
            supply_current_limit_config = record {
              enable = true;
              current_limit = number arithmetic 55;
              trigger_threshold_current = number arithmetic 0;
              trigger_threshold_time = number arithmetic 0;
            };
          };
        })
    control ← add_motor_control generated
    edit (
        change_motor_control control λ c. record c {
          id = id;
          arbitrary_feedforward = number arithmetic 0;
          controller_type = talon_fx;
          control_mode = velocity;
          output_value = number arithmetic 0;
        })
    return control

  unfoldable pub set_steering_config : ℕ → ℕ → Build Value ℕ
  unfolding add_motor_config add_motor_control
  set_steering_config id cancoder_id = do
    config ← add_motor_config generated
    edit (
        change_motor_config config λ c. record c {
          id = id;
          controller_type = talon_fx;
          can_network = rio_canivore;
          settings = record c.settings {
            controller_mode = fast_master;
            invert_type = invert_none;
            neutral_mode = brake;
            voltage_compensation_saturation = number arithmetic 12;
            voltage_compensation_enabled = true;
            kp = decimal 21 1;
            ki = number arithmetic 0;
            kd = number arithmetic 3;
            kf = number arithmetic 0;
            open_loop_ramp = number arithmetic 0;
            forward_limit_switch_source = limit_switch_deactivated;
            forward_limit_switch_normal = limit_switch_disabled;
            reverse_limit_switch_source = limit_switch_deactivated;
            reverse_limit_switch_normal = limit_switch_disabled;
            supply_current_limit_config = record {
              enable = true;
              current_limit = number arithmetic 80;
              trigger_threshold_current = number arithmetic 40;
              trigger_threshold_time = number arithmetic 1;
            };
            feedback_sensor_can_id = cancoder_id;
          };
        })
    control ← add_motor_control generated
    edit (
        change_motor_control control λ c. record c {
          id = id;
          arbitrary_feedforward = number arithmetic 0;
          controller_type = talon_fx;
          control_mode = position;
          output_value = number arithmetic 0;
        })
    return control

  -- The constructor.
  unfoldable pub swerve_drivetrain_failover : Build Value SwervePointers
  unfolding set_drive_config set_steering_config
  swerve_drivetrain_failover = do
    front_left_drive ← set_drive_config drive_ids.front_left
    front_right_drive ← set_drive_config drive_ids.front_right
    back_left_drive ← set_drive_config drive_ids.back_left
    back_right_drive ← set_drive_config drive_ids.back_right
    front_left ← set_steering_config steering_ids.front_left cancoder_ids.front_left
    front_right ← set_steering_config steering_ids.front_right cancoder_ids.front_right
    back_left ← set_steering_config steering_ids.back_left cancoder_ids.back_left
    back_right ← set_steering_config steering_ids.back_right cancoder_ids.back_right
    return (record {
      drive = record {
        front_left = front_left_drive;
        front_right = front_right_drive;
        back_left = back_left_drive;
        back_right = back_right_drive;
      };
      steering = record {
        front_left = front_left;
        front_right = front_right;
        back_left = back_left;
        back_right = back_right;
      };
    })
