-- ===== src/Failover/Arm.antt =====
-- src/main/cpp/failover/subsystems/ArmFailover.cpp: the motors and solenoids of the arm. The object's
-- pointers are set by the constructor and change no more.
use ckriopassthru.Base.{ℕ, ◌+◌, ◌*◌, ◌%◌, ◌^◌, Bool, true}
use ckriopassthru.Arithmetic.{Arithmetic, number}
use ckriopassthru.Talon.{talon_fx}
use ckriopassthru.Phoenix.{rio_canivore}
use ckriopassthru.MotorSettings.{master}
use ckriopassthru.Solenoid.{ctrepcm, single, off}
use ckriopassthru.Failover.Messages.{
  Generated, Messages, Build, ◌>>=◌, ◌>>◌, return, add_motor_control, add_motor_config,
  add_solenoid_control, change_motor_control, change_motor_config, change_solenoid_control, edit,
}

pub record ConfigDataSet (Value : Type 0) : Type 0 where
  pub kp : Value
  pub ki : Value
  pub kd : Value
  pub kf : Value
  pub motion_cruise_vel : Value
  pub motion_accel : Value
  -- The curve's strength is a whole number in the message.
  pub motion_scurve : ℕ
  pub forward_soft_limit_enabled : Bool
  pub forward_soft_limit : Value
  pub reverse_soft_limit_enabled : Bool
  pub reverse_soft_limit : Value

-- The pointers to the elements that a method changes.
pub record ArmFailover : Type 0 where
  pub lower_arm_master : ℕ
  pub upper_arm_master : ℕ
  pub wrist : ℕ
  pub lower_brake : ℕ
  pub upper_brake : ℕ
  pub extension_1 : ℕ
  pub extension_2 : ℕ

-- `((module_id << 16) & 0xFFFF0000) | (id & 0xFFFF)` of numbers that are not negative.
unfoldable pub solenoid_key : ℕ → ℕ → ℕ
solenoid_key module_id id = module_id * 2 ^ 16 % 2 ^ 32 + id % 2 ^ 16

module _ {Value : Type 0} (arithmetic : Arithmetic Value) (generated : Generated Value) where
  open arithmetic use {decimal, negate}
  open generated use {
    percent_output, follower, invert_none, invert_motor_output, oppose_master, brake,
    limit_switch_deactivated, limit_switch_disabled,
  }

  abbrev pub lower_arm_pid : ConfigDataSet Value
  lower_arm_pid = record {
    kp = decimal 524 3;
    ki = number arithmetic 0;
    kd = decimal 33 2;
    kf = decimal 242 3;
    motion_cruise_vel = number arithmetic 3600;
    motion_accel = number arithmetic 3700;
    motion_scurve = 3;
    forward_soft_limit_enabled = true;
    forward_soft_limit = number arithmetic 8958;
    reverse_soft_limit_enabled = true;
    reverse_soft_limit = negate (number arithmetic 13371);
  }

  abbrev pub upper_arm_pid : ConfigDataSet Value
  upper_arm_pid = record {
    kp = decimal 17 1;
    ki = number arithmetic 0;
    kd = decimal 25 1;
    kf = decimal 391463871 8;
    motion_cruise_vel = number arithmetic 200;
    motion_accel = number arithmetic 450;
    motion_scurve = 1;
    forward_soft_limit_enabled = true;
    forward_soft_limit = negate (number arithmetic 573);
    reverse_soft_limit_enabled = true;
    reverse_soft_limit = negate (number arithmetic 3604);
  }

  abbrev pub wrist_pid : ConfigDataSet Value
  wrist_pid = record {
    kp = decimal 27 3;
    ki = number arithmetic 0;
    kd = decimal 37 3;
    kf = decimal 449122 7;
    motion_cruise_vel = number arithmetic 19500;
    motion_accel = number arithmetic 44000;
    motion_scurve = 3;
    forward_soft_limit_enabled = true;
    forward_soft_limit = number arithmetic 232492;
    reverse_soft_limit_enabled = true;
    reverse_soft_limit = negate (number arithmetic 30930);
  }

  unfoldable pub set_base_solenoid : ℕ → ℕ → Build Value ℕ
  unfolding add_solenoid_control solenoid_key
  set_base_solenoid id module_id = do
    solenoid ← add_solenoid_control generated
    edit (
        change_solenoid_control solenoid λ c. record c {
          id = solenoid_key module_id id;
          module_type = ctrepcm;
          solenoid_type = single;
          output_value = off;
        })
    return solenoid

  unfoldable pub set_base_config : ℕ → ℕ → Build Value ℕ
  unfolding add_motor_config
  set_base_config id current_limit = do
    config ← add_motor_config generated
    edit (
        change_motor_config config λ c. record c {
          id = id;
          controller_type = talon_fx;
          can_network = rio_canivore;
          settings = record c.settings {
            controller_mode = master;
            invert_type = invert_none;
            neutral_mode = brake;
            voltage_compensation_saturation = number arithmetic 12;
            voltage_compensation_enabled = true;
            open_loop_ramp = number arithmetic 0;
            forward_limit_switch_source = limit_switch_deactivated;
            forward_limit_switch_normal = limit_switch_disabled;
            reverse_limit_switch_source = limit_switch_deactivated;
            reverse_limit_switch_normal = limit_switch_disabled;
            supply_current_limit_config = record {
              enable = true;
              current_limit = number arithmetic current_limit;
              trigger_threshold_current = number arithmetic 0;
              trigger_threshold_time = number arithmetic 0;
            };
          };
        })
    return config

  unfoldable pub set_base_control : ℕ → Build Value ℕ
  unfolding add_motor_control
  set_base_control id = do
    control ← add_motor_control generated
    edit (
        change_motor_control control λ c. record c {
          id = id;
          arbitrary_feedforward = number arithmetic 0;
          controller_type = talon_fx;
          control_mode = percent_output;
          output_value = number arithmetic 0;
        })
    return control

  -- `SetBaseControl` with a master.
  unfoldable pub set_follower_control : ℕ → ℕ → Build Value ℕ
  unfolding set_base_control
  set_follower_control id master_id = do
    control ← set_base_control id
    edit (
        change_motor_control control
          λ c. record c { control_mode = follower; output_value = number arithmetic master_id })
    return control

  unfoldable pub config_pid : ℕ → ConfigDataSet Value → Messages Value → Messages Value
  config_pid config d = change_motor_config config λ c. record c {
    settings = record c.settings {
      kp = d.kp;
      ki = d.ki;
      kd = d.kd;
      kf = d.kf;
      motion_cruise_velocity = d.motion_cruise_vel;
      motion_acceleration = d.motion_accel;
      motion_s_curve_strength = d.motion_scurve;
      forward_soft_limit_enable = d.forward_soft_limit_enabled;
      forward_soft_limit = d.forward_soft_limit;
      reverse_soft_limit_enable = d.reverse_soft_limit_enabled;
      reverse_soft_limit = d.reverse_soft_limit;
    };
  }

  unfoldable pub set_invert_type : ℕ → ℕ → Messages Value → Messages Value
  set_invert_type config invert =
      change_motor_config config
        λ c. record c { settings = record c.settings { invert_type = invert } }

  unfoldable pub set_feedback_sensor : ℕ → ℕ → Messages Value → Messages Value
  set_feedback_sensor config id =
      change_motor_config config
        λ c. record c { settings = record c.settings { feedback_sensor_can_id = id } }

  -- The constructor.
  unfoldable pub arm_failover : Build Value ArmFailover
  unfolding set_base_config set_base_control set_follower_control config_pid set_base_solenoid
      set_invert_type set_feedback_sensor
  arm_failover = do
    lower_arm_master_config ← set_base_config 9 40
    edit (set_feedback_sensor lower_arm_master_config 29)
    edit (set_invert_type lower_arm_master_config invert_motor_output)
    lower_arm_master ← set_base_control 9
    edit (config_pid lower_arm_master_config lower_arm_pid)
    lower_arm_follower_config ← set_base_config 10 40
    edit (set_invert_type lower_arm_follower_config oppose_master)
    lower_arm_follower ← set_follower_control 10 9
    upper_arm_master_config ← set_base_config 11 40
    edit (set_feedback_sensor upper_arm_master_config 31)
    edit (set_invert_type upper_arm_master_config invert_motor_output)
    upper_arm_master ← set_base_control 11
    edit (config_pid upper_arm_master_config upper_arm_pid)
    upper_arm_follower_config ← set_base_config 12 40
    edit (set_invert_type upper_arm_follower_config oppose_master)
    upper_arm_follower ← set_follower_control 12 11
    wrist_config ← set_base_config 13 30
    edit (set_invert_type wrist_config invert_motor_output)
    wrist ← set_base_control 13
    edit (config_pid wrist_config wrist_pid)
    lower_brake ← set_base_solenoid 7 0
    upper_brake ← set_base_solenoid 6 0
    extension_1 ← set_base_solenoid 0 1
    extension_2 ← set_base_solenoid 2 1
    return (record {
      lower_arm_master = lower_arm_master;
      upper_arm_master = upper_arm_master;
      wrist = wrist;
      lower_brake = lower_brake;
      upper_brake = upper_brake;
      extension_1 = extension_1;
      extension_2 = extension_2;
    })

  -- `set_control_mode(PercentOutput)` and `set_output_value(0)`.
  unfoldable pub stop_motor : ℕ → Messages Value → Messages Value
  stop_motor motor =
      change_motor_control motor
        λ c. record c { control_mode = percent_output; output_value = number arithmetic 0 }

  unfoldable pub turn_off : ℕ → Messages Value → Messages Value
  turn_off solenoid = change_solenoid_control solenoid λ c. record c { output_value = off }

  unfoldable pub uninit : ArmFailover → Messages Value → Messages Value
  unfolding stop_motor
  uninit a s = stop_motor a.wrist (stop_motor a.upper_arm_master (stop_motor a.lower_arm_master s))

  unfoldable pub run : ArmFailover → Messages Value → Messages Value
  unfolding stop_motor turn_off
  run a s =
      let s' =
        stop_motor a.wrist (stop_motor a.upper_arm_master (stop_motor a.lower_arm_master s)) in
      turn_off a.extension_2
        (turn_off a.extension_1 (turn_off a.upper_brake (turn_off a.lower_brake s')))
