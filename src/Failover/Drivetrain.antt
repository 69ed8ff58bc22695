-- ===== src/Failover/Drivetrain.antt =====
-- src/main/cpp/failover/subsystems/DrivetrainFailover.cpp: a drive with two sides, each of a master and a
-- follower, which RobotFailover does not use. The clock's readings are arguments.
pub mod Limits
use ckriopassthru.Base.{ℕ, Bool, true, false, ◌&&◌, if◌then◌else◌}
use ckriopassthru.Arithmetic.{Arithmetic, number}
use ckriopassthru.Deadband.{normalize_with_deadband}
use ckriopassthru.Talon.{talon_fx}
use ckriopassthru.Phoenix.{rio_canivore}
use ckriopassthru.MotorSettings.{ControllerMode, fast_master, slave}
use ckriopassthru.Failover.Swerve.{Inputs, set_output}
use ckriopassthru.Failover.Ramp.{ValueRamper, value_ramper, calculate_output}
use ckriopassthru.Failover.DriveHelper
use ckriopassthru.Failover.DriveHelper.{DriveMotorValues, new_drive_helper}
use ckriopassthru.Failover.Messages.{
  Generated, Messages, MotorConfig, Build, ◌>>=◌, ◌>>◌, return, edit, add_motor_control,
  add_motor_config, change_motor_control, change_motor_config,
}

-- The pointers that the constructor sets.
pub record DrivetrainPointers : Type 0 where
  pub left_master_config : ℕ
  pub left_follower_config : ℕ
  pub right_master_config : ℕ
  pub right_follower_config : ℕ
  pub left_master : ℕ
  pub right_master : ℕ

-- The members that change: whether `mJoystick` points to a joystick, the helper and the rampers.
pub record Drivetrain (Value : Type 0) : Type 0 where
  pub joystick : Bool
  pub drive_helper : DriveHelper.DriveHelper Value
  pub left_value_ramper : ValueRamper Value
  pub right_value_ramper : ValueRamper Value

module _ {Value : Type 0} (arithmetic : Arithmetic Value) where
  open arithmetic use {decimal, negate}

  -- The object before `init`.
  unfoldable pub idle : Drivetrain Value
  unfolding value_ramper new_drive_helper
  idle =
      let ramper =
        value_ramper arithmetic (decimal 5 1) (decimal 2 1) (number arithmetic 0)
          (number arithmetic 1) in
      record {
        joystick = false;
        drive_helper = new_drive_helper arithmetic;
        left_value_ramper = ramper;
        right_value_ramper = ramper;
      }

  -- What the joystick asks for: the helper's outputs.
  unfoldable pub wanted_outputs :
      Inputs Value → Drivetrain Value → DriveMotorValues Value × DriveHelper.DriveHelper Value
  unfolding DriveHelper.calculate_output normalize_with_deadband
  wanted_outputs inputs d =
      let wheel = normalize_with_deadband arithmetic (inputs.raw_axis 0) (decimal 12 2) in
      let throttle =
        negate (normalize_with_deadband arithmetic (inputs.raw_axis 1) (decimal 12 2)) in
      DriveHelper.calculate_output arithmetic throttle wheel (inputs.raw_button 7) true
        d.drive_helper

  -- The speeds that `run` gives to the two sides while the joystick is connected.
  unfoldable pub drive_outputs :
      Inputs Value → Value → Value → Drivetrain Value → DriveMotorValues Value × Drivetrain Value
  unfolding wanted_outputs calculate_output
  drive_outputs inputs left_time right_time d =
      let (v, helper) = wanted_outputs inputs d in
      let (left, left_ramper) = calculate_output arithmetic left_time v.left d.left_value_ramper in
      let (right, right_ramper) =
        calculate_output arithmetic right_time v.right d.right_value_ramper in
      (
        record { left = left; right = right },
        record d {
          drive_helper = helper;
          left_value_ramper = left_ramper;
          right_value_ramper = right_ramper;
        },
      )

module _ {Value : Type 0} (arithmetic : Arithmetic Value) (generated : Generated Value) where
  open arithmetic use {decimal}
  open generated use {
    percent_output, follower, invert_none, invert_motor_output, follow_master, brake, coast,
    limit_switch_deactivated, limit_switch_disabled,
  }

  -- The block that the constructor repeats for each motor's configuration.
  unfoldable pub add_config : ℕ → ControllerMode → ℕ → Build Value ℕ
  unfolding add_motor_config
  add_config id mode invert = do
    config ← add_motor_config generated
    edit (
        change_motor_config config λ c. record c {
          id = id;
          controller_type = talon_fx;
          can_network = rio_canivore;
          settings = record c.settings {
            controller_mode = mode;
            invert_type = invert;
            neutral_mode = coast;
            voltage_compensation_saturation = number arithmetic 12;
            voltage_compensation_enabled = true;
            open_loop_ramp = decimal 15 2;
            forward_limit_switch_source = limit_switch_deactivated;
            forward_limit_switch_normal = limit_switch_disabled;
            reverse_limit_switch_source = limit_switch_deactivated;
            reverse_limit_switch_normal = limit_switch_disabled;
            supply_current_limit_config = record {
              enable = true;
              current_limit = number arithmetic 40;
              trigger_threshold_current = number arithmetic 0;
              trigger_threshold_time = number arithmetic 0;
            };
          };
        })
    return config

  -- The one for each motor's control.
  unfoldable pub add_control : ℕ → ℕ → ℕ → Build Value ℕ
  unfolding add_motor_control
  add_control id mode output = do
    control ← add_motor_control generated
    edit (
        change_motor_control control λ c. record c {
          id = id;
          arbitrary_feedforward = number arithmetic 0;
          controller_type = talon_fx;
          control_mode = mode;
          output_value = number arithmetic output;
        })
    return control

  -- The constructor.
  unfoldable pub drivetrain_failover : Build Value DrivetrainPointers
  unfolding add_config add_control
  drivetrain_failover = do
    left_master_config ← add_config 1 fast_master invert_none
    left_master ← add_control 1 percent_output 0
    left_follower_config ← add_config 2 slave follow_master
    left_follower ← add_control 2 follower 1
    right_master_config ← add_config 4 fast_master invert_motor_output
    right_master ← add_control 4 percent_output 0
    right_follower_config ← add_config 5 slave follow_master
    right_follower ← add_control 5 follower 4
    return (record {
      left_master_config = left_master_config;
      left_follower_config = left_follower_config;
      right_master_config = right_master_config;
      right_follower_config = right_follower_config;
      left_master = left_master;
      right_master = right_master;
    })

  module _ (pointers : DrivetrainPointers) where
    unfoldable pub init : Drivetrain Value → Drivetrain Value
    init d = record d { joystick = true }

    unfoldable pub stop : Messages Value → Messages Value
    unfolding set_output
    stop s =
        set_output pointers.right_master (number arithmetic 0)
          (set_output pointers.left_master (number arithmetic 0) s)

    unfoldable pub uninit : Drivetrain Value × Messages Value → Drivetrain Value × Messages Value
    unfolding stop
    uninit (d, s) = (record d { joystick = false }, stop s)

    unfoldable pub set_neutral_mode : ℕ → ℕ → Messages Value → Messages Value
    set_neutral_mode mode config =
        change_motor_config config
          λ c. record c { settings = record c.settings { neutral_mode = mode } }

    unfoldable pub set_neutral_modes : ℕ → Messages Value → Messages Value
    unfolding set_neutral_mode
    set_neutral_modes mode s = set_neutral_mode mode pointers.right_follower_config (
        set_neutral_mode mode pointers.right_master_config (
          set_neutral_mode mode pointers.left_follower_config
            (set_neutral_mode mode pointers.left_master_config s)))

    unfoldable pub run :
        Inputs Value
        → Value
        → Value
        → Drivetrain Value × Messages Value
        → Drivetrain Value × Messages Value
    unfolding drive_outputs stop set_neutral_modes
    run inputs left_time right_time (d, s) =
        if d.joystick && inputs.is_connected
        then (let (v, d') = drive_outputs arithmetic inputs left_time right_time d in
            let s' =
              set_output pointers.right_master v.right (set_output pointers.left_master v.left s) in
            (d', set_neutral_modes (if inputs.raw_button 8 then brake else coast) s'))
        else (d, stop s)
