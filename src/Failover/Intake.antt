-- ===== src/Failover/Intake.antt =====
-- src/main/cpp/failover/subsystems/IntakeFailover.cpp and LEDFailover.cpp: the motor and the solenoid of
-- the intake, and the LED strip, which no method changes.
use ckriopassthru.Base.{ℕ, true}
use ckriopassthru.Arithmetic.{Arithmetic, number}
use ckriopassthru.Talon.{talon_fx}
use ckriopassthru.Phoenix.{rio_canivore}
use ckriopassthru.MotorSettings.{master}
use ckriopassthru.Solenoid.{ctrepcm, single, off}
use ckriopassthru.Candle.Led.{static}
use ckriopassthru.Failover.Arm.{solenoid_key, stop_motor, turn_off}
use ckriopassthru.Failover.Messages.{
  Generated, Messages, Build, ◌>>=◌, ◌>>◌, return, edit, add_motor_control, add_motor_config,
  add_solenoid_control, add_led_control, change_motor_control, change_motor_config,
  change_solenoid_control, change_led_control,
}

pub record IntakeFailover : Type 0 where
  pub intake : ℕ
  pub pinch : ℕ

module _ {Value : Type 0} (arithmetic : Arithmetic Value) (generated : Generated Value) where
  open generated use {
    percent_output, invert_none, brake, limit_switch_deactivated, limit_switch_disabled, grbw,
    vbat_off,
  }

  unfoldable pub set_base_config : ℕ → ℕ → Build Value ℕ
  unfolding add_motor_config
  set_base_config id current_limit = do
    config ← add_motor_config generated
    edit (
        change_motor_config config λ c. record c {
          id = id;
          controller_type = talon_fx;
          can_network = rio_canivore;
          settings = record c.settings {
            controller_mode = master;
            invert_type = invert_none;
            neutral_mode = brake;
            voltage_compensation_saturation = number arithmetic 12;
            voltage_compensation_enabled = true;
            open_loop_ramp = number arithmetic 0;
            forward_limit_switch_source = limit_switch_deactivated;
            forward_limit_switch_normal = limit_switch_disabled;
            reverse_limit_switch_source = limit_switch_deactivated;
            reverse_limit_switch_normal = limit_switch_disabled;
            supply_current_limit_config = record {
              enable = true;
              current_limit = number arithmetic current_limit;
              trigger_threshold_current = number arithmetic 0;
              trigger_threshold_time = number arithmetic 0;
            };
          };
        })
    return config

  unfoldable pub set_base_control : ℕ → Build Value ℕ
  unfolding add_motor_control
  set_base_control id = do
    control ← add_motor_control generated
    edit (
        change_motor_control control λ c. record c {
          id = id;
          arbitrary_feedforward = number arithmetic 0;
          controller_type = talon_fx;
          control_mode = percent_output;
          output_value = number arithmetic 0;
        })
    return control

  -- The constructor of the intake.
  unfoldable pub intake_failover : Build Value IntakeFailover
  unfolding set_base_config set_base_control add_solenoid_control solenoid_key
  intake_failover = do
    intake_config ← set_base_config 14 40
    intake ← set_base_control 14
    pinch ← add_solenoid_control generated
    edit (
        change_solenoid_control pinch λ c. record c {
          id = solenoid_key 1 1;
          module_type = ctrepcm;
          solenoid_type = single;
          output_value = off;
        })
    return (record { intake = intake; pinch = pinch })

  unfoldable pub uninit : IntakeFailover → Messages Value → Messages Value
  unfolding stop_motor
  uninit i s = stop_motor arithmetic generated i.intake s

  unfoldable pub run : IntakeFailover → Messages Value → Messages Value
  unfolding stop_motor turn_off
  run i s = turn_off arithmetic generated i.pinch (stop_motor arithmetic generated i.intake s)

  -- The constructor of the LED strip: 50 LEDs, red.
  unfoldable pub led_failover : Build Value ℕ
  unfolding add_led_control
  led_failover = do
    led ← add_led_control generated
    edit (
        change_led_control led λ c. record c {
          id = 0;
          led_type = grbw;
          led_control_mode = static;
          color = record { r = 255; g = 0; b = 0; w = 0 };
          num_leds = 50;
          start_index = 0;
          can_network = rio_canivore;
          vbat_config = vbat_off;
        })
    return led
