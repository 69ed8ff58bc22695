-- ===== src/Tests/Settings.antt =====
-- One motor configuration, and its updates.
use ckriopassthru.Base.{ℕ, refl, Bool, true, false, List, [], ◌∷◌, ltb}
use ckriopassthru.Talon.{talon_fx}
use ckriopassthru.Candle.Led.{Difference, modified}
use ckriopassthru.MotorSettings.Task.{MotorConfiguration}
use ckriopassthru.MotorSettings.{
  Scale, MotorSettings, MotorField, CurrentLimit, master, full_attempts, field_attempts, kp_fd,
}
use ckriopassthru.MotorSettings.Agreement.{AllOf, field_attempts-full_attempts}

-- Values in hundredths.
abbrev pub hundredths : Scale
hundredths = record {
  Value = ℕ;
  below_0_04 = λ v. ltb v 4;
  above_minus_0_04 = λ v. true;
  below_0_01 = λ v. ltb v 1;
  one_value = 100;
  minus_one = 0;
}

abbrev no_limit : CurrentLimit ℕ
no_limit = record {
  enable = false;
  current_limit = 0;
  trigger_threshold_current = 0;
  trigger_threshold_time = 0;
}

abbrev settings : MotorSettings ℕ
settings = record {
  controller_mode = master;
  kp = 3;
  ki = 0;
  kd = 0;
  kf = 0;
  kp_1 = 0;
  ki_1 = 0;
  kd_1 = 0;
  kf_1 = 0;
  izone = 0;
  max_i_accum = 0;
  allowed_closed_loop_error = 0;
  max_closed_loop_peak_output = 0;
  motion_cruise_velocity = 0;
  motion_acceleration = 0;
  forward_soft_limit = 0;
  reverse_soft_limit = 0;
  feedback_sensor_coefficient = 0;
  voltage_compensation_saturation = 0;
  open_loop_ramp = 0;
  closed_loop_ramp = 0;
  peak_output_forward = 0;
  peak_output_reverse = 0;
  motion_s_curve_strength = 0;
  invert_type = 0;
  neutral_mode = 0;
  forward_limit_switch_source = 0;
  forward_limit_switch_normal = 0;
  reverse_limit_switch_source = 0;
  reverse_limit_switch_normal = 0;
  feedback_sensor_can_id = 5;
  active_gain_slot = 0;
  forward_soft_limit_enable = false;
  reverse_soft_limit_enable = false;
  voltage_compensation_enabled = false;
  sensor_phase_inverted = false;
  supply_current_limit_config = no_limit;
  stator_current_limit_config = no_limit;
}

abbrev no_encoders : ℕ → Bool
no_encoders id = false

field_attempts-full_attempts_example :
    AllOf
      (field_attempts hundredths no_encoders talon_fx settings kp_fd)
      (full_attempts hundredths talon_fx settings)
field_attempts-full_attempts_example =
    field_attempts-full_attempts hundredths no_encoders talon_fx settings kp_fd refl refl

abbrev pub configuration : MotorConfiguration ℕ
configuration = record { id = 1; settings = settings }

abbrev pub kp_differs : MotorConfiguration ℕ → MotorConfiguration ℕ → List (Difference MotorField)
kp_differs a b = modified (kp_fd ∷ []) ∷ []
