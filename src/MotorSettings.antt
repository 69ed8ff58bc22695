-- ===== src/MotorSettings.antt =====
-- src/main/cpp/tasks/ApplyMotorConfigTask.cpp, the commands: what a full update and what the update
-- functions of the changed fields tell a motor. Each attempt is made under the retry. The messages'
-- numbers are kept; the comparisons with constants are those of `double`, a parameter.
pub mod Agreement
pub mod Task
mod Commands
pub use Commands.*
unfoldable pub use Commands.{try_once, frames, supply_limit, stator_limit}
use ckriopassthru.Base.{
  ℕ, Bool, true, false, Option, none, some, List, [], ◌∷◌, ◌++◌, ltb, if◌then◌else◌,
}
use ckriopassthru.Phoenix.{ErrorCode, is_success, success, failure}
use ckriopassthru.Talon.{MotorType, talon_fx, talon_srx, other_type}

abbrev is_slave : ControllerMode → Bool
is_slave slave = true
is_slave _ = false

-- The fields that have an update function, in the order of registration, and any other.
pub data MotorField : Type 0 where
  kp_fd ki_fd kd_fd kf_fd : MotorField
  kp1_fd ki1_fd kd1_fd kf1_fd : MotorField
  izone_fd max_i_accum_fd allowed_closed_loop_error_fd max_closed_loop_peak_output_fd : MotorField
  motion_cruise_velocity_fd motion_acceleration_fd motion_s_curve_strength_fd
        forward_soft_limit_fd :
      MotorField
  forward_soft_limit_enable_fd reverse_soft_limit_fd reverse_soft_limit_enable_fd
        feedback_sensor_coefficient_fd :
      MotorField
  voltage_compensation_saturation_fd voltage_compensation_enabled_fd invert_type_fd
        sensor_phase_inverted_fd :
      MotorField
  neutral_mode_fd open_loop_ramp_fd closed_loop_ramp_fd supply_current_limit_config_fd : MotorField
  stator_current_limit_config_fd forward_limit_switch_source_fd forward_limit_switch_normal_fd
        reverse_limit_switch_source_fd :
      MotorField
  reverse_limit_switch_normal_fd peak_output_forward_fd peak_output_reverse_fd
        feedback_sensor_can_id_fd :
      MotorField
  active_gain_slot_fd : MotorField
  other_fd : ℕ → MotorField

-- Comparisons of `double`: v < 0.04, v > -0.04, v < 0.01, and the constants 1 and -1.
pub record Scale : Type 1 where
  pub Value : Type 0
  pub below_0_04 : Value → Bool
  pub above_minus_0_04 : Value → Bool
  pub below_0_01 : Value → Bool
  pub one_value : Value
  pub minus_one : Value

module _ (scale : Scale) where
  open scale use {Value, below_0_04, above_minus_0_04, below_0_01, one_value, minus_one}

  unfoldable pub peak_forward : MotorSettings Value → Attempt Value
  peak_forward m = one (
      config_peak_output_forward
        (if below_0_04 m.peak_output_forward then one_value else m.peak_output_forward))

  unfoldable pub peak_reverse : MotorSettings Value → Attempt Value
  peak_reverse m = one (
      config_peak_output_reverse
        (if above_minus_0_04 m.peak_output_reverse then minus_one else m.peak_output_reverse))

  unfoldable pub feedback : MotorSettings Value → Attempt Value
  feedback m =
      if ltb 0 m.feedback_sensor_can_id
      then both (config_remote_feedback_filter m.feedback_sensor_can_id) select_remote_sensor_0
      else one select_integrated_sensor

  -- What every motor gets first.
  unfoldable pub common : MotorSettings Value → List (Attempt Value)
  unfolding peak_forward peak_reverse
  common m =
      one clear_sticky_faults
      ∷ one (config_voltage_comp_saturation m.voltage_compensation_saturation)
      ∷ one (enable_voltage_compensation m.voltage_compensation_enabled)
      ∷ one (set_inverted m.invert_type)
      ∷ one (set_neutral_mode m.neutral_mode)
      ∷ one (config_openloop_ramp m.open_loop_ramp)
      ∷ one (config_closedloop_ramp m.closed_loop_ramp)
      ∷ peak_forward m
      ∷ peak_reverse m
      ∷ one (
          config_forward_limit_switch_source m.forward_limit_switch_source
            m.forward_limit_switch_normal)
      ∷ one (
          config_reverse_limit_switch_source m.reverse_limit_switch_source
            m.reverse_limit_switch_normal)
      ∷ []

  -- What a motor gets that is not a slave.
  unfoldable pub closed_loop : MotorSettings Value → List (Attempt Value)
  unfolding feedback
  closed_loop m =
      feedback m
      ∷ one (config_kp 0 m.kp)
      ∷ one (config_ki 0 m.ki)
      ∷ one (config_kd 0 m.kd)
      ∷ one (config_kf 0 m.kf)
      ∷ one (config_kp 1 m.kp_1)
      ∷ one (config_ki 1 m.ki_1)
      ∷ one (config_kd 1 m.kd_1)
      ∷ one (config_kf 1 m.kf_1)
      ∷ one (select_profile_slot m.active_gain_slot)
      ∷ one (config_integral_zone m.izone)
      ∷ one (config_max_integral_accumulator m.max_i_accum)
      ∷ one (config_allowable_closedloop_error m.allowed_closed_loop_error)
      ∷ one (
          config_closed_loop_peak_output (
            if below_0_01 m.max_closed_loop_peak_output
            then one_value
            else m.max_closed_loop_peak_output))
      ∷ one (config_motion_cruise_velocity m.motion_cruise_velocity)
      ∷ one (config_motion_acceleration m.motion_acceleration)
      ∷ one (config_motion_s_curve_strength m.motion_s_curve_strength)
      ∷ one (config_forward_soft_limit_threshold m.forward_soft_limit)
      ∷ one (config_forward_soft_limit_enable m.forward_soft_limit_enable)
      ∷ one (config_reverse_soft_limit_threshold m.reverse_soft_limit)
      ∷ one (config_reverse_soft_limit_enable m.reverse_soft_limit_enable)
      ∷ []

  -- `fullUpdate`.
  unfoldable pub full_attempts : MotorType → MotorSettings Value → List (Attempt Value)
  unfolding common closed_loop frames supply_limit stator_limit
  full_attempts kind m =
      common m
      ++ ((if is_slave m.controller_mode then [] else closed_loop m)
          ++ (supply_limit kind m.supply_current_limit_config
              ++ (stator_limit kind m.stator_current_limit_config ++ frames m.controller_mode)))

  -- The functions of `initUpdateFunctions`; `has_encoder` is whether CKEncoderManager has an encoder,
  -- and `none` a null pointer that is dereferenced.
  unfoldable pub field_attempts :
      (ℕ → Bool) → MotorType → MotorSettings Value → MotorField → Option (List (Attempt Value))
  unfolding peak_forward peak_reverse supply_limit stator_limit
  field_attempts has_encoder kind m kp_fd = some (one (config_kp 0 m.kp) ∷ [])
  field_attempts has_encoder kind m ki_fd = some (one (config_ki 0 m.ki) ∷ [])
  field_attempts has_encoder kind m kd_fd = some (one (config_kd 0 m.kd) ∷ [])
  field_attempts has_encoder kind m kf_fd = some (one (config_kf 0 m.kf) ∷ [])
  field_attempts has_encoder kind m kp1_fd = some (one (config_kp 1 m.kp_1) ∷ [])
  field_attempts has_encoder kind m ki1_fd = some (one (config_ki 1 m.ki_1) ∷ [])
  field_attempts has_encoder kind m kd1_fd = some (one (config_kd 1 m.kd_1) ∷ [])
  field_attempts has_encoder kind m kf1_fd = some (one (config_kf 1 m.kf_1) ∷ [])
  field_attempts has_encoder kind m izone_fd = some (one (config_integral_zone m.izone) ∷ [])
  field_attempts has_encoder kind m max_i_accum_fd =
      some (one (config_max_integral_accumulator m.max_i_accum) ∷ [])
  field_attempts has_encoder kind m allowed_closed_loop_error_fd =
      some (one (config_allowable_closedloop_error m.allowed_closed_loop_error) ∷ [])
  field_attempts has_encoder kind m max_closed_loop_peak_output_fd =
      some (one (config_closed_loop_peak_output m.max_closed_loop_peak_output) ∷ [])
  field_attempts has_encoder kind m motion_cruise_velocity_fd =
      some (one (config_motion_cruise_velocity m.motion_cruise_velocity) ∷ [])
  field_attempts has_encoder kind m motion_acceleration_fd =
      some (one (config_motion_acceleration m.motion_acceleration) ∷ [])
  field_attempts has_encoder kind m motion_s_curve_strength_fd =
      some (one (config_motion_s_curve_strength m.motion_s_curve_strength) ∷ [])
  field_attempts has_encoder kind m forward_soft_limit_fd =
      some (one (config_forward_soft_limit_threshold m.forward_soft_limit) ∷ [])
  field_attempts has_encoder kind m forward_soft_limit_enable_fd =
      some (one (config_forward_soft_limit_enable m.forward_soft_limit_enable) ∷ [])
  field_attempts has_encoder kind m reverse_soft_limit_fd =
      some (one (config_reverse_soft_limit_threshold m.reverse_soft_limit) ∷ [])
  field_attempts has_encoder kind m reverse_soft_limit_enable_fd =
      some (one (config_reverse_soft_limit_enable m.reverse_soft_limit_enable) ∷ [])
  field_attempts has_encoder kind m feedback_sensor_coefficient_fd =
      some (one (config_selected_feedback_coefficient m.feedback_sensor_coefficient) ∷ [])
  field_attempts has_encoder kind m voltage_compensation_saturation_fd =
      some (one (config_voltage_comp_saturation m.voltage_compensation_saturation) ∷ [])
  field_attempts has_encoder kind m voltage_compensation_enabled_fd =
      some (one (enable_voltage_compensation m.voltage_compensation_enabled) ∷ [])
  field_attempts has_encoder kind m invert_type_fd = some (one (set_inverted m.invert_type) ∷ [])
  field_attempts has_encoder kind m sensor_phase_inverted_fd =
      some (one (set_sensor_phase m.sensor_phase_inverted) ∷ [])
  field_attempts has_encoder kind m neutral_mode_fd =
      some (one (set_neutral_mode m.neutral_mode) ∷ [])
  field_attempts has_encoder kind m open_loop_ramp_fd =
      some (one (config_openloop_ramp m.open_loop_ramp) ∷ [])
  field_attempts has_encoder kind m closed_loop_ramp_fd =
      some (one (config_closedloop_ramp m.closed_loop_ramp) ∷ [])
  field_attempts has_encoder kind m supply_current_limit_config_fd =
      some (supply_limit kind m.supply_current_limit_config)
  field_attempts has_encoder kind m stator_current_limit_config_fd =
      some (stator_limit kind m.stator_current_limit_config)
  field_attempts has_encoder kind m forward_limit_switch_source_fd = some (
      one (
        config_forward_limit_switch_source m.forward_limit_switch_source
          m.forward_limit_switch_normal)
      ∷ [])
  field_attempts has_encoder kind m forward_limit_switch_normal_fd = some (
      one (
        config_forward_limit_switch_source m.forward_limit_switch_source
          m.forward_limit_switch_normal)
      ∷ [])
  field_attempts has_encoder kind m reverse_limit_switch_source_fd = some (
      one (
        config_reverse_limit_switch_source m.reverse_limit_switch_source
          m.reverse_limit_switch_normal)
      ∷ [])
  field_attempts has_encoder kind m reverse_limit_switch_normal_fd = some (
      one (
        config_reverse_limit_switch_source m.reverse_limit_switch_source
          m.reverse_limit_switch_normal)
      ∷ [])
  field_attempts has_encoder kind m peak_output_forward_fd = some (peak_forward m ∷ [])
  field_attempts has_encoder kind m peak_output_reverse_fd = some (peak_reverse m ∷ [])
  field_attempts has_encoder kind m feedback_sensor_can_id_fd =
      if ltb 0 m.feedback_sensor_can_id
      then (if has_encoder m.feedback_sensor_can_id
          then some (
              both (config_remote_feedback_encoder m.feedback_sensor_can_id) select_remote_sensor_0
              ∷ [])
          else none)
      else some (one select_integrated_sensor ∷ [])
  field_attempts has_encoder kind m active_gain_slot_fd =
      some (one (select_profile_slot m.active_gain_slot) ∷ [])
  field_attempts has_encoder kind m (other_fd n) = some []
