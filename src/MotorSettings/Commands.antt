-- ===== src/MotorSettings/Commands.antt =====
-- src/main/cpp/tasks/ApplyMotorConfigTask.cpp: what a motor is told, and the parts that depend on its
-- controller mode or type alone.
use ckriopassthru.Base.{ℕ, Bool, List, [], ◌∷◌, if◌then◌else◌}
use ckriopassthru.Phoenix.{ErrorCode, is_success, success}
use ckriopassthru.Talon.{MotorType, talon_fx, talon_srx, other_type}

pub data ControllerMode : Type 0 where
  fast_master master slave : ControllerMode
  other_mode : ℕ → ControllerMode

pub record CurrentLimit (Value : Type 0) : Type 0 where
  pub enable : Bool
  pub current_limit : Value
  pub trigger_threshold_current : Value
  pub trigger_threshold_time : Value

-- A ck::MotorConfiguration::Motor, as far as the two updates read it.
pub record MotorSettings (Value : Type 0) : Type 0 where
  pub controller_mode : ControllerMode
  pub kp : Value
  pub ki : Value
  pub kd : Value
  pub kf : Value
  pub kp_1 : Value
  pub ki_1 : Value
  pub kd_1 : Value
  pub kf_1 : Value
  pub izone : Value
  pub max_i_accum : Value
  pub allowed_closed_loop_error : Value
  pub max_closed_loop_peak_output : Value
  pub motion_cruise_velocity : Value
  pub motion_acceleration : Value
  pub forward_soft_limit : Value
  pub reverse_soft_limit : Value
  pub feedback_sensor_coefficient : Value
  pub voltage_compensation_saturation : Value
  pub open_loop_ramp : Value
  pub closed_loop_ramp : Value
  pub peak_output_forward : Value
  pub peak_output_reverse : Value
  pub motion_s_curve_strength : ℕ
  pub invert_type : ℕ
  pub neutral_mode : ℕ
  pub forward_limit_switch_source : ℕ
  pub forward_limit_switch_normal : ℕ
  pub reverse_limit_switch_source : ℕ
  pub reverse_limit_switch_normal : ℕ
  pub feedback_sensor_can_id : ℕ
  pub active_gain_slot : ℕ
  pub forward_soft_limit_enable : Bool
  pub reverse_soft_limit_enable : Bool
  pub voltage_compensation_enabled : Bool
  pub sensor_phase_inverted : Bool
  pub supply_current_limit_config : CurrentLimit Value
  pub stator_current_limit_config : CurrentLimit Value

-- The calls of the Phoenix library that set a parameter.
pub data Command (Value : Type 0) : Type 0 where
  clear_sticky_faults select_remote_sensor_0 select_integrated_sensor : Command Value
  config_voltage_comp_saturation config_openloop_ramp config_closedloop_ramp
        config_peak_output_forward :
      Value → Command Value
  config_peak_output_reverse config_integral_zone config_max_integral_accumulator :
      Value → Command Value
  config_allowable_closedloop_error config_closed_loop_peak_output config_motion_cruise_velocity :
      Value → Command Value
  config_motion_acceleration config_forward_soft_limit_threshold : Value → Command Value
  config_reverse_soft_limit_threshold config_selected_feedback_coefficient : Value → Command Value
  enable_voltage_compensation config_forward_soft_limit_enable : Bool → Command Value
  config_reverse_soft_limit_enable set_sensor_phase : Bool → Command Value
  set_inverted set_neutral_mode select_profile_slot config_motion_s_curve_strength :
      ℕ → Command Value
  config_remote_feedback_filter config_remote_feedback_encoder : ℕ → Command Value
  config_forward_limit_switch_source config_reverse_limit_switch_source : ℕ → ℕ → Command Value
  config_kp config_ki config_kd config_kf : ℕ → Value → Command Value
  config_supply_current_limit config_stator_current_limit : CurrentLimit Value → Command Value
  set_control_frame_period : ℕ → Command Value
  set_status_frame_period : ℕ → ℕ → Command Value

-- What is tried under one retry: a call, or the choice of a remote sensor by two calls.
pub data Attempt (Value : Type 0) : Type 0 where
  one : Command Value → Attempt Value
  both : Command Value → Command Value → Attempt Value

-- One try of an attempt, for the library's way `call` to carry out a command and its `GeneralError`.
unfoldable pub try_once {ℓ} :
    {Value : Type 0} {D : Type ℓ}
    → ErrorCode
    → (Command Value → D → D × ErrorCode)
    → Attempt Value
    → D
    → D × ErrorCode
try_once general_error call (one c) d = call c d
try_once general_error call (both a b) d =
    let (d1, e1) = call a d in
    let (d2, e2) = call b d1 in
    (
      d2,
      if is_success e1 then (if is_success e2 then success else general_error) else general_error,
    )

-- Frame periods: the control frame, and the status frames 1, 2 and 4.
unfoldable pub frames : {Value : Type 0} → ControllerMode → List (Attempt Value)
frames fast_master =
    one (set_control_frame_period 5)
    ∷ one (set_status_frame_period 1 5)
    ∷ one (set_status_frame_period 2 10)
    ∷ one (set_status_frame_period 4 10)
    ∷ []
frames _ =
    one (set_control_frame_period 10)
    ∷ one (set_status_frame_period 1 10)
    ∷ one (set_status_frame_period 2 10)
    ∷ one (set_status_frame_period 4 10)
    ∷ []

unfoldable pub supply_limit :
    {Value : Type 0} → MotorType → CurrentLimit Value → List (Attempt Value)
supply_limit talon_fx l = one (config_supply_current_limit l) ∷ []
supply_limit talon_srx l = one (config_supply_current_limit l) ∷ []
supply_limit (other_type n) l = []

unfoldable pub stator_limit :
    {Value : Type 0} → MotorType → CurrentLimit Value → List (Attempt Value)
stator_limit talon_fx l = one (config_stator_current_limit l) ∷ []
stator_limit talon_srx l = []
stator_limit (other_type n) l = []
