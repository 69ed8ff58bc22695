-- ===== src/Telemetry.antt =====
-- The tasks under src/main/cpp/tasks/ that send what the devices read: what they share, and
-- SendMotorDataTask.cpp; Telemetry.Devices has the others. What a device or the driver station reads,
-- and the serialization of the generated messages, are parameters. Console output and the timing of the
-- tasks are left out.
pub mod Devices
pub mod Coverage
use Prim.Native.String.{String}
use ckriopassthru.Base.{
  ℕ, zero, suc, ◌+◌, Bool, true, false, Option, none, some, List, [], ◌∷◌, ◌==◌, ltb, length,
  if◌then◌else◌,
}
use ckriopassthru.Base.Map.{Map}
use ckriopassthru.Network.{Bytes}
use ckriopassthru.MotorConfig.{u16}
use ckriopassthru.Registry.{Registry, index}
use ckriopassthru.Talon.{MotorType, talon_fx, talon_srx, other_type}
use ckriopassthru.Mode.{ControlMode}
use ckriopassthru.Solenoid.{Solenoid, SolenoidType, SolenoidValue, Pneumatics, single}
use ckriopassthru.Sensor.{EncoderType, cancoder, ImuType, pigeon2}

-- How a run of a task ends: it writes behind the end of its buffer, the message is not serialized, or
-- `sendMessage` gets the bytes under the group.
pub data Report : Type 0 where
  overflow not_serialized : Report
  handed_over : String → Bytes → Report

-- The buffer of each task.
abbrev pub message_size : ℕ
message_size = 1500

-- `SerializeToArray(buf, ByteSizeLong())`: the size that is given is the message's, not the buffer's.
unfoldable pub report : String → Option Bytes → Report
report group none = not_serialized
report group (some bytes) =
    if ltb message_size (length bytes) then overflow else handed_over group bytes

-- `forEach` with a callback that adds an element to a message.
unfoldable pub collect {ℓ κ} :
    {D : Type ℓ} {T : Type κ} {A : Type 0} → T → (ℕ → D → T → A) → Map D → Map T → List A × Map T
unfolding index
collect initial read [] ts = ([], ts)
collect initial read ((k, d) ∷ ds) ts =
    let (t, ts') = index initial k ts in
    let (rest, ts'') = collect initial read ds ts' in (read k d t ∷ rest, ts'')

unfoldable pub read_each {ℓ κ} :
    {D : Type ℓ} {T : Type κ} {A : Type 0}
    → T
    → (ℕ → D → T → A)
    → Registry D T
    → List A × Registry D T
unfolding collect
read_each initial read r =
    let (ms, ts) = collect initial read r.devices r.types in (ms, record r { types = ts })

-- `ControlMode` of the Phoenix library.
pub data TalonMode : Type 0 where
  percent_output motion_profile motion_magic motion_profile_arc : TalonMode
  position velocity current follower music_tone disabled : TalonMode
  other_mode : ℕ → TalonMode

-- What the library reads of a motor.
pub record MotorReadings (Motor Value : Type 0) : Type 0 where
  pub zero_value : Value
  pub selected_sensor_position : Motor → Value
  pub selected_sensor_velocity : Motor → Value
  pub get_control_mode : Motor → TalonMode
  pub motor_output_percent : Motor → Value
  pub active_trajectory_arb_feed_fwd : Motor → Value
  pub active_trajectory_position : Motor → Value
  pub active_trajectory_velocity : Motor → Value
  pub closed_loop_target : Motor → Value
  pub closed_loop_error : Motor → Value
  pub integral_accumulator : Motor → Value
  pub error_derivative : Motor → Value
  pub bus_voltage : Motor → Value
  pub supply_current : Motor → Value
  pub stator_current : Motor → Value
  pub faults : Motor → ℕ
  pub sticky_faults : Motor → ℕ
  pub is_fwd_limit_switch_closed : Motor → Bool
  pub is_rev_limit_switch_closed : Motor → Bool

-- A ck::MotorStatus_Motor.
pub record MotorStatus (Value : Type 0) : Type 0 where
  pub id : ℕ
  pub sensor_position : Value
  pub sensor_velocity : Value
  pub control_mode : TalonMode
  pub commanded_output : Value
  pub active_trajectory_arbff : Value
  pub active_trajectory_position : Value
  pub active_trajectory_velocity : Value
  pub raw_closed_loop_error : Value
  pub raw_integral_accum : Value
  pub raw_error_derivative : Value
  pub raw_output_percent : Value
  pub bus_voltage : Value
  pub bus_current : Value
  pub stator_current : Value
  pub faults : ℕ
  pub sticky_faults : ℕ
  pub forward_limit_closed : Bool
  pub reverse_limit_closed : Bool

module _ {Motor Value : Type 0} (r : MotorReadings Motor Value) where
  unfoldable pub closed_loop_status : Motor → MotorStatus Value → MotorStatus Value
  closed_loop_status d m = record m {
    commanded_output = r.closed_loop_target d;
    raw_closed_loop_error = r.closed_loop_error d;
    raw_integral_accum = r.integral_accumulator d;
    raw_error_derivative = r.error_derivative d;
  }

  -- The cases with a trajectory fall through to the closed loop's.
  unfoldable pub trajectory_status : Motor → MotorStatus Value → MotorStatus Value
  unfolding closed_loop_status
  trajectory_status d m = closed_loop_status d (record m {
    active_trajectory_arbff = r.active_trajectory_arb_feed_fwd d;
    active_trajectory_position = r.active_trajectory_position d;
    active_trajectory_velocity = r.active_trajectory_velocity d;
  })

  -- The `switch` over the mode.
  unfoldable pub mode_status : TalonMode → Motor → MotorStatus Value → MotorStatus Value
  unfolding closed_loop_status trajectory_status
  mode_status percent_output d m = record m { commanded_output = r.motor_output_percent d }
  mode_status motion_profile d m = trajectory_status d m
  mode_status motion_magic d m = trajectory_status d m
  mode_status motion_profile_arc d m = trajectory_status d m
  mode_status position d m = closed_loop_status d m
  mode_status velocity d m = closed_loop_status d m
  mode_status current d m = closed_loop_status d m
  mode_status follower d m = m
  mode_status music_tone d m = m
  mode_status disabled d m = m
  mode_status (other_mode n) d m = m

  -- The `switch` over the type.
  unfoldable pub limit_switches : MotorType → Motor → MotorStatus Value → MotorStatus Value
  limit_switches talon_fx d m = record m {
    forward_limit_closed = r.is_fwd_limit_switch_closed d;
    reverse_limit_closed = r.is_rev_limit_switch_closed d;
  }
  limit_switches talon_srx d m = record m {
    forward_limit_closed = r.is_fwd_limit_switch_closed d;
    reverse_limit_closed = r.is_rev_limit_switch_closed d;
  }
  limit_switches (other_type n) d m = m

  -- The callback of `forEach`.
  unfoldable pub motor_status : ℕ → Motor → MotorType → MotorStatus Value
  unfolding mode_status limit_switches
  motor_status id d motor_type =
      let z = r.zero_value in
      limit_switches motor_type d (
        mode_status (r.get_control_mode d) d (record {
          id = id;
          sensor_position = r.selected_sensor_position d;
          sensor_velocity = r.selected_sensor_velocity d;
          control_mode = r.get_control_mode d;
          commanded_output = z;
          active_trajectory_arbff = z;
          active_trajectory_position = z;
          active_trajectory_velocity = z;
          raw_closed_loop_error = z;
          raw_integral_accum = z;
          raw_error_derivative = z;
          raw_output_percent = r.motor_output_percent d;
          bus_voltage = r.bus_voltage d;
          bus_current = r.supply_current d;
          stator_current = r.stator_current d;
          faults = r.faults d;
          sticky_faults = r.sticky_faults d;
          forward_limit_closed = false;
          reverse_limit_closed = false;
        }))

  -- SendMotorDataTask::run.
  unfoldable pub send_motor_data :
      (List (MotorStatus Value) → Option Bytes)
      → Registry Motor MotorType
      → Report × Registry Motor MotorType
  unfolding report read_each motor_status
  send_motor_data serialize w =
      let (ms, w') = read_each talon_fx motor_status w in (report "motorstatus" (serialize ms), w')
