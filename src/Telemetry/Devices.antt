-- ===== src/Telemetry/Devices.antt =====
-- The tasks under src/main/cpp/tasks/ that send what solenoids, sensors, the driver station and the
-- joysticks read: SendSolenoidDataTask.cpp, SendEncoderDataTask.cpp, SendIMUDataTask.cpp,
-- SendRobotDataTask.cpp and SendJoystickDataTask.cpp.
use Prim.Native.String.{String}
use ckriopassthru.Base.{
  ℕ, zero, suc, ◌+◌, Bool, Option, none, some, List, [], ◌∷◌, ◌==◌, if◌then◌else◌,
}
use ckriopassthru.Network.{Bytes}
use ckriopassthru.MotorConfig.{u16}
use ckriopassthru.Registry.{Registry}
use ckriopassthru.Mode.{ControlMode}
use ckriopassthru.Solenoid.{Solenoid, SolenoidType, SolenoidValue, Pneumatics, single}
use ckriopassthru.Sensor.{EncoderType, cancoder, ImuType, pigeon2}
use ckriopassthru.Telemetry.{Report, report, read_each}

-- A ck::SolenoidStatus::Solenoid. The parameter `id` of the callback has 16 bits.
pub record SolenoidStatus : Type 0 where
  pub id : ℕ
  pub solenoid_value : SolenoidValue

module _ (pneumatics : Pneumatics) where
  unfoldable pub solenoid_status : ℕ → Solenoid pneumatics → SolenoidType → SolenoidStatus
  solenoid_status id s solenoid_type = record { id = u16 id; solenoid_value = s.value }

  -- SendSolenoidDataTask::run.
  unfoldable pub send_solenoid_data :
      (List SolenoidStatus → Option Bytes)
      → Registry (Solenoid pneumatics) SolenoidType
      → Report × Registry (Solenoid pneumatics) SolenoidType
  unfolding report read_each solenoid_status
  send_solenoid_data serialize w =
      let (ms, w') = read_each single solenoid_status w in
      (report "solenoidstatus" (serialize ms), w')

pub record EncoderData (Value : Type 0) : Type 0 where
  pub id : ℕ
  pub sensor_absolute_position : Value

pub record ImuData (Value : Type 0) : Type 0 where
  pub id : ℕ
  pub w : Value
  pub x : Value
  pub y : Value
  pub z : Value
  pub x_rps : Value
  pub y_rps : Value
  pub z_rps : Value

-- The virtual functions that the tasks call; `none` where one returns `false`.
pub record SensorReadings (Encoder Imu Value : Type 0) : Type 0 where
  pub zero_value : Value
  pub get_absolute_position : Encoder → Value
  pub get_quaternion : Imu → Option (Value × Value × Value × Value)
  pub get_yprrps : Imu → Option (Value × Value × Value)

module _ {Encoder Imu Value : Type 0} (r : SensorReadings Encoder Imu Value) where
  unfoldable pub encoder_data : ℕ → Encoder → EncoderType → EncoderData Value
  encoder_data id e encoder_type = record {
    id = id;
    sensor_absolute_position = r.get_absolute_position e;
  }

  unfoldable pub imu_data : ℕ → Imu → ImuType → ImuData Value
  imu_data id imu imu_type =
      let z = r.zero_value in
      let q : Value × Value × Value × Value = elim (r.get_quaternion imu) [
        | none ↦ (z, z, z, z)
        | some q ↦ q
      ] in
      let v : Value × Value × Value = elim (r.get_yprrps imu) [ none ↦ (z, z, z) | some v ↦ v ] in
      record { id = id; w = q.0; x = q.1; y = q.2; z = q.3; x_rps = v.0; y_rps = v.1; z_rps = v.2 }

  -- SendEncoderDataTask::run and SendIMUDataTask::run.
  unfoldable pub send_encoder_data :
      (List (EncoderData Value) → Option Bytes)
      → Registry Encoder EncoderType
      → Report × Registry Encoder EncoderType
  unfolding report read_each encoder_data
  send_encoder_data serialize w =
      let (ms, w') = read_each cancoder encoder_data w in (report "encoderdata" (serialize ms), w')

  unfoldable pub send_imu_data :
      (List (ImuData Value) → Option Bytes) → Registry Imu ImuType → Report × Registry Imu ImuType
  unfolding report read_each imu_data
  send_imu_data serialize w =
      let (ms, w') = read_each pigeon2 imu_data w in (report "imudata" (serialize ms), w')

pub data Alliance : Type 0 where
  red blue : Alliance
  invalid : Alliance

-- A ck::RobotStatus.
pub record RobotStatus (Value : Type 0) : Type 0 where
  pub robot_state : ControlMode
  pub alliance : Alliance
  pub match_time : Value
  pub game_data : String
  pub is_connected : Bool

-- `RED` for `kRed`, and `BLUE` for anything else.
abbrev pub reported_alliance : Alliance → Alliance
reported_alliance red = red
reported_alliance _ = blue

-- `sendRobotStatusMessage`, with what the three helpers return.
unfoldable pub send_robot_status :
    {Value : Type 0}
    → (RobotStatus Value → Option Bytes)
    → ControlMode
    → Alliance
    → Value
    → String
    → Bool
    → Report
unfolding report
send_robot_status serialize mode alliance match_time game_data connected = report "robotstatus" (
    serialize (record {
      robot_state = mode;
      alliance = reported_alliance alliance;
      match_time = match_time;
      game_data = game_data;
      is_connected = connected;
    }))

pub record Joystick (Value : Type 0) : Type 0 where
  pub index : ℕ
  pub axes : List Value
  pub buttons : ℕ
  pub povs : List ℕ

-- What the HAL reads of the joystick on a port; the buttons with their number.
pub record JoystickReadings (Value : Type 0) : Type 0 where
  pub is_joystick_connected : ℕ → Bool
  pub raw_axes : ℕ → List Value
  pub raw_buttons : ℕ → ℕ
  pub button_count : ℕ → ℕ
  pub raw_povs : ℕ → List ℕ

module _ {Value : Type 0} (r : JoystickReadings Value) where
  unfoldable pub read_joystick : ℕ → Joystick Value
  read_joystick i = record {
    index = i;
    axes = r.raw_axes i;
    buttons = if r.button_count i == 0 then 0 else r.raw_buttons i;
    povs = r.raw_povs i;
  }

  -- The loop over the ports: those that are left, and the next one.
  unfoldable pub read_joysticks : ℕ → ℕ → List (Joystick Value)
  unfolding read_joystick
  read_joysticks zero i = []
  read_joysticks (suc left) i =
      let rest = read_joysticks left (i + 1) in
      if r.is_joystick_connected i then read_joystick i ∷ rest else rest

  -- SendJoystickDataTask::run, with `MAX_NUM_JOYSTICKS` ports.
  unfoldable pub send_joystick_data : (List (Joystick Value) → Option Bytes) → Report
  unfolding report read_joysticks
  send_joystick_data serialize = report "joystickstatus" (serialize (read_joysticks 6 0))
