-- ===== src/Drivers.antt =====
-- src/main/cpp/utils/drivers/CKCANCoder.cpp and src/main/cpp/utils/drivers/CKPigeon2.cpp: the drivers of the
-- encoders and the IMUs. The devices are the Phoenix library's, so they are a parameter, and so are the
-- numbers of its frames. A call that fails leaves what the caller passed for its results.
use Prim.Native.String.{String}
use ckriopassthru.Base.{
  ℕ, Bool, true, false, Option, none, some, List, [], ◌∷◌, ◌&&◌, ◌==◌, if◌then◌else◌,
}
use ckriopassthru.Arithmetic.{Arithmetic, number}
use ckriopassthru.Phoenix.{ErrorCode, is_success, run_phoenix_function_with_retry}
use ckriopassthru.Sensor.{Sensors}
use ckriopassthru.Yaw.{normalize_yaw, deg2rad}

-- `MagnetFieldStrength` of the library, and yaw, pitch and roll.
pub data MagnetFieldStrength : Type 0 where
  invalid_unknown bad_range_red_led adequate_orange_led good_green_led : MagnetFieldStrength

pub record Angles (Value : Type 0) : Type 0 where
  pub yaw : Value
  pub pitch : Value
  pub roll : Value

-- The library's devices. A call gives the device back with its error code.
pub record Devices (Value : Type 0) : Type 1 where
  pub CanCoder : Type 0
  pub new_can_coder : ℕ → String → CanCoder
  pub get_absolute_position : CanCoder → Value
  pub get_position : CanCoder → Value
  pub get_velocity : CanCoder → Value
  pub get_magnet_field_strength : CanCoder → MagnetFieldStrength
  pub config_sensor_initialization_strategy : ℕ → CanCoder → CanCoder × ErrorCode
  pub set_position : Value → CanCoder → CanCoder × ErrorCode
  pub config_magnet_offset : Value → CanCoder → CanCoder
  pub Pigeon : Type 0
  pub new_pigeon : ℕ → String → Pigeon
  pub fast_frames : List ℕ
  pub set_status_frame_period : ℕ → ℕ → Pigeon → Pigeon × ErrorCode
  pub get_yaw_pitch_roll : Pigeon → ErrorCode × Angles Value
  pub get_raw_gyro : Pigeon → ErrorCode × Angles Value
  pub set_yaw : Value → Pigeon → Pigeon × ErrorCode
  pub set_accum_z_angle : Value → Pigeon → Pigeon × ErrorCode
  pub get_yaw : Pigeon → Value
  pub get_pitch : Pigeon → Value
  pub get_roll : Pigeon → Value
  pub config_mount_pose : ℕ → ℕ → Pigeon → Pigeon × ErrorCode

-- `runPhoenixFunctionWithRetry`, whose fuel is enough.
abbrev with_retry : {D : Type 0} → (D → D × ErrorCode) → D → D × Bool
with_retry func d = elim (run_phoenix_function_with_retry func d) [ none ↦ (d, false) | some r ↦ r ]

module _ {Value : Type 0} (arithmetic : Arithmetic Value) (devices : Devices Value) where
  open arithmetic use {add, subtract}
  open devices use {
    CanCoder, new_can_coder, get_absolute_position, get_position, get_velocity,
    get_magnet_field_strength, config_sensor_initialization_strategy, set_position,
    config_magnet_offset, Pigeon, new_pigeon, fast_frames, set_status_frame_period,
    get_yaw_pitch_roll, get_raw_gyro, set_yaw, set_accum_z_angle, get_yaw, get_pitch, get_roll,
    config_mount_pose,
  }

  -- `m_sensor_source` is the number that the enumeration is cast from: 0 is relative, 1 absolute.
  pub record CkCanCoder : Type 0 where
    pub can_coder : CanCoder
    pub sensor_source : ℕ

  unfoldable pub ck_can_coder : ℕ → String → CkCanCoder
  ck_can_coder device_number canbus = record {
    can_coder = new_can_coder device_number canbus;
    sensor_source = 0;
  }

  unfoldable pub encoder_position : CkCanCoder → Value
  encoder_position e =
      if e.sensor_source == 0
      then get_position e.can_coder
      else if e.sensor_source == 1
      then get_absolute_position e.can_coder
      else number arithmetic 0

  unfoldable pub encoder_velocity : CkCanCoder → Value
  encoder_velocity e = get_velocity e.can_coder

  unfoldable pub is_faulted : CkCanCoder → Bool
  is_faulted e = elim (get_magnet_field_strength e.can_coder) [
    | bad_range_red_led ↦ true
    | invalid_unknown ↦ true
    | _ ↦ false
  ]

  unfoldable pub config_sensor_source : ℕ → CkCanCoder → CkCanCoder × Bool
  config_sensor_source source e = (record e { sensor_source = source }, true)

  -- A call under the retry on the device.
  unfoldable pub on_can_coder : (CanCoder → CanCoder × ErrorCode) → CkCanCoder → CkCanCoder × Bool
  on_can_coder func e =
      let (d, ok) = with_retry func e.can_coder in (record e { can_coder = d }, ok)

  unfoldable pub config_initialization_strategy : ℕ → CkCanCoder → CkCanCoder × Bool
  unfolding on_can_coder
  config_initialization_strategy strategy e =
      on_can_coder (config_sensor_initialization_strategy strategy) e

  unfoldable pub reset_encoder : CkCanCoder → CkCanCoder × Bool
  unfolding on_can_coder
  reset_encoder e = on_can_coder (set_position (number arithmetic 0)) e

  pub record CkPigeon2 : Type 0 where
    pub pigeon : Pigeon
    pub yaw_angle_offset : Value

  unfoldable pub on_pigeon : (Pigeon → Pigeon × ErrorCode) → CkPigeon2 → CkPigeon2 × Bool
  on_pigeon func p = let (d, ok) = with_retry func p.pigeon in (record p { pigeon = d }, ok)

  -- The calls of the constructor, each frame at 5 ms.
  unfoldable pub set_frames : List ℕ → CkPigeon2 → CkPigeon2
  unfolding on_pigeon
  set_frames [] p = p
  set_frames (f ∷ fs) p = set_frames fs (on_pigeon (set_status_frame_period f 5) p).0

  unfoldable pub ck_pigeon2 : ℕ → String → CkPigeon2
  unfolding set_frames
  ck_pigeon2 device_number canbus =
      set_frames fast_frames (record {
        pigeon = new_pigeon device_number canbus;
        yaw_angle_offset = number arithmetic 0;
      })

  -- `setYaw`; each loop of `normalizeYaw` has the fuel.
  unfoldable pub set_imu_yaw : ℕ → Value → CkPigeon2 → Option (CkPigeon2 × Bool)
  unfolding normalize_yaw
  set_imu_yaw fuel yaw p =
      let (code, angles) = get_yaw_pitch_roll p.pigeon in
      elim (is_success code) [
        | false ↦ some (p, false)
        | true ↦ elim (normalize_yaw arithmetic fuel angles.yaw) [
          | none ↦ none
          | some actual ↦ elim (normalize_yaw arithmetic fuel yaw) [
            | none ↦ none
            | some wanted ↦ elim (normalize_yaw arithmetic fuel (subtract wanted actual)) [
              | none ↦ none
              | some offset ↦ some (record p { yaw_angle_offset = offset }, true)
            ]
          ]
        ]
      ]

  unfoldable pub reset_imu : CkPigeon2 → CkPigeon2 × Bool
  unfolding on_pigeon
  reset_imu p =
      let (p1, yaw_reset) = on_pigeon (set_yaw (number arithmetic 0)) p in
      let (p2, angle_reset) = on_pigeon (set_accum_z_angle (number arithmetic 0)) p1 in
      (p2, true && yaw_reset && angle_reset)

  unfoldable pub imu_yaw : CkPigeon2 → Value
  unfolding deg2rad
  imu_yaw p = deg2rad arithmetic (get_yaw p.pigeon)

  unfoldable pub imu_pitch : CkPigeon2 → Value
  unfolding deg2rad
  imu_pitch p = deg2rad arithmetic (get_pitch p.pigeon)

  unfoldable pub imu_roll : CkPigeon2 → Value
  unfolding deg2rad
  imu_roll p = deg2rad arithmetic (get_roll p.pigeon)

  -- `getYPR`: what the array of the caller holds afterwards, and whether the call succeeded.
  unfoldable pub get_ypr : ℕ → CkPigeon2 → Angles Value → Option (Angles Value × Bool)
  unfolding normalize_yaw deg2rad
  get_ypr fuel p ypr =
      let (code, angles) = get_yaw_pitch_roll p.pigeon in
      elim (is_success code) [
        | false ↦ some (ypr, false)
        | true ↦ elim (normalize_yaw arithmetic fuel angles.yaw) [
          | none ↦ none
          | some actual ↦ elim (normalize_yaw arithmetic fuel (add actual p.yaw_angle_offset)) [
            | none ↦ none
            | some yaw ↦ some (
              record {
                yaw = deg2rad arithmetic yaw;
                pitch = deg2rad arithmetic angles.pitch;
                roll = deg2rad arithmetic angles.roll;
              },
              true,
            )
          ]
        ]
      ]

  unfoldable pub get_ypr_rps : CkPigeon2 → Angles Value → Angles Value × Bool
  get_ypr_rps p yprrps =
      let (code, rates) = get_raw_gyro p.pigeon in
      if is_success code then (rates, true) else (yprrps, false)

  unfoldable pub config_imu_mount_pose : ℕ → ℕ → CkPigeon2 → CkPigeon2 × Bool
  unfolding on_pigeon
  config_imu_mount_pose forward up p = on_pigeon (config_mount_pose forward up) p

  -- The drivers as the managers of the sensors see them.
  abbrev pub sensors : Sensors
  sensors = record {
    Encoder = CkCanCoder;
    Imu = CkPigeon2;
    Value = Value;
    new_cancoder = ck_can_coder;
    new_pigeon2 = ck_pigeon2;
    config_sensor_source = config_sensor_source;
    config_initialization_strategy = config_initialization_strategy;
    config_magnet_offset = λ v e. record e { can_coder = config_magnet_offset v e.can_coder };
    config_mount_pose = config_imu_mount_pose;
  }
