-- ===== src/Sensor.antt =====
-- src/main/cpp/CKEncoderManager.cpp and src/main/cpp/CKIMUManager.cpp: encoders and IMUs by id. Their
-- drivers are a parameter, which Drivers fills with CKCANCoder and CKPigeon2.
pub mod Manager
pub mod Config
use Prim.Native.String.{String}
use ckriopassthru.Base.{ℕ, Bool, Option, none, some, if◌then◌else◌}
use ckriopassthru.Base.Map.{lookup, has, insert}
use ckriopassthru.Heartbeat.{max_heartbeat_ticks}
use ckriopassthru.Phoenix.{CanInterface, get_can_interface_name}
use ckriopassthru.Registry.{Registry, for_each, on_device, delete, process_heartbeat}

-- `(EncoderType)` and `(IMUType)` of a number of the message: the enumerators, and any other number.
pub data EncoderType : Type 0 where
  cancoder : EncoderType
  other_encoder : ℕ → EncoderType

pub data ImuType : Type 0 where
  pigeon2 navx : ImuType
  other_imu : ℕ → ImuType

-- The body that `registerEncoder` and `registerIMU` share: `made` is what the `switch` makes.
unfoldable pub register_sensor {ℓ κ} :
    {D : Type ℓ} {T : Type κ} → Option D → ℕ → T → Registry D T → Registry D T
register_sensor made id kind r = record r {
  devices =
      if has id r.devices
      then r.devices
      else elim made [ none ↦ r.devices | some d ↦ insert id d r.devices ];
  types = insert id kind r.types;
  heartbeats = insert id max_heartbeat_ticks r.heartbeats;
}

-- The drivers. A call gives the sensor back with whether it succeeded.
pub record Sensors : Type 1 where
  pub Encoder : Type 0
  pub Imu : Type 0
  pub Value : Type 0
  pub new_cancoder : ℕ → String → Encoder
  pub new_pigeon2 : ℕ → String → Imu
  pub config_sensor_source : ℕ → Encoder → Encoder × Bool
  pub config_initialization_strategy : ℕ → Encoder → Encoder × Bool
  pub config_magnet_offset : Value → Encoder → Encoder
  pub config_mount_pose : ℕ → ℕ → Imu → Imu × Bool

-- The operations that the two managers have in common with the others.
module _ {ℓ} {D : Type ℓ} where
  unfoldable pub for_each_encoder :
      (ℕ → D → EncoderType → D) → Registry D EncoderType → Registry D EncoderType
  unfolding for_each
  for_each_encoder func r = for_each cancoder func r

  unfoldable pub on_encoder :
      {S : Type 0}
      → ℕ
      → (ℕ → D → EncoderType → S → D × S)
      → Registry D EncoderType
      → S
      → Registry D EncoderType × S
  unfolding on_device
  on_encoder id func r s = on_device cancoder id func r s

  unfoldable pub delete_encoder : ℕ → Registry D EncoderType → Registry D EncoderType
  unfolding delete
  delete_encoder id r = delete id r

  unfoldable pub process_encoder_heartbeat : Registry D EncoderType → Registry D EncoderType
  unfolding process_heartbeat
  process_encoder_heartbeat r = process_heartbeat r

  unfoldable pub for_each_imu : (ℕ → D → ImuType → D) → Registry D ImuType → Registry D ImuType
  unfolding for_each
  for_each_imu func r = for_each pigeon2 func r

  unfoldable pub on_imu :
      {S : Type 0}
      → ℕ
      → (ℕ → D → ImuType → S → D × S)
      → Registry D ImuType
      → S
      → Registry D ImuType × S
  unfolding on_device
  on_imu id func r s = on_device pigeon2 id func r s

  unfoldable pub delete_imu : ℕ → Registry D ImuType → Registry D ImuType
  unfolding delete
  delete_imu id r = delete id r

  unfoldable pub process_imu_heartbeat : Registry D ImuType → Registry D ImuType
  unfolding process_heartbeat
  process_imu_heartbeat r = process_heartbeat r

module _ (sensors : Sensors) where
  open sensors use {Encoder, Imu, new_cancoder, new_pigeon2}

  unfoldable pub new_encoder : EncoderType → ℕ → CanInterface → Option Encoder
  new_encoder cancoder id can = some (new_cancoder id (get_can_interface_name can))
  new_encoder (other_encoder n) id can = none

  unfoldable pub register_encoder :
      ℕ → EncoderType → CanInterface → Registry Encoder EncoderType → Registry Encoder EncoderType
  unfolding register_sensor new_encoder
  register_encoder id kind can r = register_sensor (new_encoder kind id can) id kind r

  unfoldable pub encoder_exists : ℕ → Registry Encoder EncoderType → Bool
  encoder_exists id r = has id r.devices

  unfoldable pub get_encoder : ℕ → Registry Encoder EncoderType → Option Encoder
  get_encoder id r = lookup id r.devices

  unfoldable pub new_imu : ImuType → ℕ → CanInterface → Option Imu
  new_imu pigeon2 id can = some (new_pigeon2 id (get_can_interface_name can))
  new_imu navx id can = none
  new_imu (other_imu n) id can = none

  unfoldable pub register_imu :
      ℕ → ImuType → CanInterface → Registry Imu ImuType → Registry Imu ImuType
  unfolding register_sensor new_imu
  register_imu id kind can r = register_sensor (new_imu kind id can) id kind r

  unfoldable pub imu_exists : ℕ → Registry Imu ImuType → Bool
  imu_exists id r = has id r.devices

  unfoldable pub get_imu : ℕ → Registry Imu ImuType → Option Imu
  get_imu id r = lookup id r.devices
