-- ===== src/Sensor/Config.antt =====
-- src/main/cpp/tasks/ApplyIMUConfigTask.cpp and src/main/cpp/tasks/ApplyEncoderConfigTask.cpp: a sensor
-- is registered with every message, and configured when its message changed. The generated messages'
-- comparison, default value and parsers are parameters.
pub mod Again
use Prim.Native.String.{String}
use ckriopassthru.Base.{
  ℕ, Bool, true, false, Option, none, some, List, [], ◌∷◌, ◌&&◌, if◌then◌else◌,
}
use ckriopassthru.Base.Map.{Map, lookup, insert}
use ckriopassthru.MotorConfig.{u16}
use ckriopassthru.Network.{Network, Bytes, get_message}
use ckriopassthru.Phoenix.{CanInterface}
use ckriopassthru.Registry.{Registry, index, on_device}
use ckriopassthru.Sensor.{
  Sensors, EncoderType, cancoder, other_encoder, ImuType, pigeon2, register_encoder, register_imu,
}

-- A task's state: the manager and the messages applied last.
pub record Configured (D T Msg : Type 0) : Type 0 where
  pub manager : Registry D T
  pub prev : Map Msg

-- What the tasks read of their messages, the types after the cast.
pub record ImuConfig : Type 0 where
  pub id : ℕ
  pub imu_type : ImuType
  pub can_network : CanInterface
  pub mount_pose_axis_forward : ℕ
  pub mount_pose_axis_up : ℕ

pub record EncoderConfig (Value : Type 0) : Type 0 where
  pub id : ℕ
  pub encoder_type : EncoderType
  pub can_network : CanInterface
  pub sensor_source : ℕ
  pub initialization_strategy : ℕ
  pub magnetic_offset : Value

abbrev pub imu_config_message_group : String
imu_config_message_group = "imuconfig"

abbrev pub encoder_config_message_group : String
encoder_config_message_group = "encoderconfig"

-- The part of the loops' bodies after the registration, for the message `m` of the key `id`: `func`
-- configures a device and says whether that succeeded.
unfoldable pub configure_changed :
    {D T Msg : Type 0}
    → T
    → (Msg → Msg → Bool)
    → Msg
    → (D → T → D × Bool)
    → ℕ
    → Msg
    → Configured D T Msg
    → Configured D T Msg
unfolding index on_device
configure_changed initial equivalent default_msg func id m c =
    let (before, prev) = index default_msg id c.prev in
    let (manager, success) =
      if equivalent m before
      then (c.manager, true)
      else on_device initial id (λ i d t success. ((func d t).0, success && (func d t).1)) c.manager
          true in
    record { manager = manager; prev = if success then insert id m prev else prev }

module _ (sensors : Sensors) where
  open sensors use {
    Encoder, Imu, Value, config_sensor_source, config_initialization_strategy, config_magnet_offset,
    config_mount_pose,
  }

  -- The callback of `onIMU`.
  unfoldable pub configure_imu : ImuConfig → Imu → ImuType → Imu × Bool
  configure_imu m imu kind = config_mount_pose m.mount_pose_axis_forward m.mount_pose_axis_up imu

  -- The callback of `onEncoder`: the result of the magnet offset is not read.
  unfoldable pub configure_encoder : EncoderConfig Value → Encoder → EncoderType → Encoder × Bool
  configure_encoder m e kind =
      let (e1, a) = config_sensor_source m.sensor_source e in
      let (e2, b) = config_initialization_strategy m.initialization_strategy e1 in
      (
        elim kind [ cancoder ↦ config_magnet_offset m.magnetic_offset e2 | other_encoder n ↦ e2 ],
        a && b,
      )

  module _ (equivalent : ImuConfig → ImuConfig → Bool) (default_msg : ImuConfig) where
    unfoldable pub apply_imu_config :
        ImuConfig → Configured Imu ImuType ImuConfig → Configured Imu ImuType ImuConfig
    unfolding configure_changed configure_imu
    apply_imu_config m c =
        configure_changed pigeon2 equivalent default_msg (configure_imu m) (u16 m.id) m (record c {
          manager = register_imu sensors (u16 m.id) m.imu_type m.can_network c.manager;
        })

    unfoldable pub apply_imu_configs :
        List ImuConfig → Configured Imu ImuType ImuConfig → Configured Imu ImuType ImuConfig
    unfolding apply_imu_config
    apply_imu_configs [] c = c
    apply_imu_configs (m ∷ ms) c = apply_imu_configs ms (apply_imu_config m c)

    unfoldable pub run_imu_config :
        (Bytes → Option (List ImuConfig))
        → Network × Configured Imu ImuType ImuConfig
        → Network × Configured Imu ImuType ImuConfig
    unfolding apply_imu_configs
    run_imu_config parse (n, c) =
        let (n', message) = get_message imu_config_message_group n in
        (
          n',
          elim message [
            | none ↦ c
            | some buf ↦ elim (parse buf) [ none ↦ c | some ms ↦ apply_imu_configs ms c ]
          ],
        )

  module _ (equivalent : EncoderConfig Value → EncoderConfig Value → Bool)
      (default_msg : EncoderConfig Value) where
    unfoldable pub apply_encoder_config :
        EncoderConfig Value
        → Configured Encoder EncoderType (EncoderConfig Value)
        → Configured Encoder EncoderType (EncoderConfig Value)
    unfolding configure_changed configure_encoder
    apply_encoder_config m c =
        configure_changed cancoder equivalent default_msg (configure_encoder m) (u16 m.id) m
          (record c {
            manager = register_encoder sensors (u16 m.id) m.encoder_type m.can_network c.manager;
          })

    unfoldable pub apply_encoder_configs :
        List (EncoderConfig Value)
        → Configured Encoder EncoderType (EncoderConfig Value)
        → Configured Encoder EncoderType (EncoderConfig Value)
    unfolding apply_encoder_config
    apply_encoder_configs [] c = c
    apply_encoder_configs (m ∷ ms) c = apply_encoder_configs ms (apply_encoder_config m c)

    unfoldable pub run_encoder_config :
        (Bytes → Option (List (EncoderConfig Value)))
        → Network × Configured Encoder EncoderType (EncoderConfig Value)
        → Network × Configured Encoder EncoderType (EncoderConfig Value)
    unfolding apply_encoder_configs
    run_encoder_config parse (n, c) =
        let (n', message) = get_message encoder_config_message_group n in
        (
          n',
          elim message [
            | none ↦ c
            | some buf ↦ elim (parse buf) [ none ↦ c | some ms ↦ apply_encoder_configs ms c ]
          ],
        )
