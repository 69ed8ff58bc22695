-- ===== src/Sensor/Manager.antt =====
-- How long the sensors of src/main/cpp/CKEncoderManager.cpp and src/main/cpp/CKIMUManager.cpp live.
use ckriopassthru.Base.{
  ==-ne, ==-refl, ◌∙◌, ℕ, ◌≡◌, ◌≢◌, true, Option, none, some, List, arith, is_some, ltb,
}
use ckriopassthru.Base.Map.{lookup, has, lookup-insert, insert-From, IsSorted}
use ckriopassthru.Phoenix.{CanInterface}
use ckriopassthru.Registry.{Registry}
use ckriopassthru.Registry.Lifetime.{Manager, Call, heartbeats, run, IsSilent, device_exists-run}
use ckriopassthru.Sensor.{
  Sensors, EncoderType, cancoder, ImuType, pigeon2, register_sensor, register_encoder, register_imu,
  new_encoder, new_imu,
}

-- The arguments of a registration.
pub record Registration (T : Type 0) : Type 0 where
  pub id : ℕ
  pub kind : T
  pub can : CanInterface

module _ {D T : Type 0} where
  devices-register_sensor :
      (made : Option D) (id j : ℕ) (kind : T) (r : Registry D T)
      → id ≢ j
      → lookup j (register_sensor made id kind r).devices ≡ lookup j r.devices
  unfolding register_sensor
  devices-register_sensor none id j kind r ne = ground arith
  devices-register_sensor (some d) id j kind r ne =
      ground (arith, ne, lookup-insert id j d r.devices)

  register_sensor-makes :
      (made : Option D) (id : ℕ) (kind : T) (r : Registry D T)
      → is_some made ≡ true
      → is_some (lookup id (register_sensor made id kind r).devices) ≡ true
  unfolding register_sensor has
  register_sensor-makes none id kind r h = ground (arith, h)
  register_sensor-makes (some d) id kind r h = ground (arith, lookup-insert id id d r.devices)

  -- The manager of the sensors that `make` makes; `make` gives no sensor for an unknown type.
  pub sensor_manager : T → (Registration T → Option D) → Manager D T (Registration T)
  unfolding register_sensor
  sensor_manager initial make = record {
    initial = initial;
    register = λ a r. register_sensor (make a) a.id a.kind r;
    key = λ a. a.id;
    Makes = λ a. is_some (make a) ≡ true;
    register-Sorted = λ a r h. insert-From 0 a.id 250 r.heartbeats (omega arith) h;
    devices-register_other = λ a j r ne. devices-register_sensor (make a) a.id j a.kind r ne;
    heartbeats-register_other =
        λ a j r ne. lookup-insert a.id j 250 r.heartbeats ∙ rw (==-ne a.id j ne);
    heartbeats-register_made =
        λ a r h. lookup-insert a.id a.id 250 r.heartbeats ∙ rw (==-refl a.id);
    register-makes = λ a r h. register_sensor-makes (make a) a.id a.kind r h;
  }

module _ (sensors : Sensors) where
  open sensors use {Encoder, Imu}

  abbrev pub encoder_manager : Manager Encoder EncoderType (Registration EncoderType)
  encoder_manager = sensor_manager cancoder (λ a. new_encoder sensors a.kind a.id a.can)

  abbrev pub imu_manager : Manager Imu ImuType (Registration ImuType)
  imu_manager = sensor_manager pigeon2 (λ a. new_imu sensors a.kind a.id a.can)

  -- Where the counters are sorted by id, an encoder that is registered with a known type exists for
  -- the next 249 heartbeats of its manager and is gone with the 250th, as long as no call registers
  -- the id again or deletes it.
  encoder_exists-run :
      (a : Registration EncoderType) (r : Registry Encoder EncoderType)
      (cs : List (Call Encoder EncoderType (Registration EncoderType)))
      → IsSorted r.heartbeats
      → is_some (new_encoder sensors a.kind a.id a.can) ≡ true
      → IsSilent encoder_manager a.id cs
      → is_some (
          lookup a.id
            (run encoder_manager (register_encoder sensors a.id a.kind a.can r) cs).devices)
        ≡ ltb (heartbeats cs) 250
  unfolding register_encoder sensor_manager
  encoder_exists-run a r cs sorted made silent =
      device_exists-run encoder_manager a r cs sorted made silent

  -- Where the counters are sorted by id, an IMU that is registered with a known type exists for the
  -- next 249 heartbeats of its manager and is gone with the 250th, as long as no call registers the
  -- id again.
  imu_exists-run :
      (a : Registration ImuType) (r : Registry Imu ImuType)
      (cs : List (Call Imu ImuType (Registration ImuType)))
      → IsSorted r.heartbeats
      → is_some (new_imu sensors a.kind a.id a.can) ≡ true
      → IsSilent imu_manager a.id cs
      → is_some
          (lookup a.id (run imu_manager (register_imu sensors a.id a.kind a.can r) cs).devices)
        ≡ ltb (heartbeats cs) 250
  unfolding register_imu sensor_manager
  imu_exists-run a r cs sorted made silent = device_exists-run imu_manager a r cs sorted made silent
