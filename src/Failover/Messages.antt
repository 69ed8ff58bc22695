-- ===== src/Failover/Messages.antt =====
-- src/main/cpp/failover/FailoverMessageManager.cpp: the messages of the failover subsystems, and their
-- publication through the network's map. A pointer to an element of a repeated field is the index of
-- the element, which stays where it is. The new elements, the enumerators and the serializer are
-- generated code, so they are parameters; the lock is held for whole operations.
use Prim.Native.String.{String}
use ckriopassthru.Base.{
  ℕ, ◌+◌, ◌%◌, ◌^◌, Option, none, some, List, [], ◌∷◌, ◌++◌, ◌==◌, length, update_at, if◌then◌else◌,
}
use ckriopassthru.Talon.{MotorType}
use ckriopassthru.Phoenix.{CanInterface}
use ckriopassthru.Network.{Network, Bytes, place_failover_message}
use ckriopassthru.Motor.Values.{MotorControl}
use ckriopassthru.MotorSettings.{MotorSettings}
use ckriopassthru.Solenoid.Values.{SolenoidControl, SolenoidsControl}
use ckriopassthru.Sensor.Config.{ImuConfig}
use ckriopassthru.Candle.Led.{LedControl}

-- A ck::MotorConfiguration::Motor with the fields that the subsystems set.
pub record MotorConfig (Value : Type 0) : Type 0 where
  pub id : ℕ
  pub controller_type : MotorType
  pub can_network : CanInterface
  pub settings : MotorSettings Value

-- The generated messages: a new element of each repeated field, and the enumerators.
pub record Generated (Value : Type 0) : Type 0 where
  pub new_motor_control : MotorControl Value
  pub new_motor_config : MotorConfig Value
  pub new_solenoid_control : SolenoidControl
  pub new_imu_config : ImuConfig
  pub new_led_control : LedControl Value
  pub percent_output : ℕ
  pub velocity : ℕ
  pub position : ℕ
  pub follower : ℕ
  pub invert_none : ℕ
  pub invert_motor_output : ℕ
  pub oppose_master : ℕ
  pub follow_master : ℕ
  pub brake : ℕ
  pub coast : ℕ
  pub limit_switch_deactivated : ℕ
  pub limit_switch_disabled : ℕ
  pub grbw : ℕ
  pub vbat_off : ℕ

-- The members of FailoverMessageManager, and the counter that is static in `publishMessages`.
pub record Messages (Value : Type 0) : Type 0 where
  pub motor_configuration : List (MotorConfig Value)
  pub motor_control : List (MotorControl Value)
  pub solenoid_control : SolenoidsControl
  pub imu_config : List ImuConfig
  pub led_control : List (LedControl Value)
  pub loop_counter : ℕ

-- What changes the messages and returns a value, in the order of a `do` block.
abbrev pub Build : Type 0 → Type 0 → Type 0
Build Value A = Messages Value → A × Messages Value

module _ {Value A B : Type 0} where
  infixl 5 ◌>>=◌
  abbrev pub ◌>>=◌ : Build Value A → (A → Build Value B) → Build Value B
  (m >>= f) s = let (a, s') = m s in f a s'

  infixl 5 ◌>>◌
  abbrev pub ◌>>◌ : Build Value A → Build Value B → Build Value B
  (m >> k) s = k (m s).1

abbrev pub return : {Value A : Type 0} → A → Build Value A
return a s = (a, s)

abbrev pub edit : {Value : Type 0} → (Messages Value → Messages Value) → Build Value (Unit {0})
edit f s = (tt, f s)

module _ {Value : Type 0} where
  abbrev pub change_motor_control :
      ℕ → (MotorControl Value → MotorControl Value) → Messages Value → Messages Value
  change_motor_control i f s = record s { motor_control = update_at i f s.motor_control }

  abbrev pub change_motor_config :
      ℕ → (MotorConfig Value → MotorConfig Value) → Messages Value → Messages Value
  change_motor_config i f s = record s { motor_configuration = update_at i f s.motor_configuration }

  abbrev pub change_solenoid_control :
      ℕ → (SolenoidControl → SolenoidControl) → Messages Value → Messages Value
  change_solenoid_control i f s = record s {
    solenoid_control = record s.solenoid_control {
      solenoids = update_at i f s.solenoid_control.solenoids;
    };
  }

  abbrev pub change_led_control :
      ℕ → (LedControl Value → LedControl Value) → Messages Value → Messages Value
  change_led_control i f s = record s { led_control = update_at i f s.led_control }

module _ {Value : Type 0} (generated : Generated Value) where
  unfoldable pub add_motor_control : Build Value ℕ
  add_motor_control s = (
    length s.motor_control,
    record s { motor_control = s.motor_control ++ (generated.new_motor_control ∷ []) },
  )

  unfoldable pub add_motor_config : Build Value ℕ
  add_motor_config s = (
    length s.motor_configuration,
    record s { motor_configuration = s.motor_configuration ++ (generated.new_motor_config ∷ []) },
  )

  unfoldable pub add_solenoid_control : Build Value ℕ
  add_solenoid_control s = (
    length s.solenoid_control.solenoids,
    record s {
      solenoid_control = record s.solenoid_control {
        solenoids = s.solenoid_control.solenoids ++ (generated.new_solenoid_control ∷ []);
      };
    },
  )

  unfoldable pub add_imu_config : Build Value ℕ
  add_imu_config s = (
    length s.imu_config,
    record s { imu_config = s.imu_config ++ (generated.new_imu_config ∷ []) },
  )

  unfoldable pub add_led_control : Build Value ℕ
  add_led_control s = (
    length s.led_control,
    record s { led_control = s.led_control ++ (generated.new_led_control ∷ []) },
  )

-- `SerializeToArray` into the buffer of `BUF_SIZE` bytes: the bytes, where it returns `true`.
pub record Serializer (Value : Type 0) : Type 0 where
  pub motor_control_bytes : List (MotorControl Value) → Option Bytes
  pub motor_configuration_bytes : List (MotorConfig Value) → Option Bytes
  pub solenoid_control_bytes : SolenoidsControl → Option Bytes
  pub led_control_bytes : List (LedControl Value) → Option Bytes

unfoldable pub place : String → Option Bytes → Network → Network
unfolding place_failover_message
place group none n = n
place group (some buf) n = (place_failover_message group buf n).0

module _ {Value : Type 0} (serializer : Serializer Value) where
  open serializer use {
    motor_control_bytes, motor_configuration_bytes, solenoid_control_bytes, led_control_bytes,
  }

  unfoldable pub publish_messages : Messages Value × Network → Messages Value × Network
  unfolding place
  publish_messages (s, n) =
      let n1 = place "motorcontrol" (motor_control_bytes s.motor_control) n in
      let n2 = place "solenoidcontrol" (solenoid_control_bytes s.solenoid_control) n1 in
      let n3 = place "motorconfig" (motor_configuration_bytes s.motor_configuration) n2 in
      let n4 = place "ledcontrol" (led_control_bytes s.led_control) n3 in
      (
        record s { loop_counter = (s.loop_counter + 1) % 2 ^ 32 },
        if s.loop_counter % 25 == 0 then n4 else n2,
      )
