-- ===== src/Motor.antt =====
-- src/main/cpp/MotorManager.cpp: the motors by id, with a heartbeat. A motor object belongs to its
-- map. The locks are held for whole operations; console output is left out.
pub mod Lease
pub mod Invariant
pub mod Trace
pub mod Each
pub mod Values
use ckriopassthru.Base.{ℕ, ◌<◌, ◌≡◌, Bool, Option, none, some, ltb, if◌then◌else◌}
use ckriopassthru.Base.Map.{Map, lookup, has, insert}
use ckriopassthru.Heartbeat.{sweep, max_heartbeat_ticks}
use ckriopassthru.Registry.{Registry, delete, on_device, for_each}
use ckriopassthru.Registry
use ckriopassthru.MotorConfig.{MotorConfigs, delete_config, no_configs}
use ckriopassthru.Phoenix.{CanInterface, get_can_interface_name}
use ckriopassthru.Talon.{Talon, MotorType, talon_fx, talon_srx, other_type}

-- MotorManager's maps, and the MotorConfigManager that `deleteMotor` changes.
pub record Motors (Motor Msg : Type 0) : Type 0 where
  pub manager : Registry Motor MotorType
  pub configs : MotorConfigs Msg

module _ {Motor Msg : Type 0} where
  unfoldable pub no_motors : Motors Motor Msg
  unfolding Registry.empty no_configs
  no_motors = record { manager = Registry.empty; configs = no_configs }

  -- `onMotor` by id.
  unfoldable pub on_motor :
      ℕ → (ℕ → Motor → MotorType → Motor) → Motors Motor Msg → Motors Motor Msg
  unfolding on_device
  on_motor id func w = record w {
    manager = (on_device {0, 0, 0} talon_fx id (λ i d t s. (func i d t, s)) w.manager tt).0;
  }

  unfoldable pub for_each_motor :
      (ℕ → Motor → MotorType → Motor) → Motors Motor Msg → Motors Motor Msg
  unfolding for_each
  for_each_motor func w = record w { manager = for_each talon_fx func w.manager }

  unfoldable pub delete_motor : ℕ → Motors Motor Msg → Motors Motor Msg
  unfolding delete delete_config
  delete_motor id w = record w {
    manager = delete id w.manager;
    configs = delete_config id w.configs;
  }

  unfoldable pub process_heartbeat : Motors Motor Msg → Motors Motor Msg
  unfolding delete_motor
  process_heartbeat w =
      let (hs, w') = sweep delete_motor w.manager.heartbeats w in
      record w' { manager = record w'.manager { heartbeats = hs } }

  unfoldable pub motor_exists : ℕ → Motors Motor Msg → Bool
  motor_exists id w = has id w.manager.devices

  unfoldable pub get_motor : ℕ → Motors Motor Msg → Option Motor
  get_motor id w = lookup id w.manager.devices

module _ (talon : Talon) where
  open talon use {Motor, new_talon_fx, new_talon_srx}

  -- The `switch`: no object is made for a type that is not an enumerator.
  unfoldable pub new_motor : MotorType → ℕ → CanInterface → Option Motor
  new_motor talon_fx id can = some (new_talon_fx id (get_can_interface_name can))
  new_motor talon_srx id can = some (new_talon_srx id)
  new_motor (other_type n) id can = none

  unfoldable pub store_motor :
      ℕ → MotorType → Motor → Registry Motor MotorType → Registry Motor MotorType
  store_motor id motor_type motor r = record r {
    devices = insert id motor r.devices;
    types = insert id motor_type r.types;
  }

  unfoldable pub renew : ℕ → Registry Motor MotorType → Registry Motor MotorType
  renew id r = record r { heartbeats = insert id max_heartbeat_ticks r.heartbeats }

  unfoldable pub register_motor :
      {Msg : Type 0} → ℕ → MotorType → CanInterface → Motors Motor Msg → Motors Motor Msg
  unfolding new_motor store_motor renew
  register_motor id motor_type can w =
      if ltb id 64
      then (if has id w.manager.devices
          then record w { manager = renew id w.manager }
          else elim (new_motor motor_type id can) [
            | none ↦ w
            | some motor ↦ record w {
              manager = renew id (store_motor id motor_type motor w.manager);
            }
          ])
      else w
