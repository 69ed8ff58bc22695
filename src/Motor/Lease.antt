-- ===== src/Motor/Lease.antt =====
-- The motors of src/main/cpp/MotorManager.cpp seen one id at a time: what each operation does to the
-- motor, its type, its counter and its two configuration messages.
use ckriopassthru.Base.{
  ℕ, ◌≡◌, refl, Option, none, some, arith, ◌==◌, ltb, if◌then◌else◌, inl, inr, Option-cases, ==-eq,
}
use ckriopassthru.Base.Map.{IsSorted, lookup, has, lookup-insert, insert-From}
use ckriopassthru.Heartbeat.{expires, age, lookup-sweep, obs-sweep, sweep-From, max_heartbeat_ticks}
use ckriopassthru.Registry.{delete}
use ckriopassthru.Registry.Entry.{devices-delete, types-delete}
use ckriopassthru.MotorConfig.{motor_msgs-delete_config, prev_motor_msgs-delete_config}
use ckriopassthru.Phoenix.{CanInterface}
use ckriopassthru.Talon.{Talon, MotorType}
use ckriopassthru.Motor.{Motors, delete_motor, process_heartbeat, new_motor, register_motor}

pub record Entry (Motor Msg : Type 0) : Type 0 where
  pub motor : Option Motor
  pub kind : Option MotorType
  pub ticks : Option ℕ
  pub config : Option Msg
  pub prev_config : Option Msg

module _ {Motor Msg : Type 0} where
  abbrev pub entry : ℕ → Motors Motor Msg → Entry Motor Msg
  entry k w = record {
    motor = lookup k w.manager.devices;
    kind = lookup k w.manager.types;
    ticks = lookup k w.manager.heartbeats;
    config = lookup k w.configs.motor_msgs;
    prev_config = lookup k w.configs.prev_motor_msgs;
  }

  abbrev pub no_entry : Entry Motor Msg
  no_entry = record { motor = none; kind = none; ticks = none; config = none; prev_config = none }

  -- One tick of the specification: the counter falls, and at 0 all that the id has is gone.
  abbrev pub tick : Entry Motor Msg → Entry Motor Msg
  tick e = if expires e.ticks then no_entry else record e { ticks = age e.ticks }

  abbrev Sorted : Motors Motor Msg → Type 0
  Sorted w = IsSorted w.manager.heartbeats

  pub devices-delete_motor :
      (k j : ℕ) (w : Motors Motor Msg)
      → lookup j (delete_motor k w).manager.devices
        ≡ (if k == j then none else lookup j w.manager.devices)
  unfolding delete_motor
  devices-delete_motor k j w = devices-delete k j w.manager

  pub types-delete_motor :
      (k j : ℕ) (w : Motors Motor Msg)
      → lookup j (delete_motor k w).manager.types
        ≡ (if k == j then none else lookup j w.manager.types)
  unfolding delete_motor
  types-delete_motor k j w = types-delete k j w.manager

  pub heartbeats-delete_motor :
      (k : ℕ) (w : Motors Motor Msg) → (delete_motor k w).manager.heartbeats ≡ w.manager.heartbeats
  unfolding delete_motor delete
  heartbeats-delete_motor k w = refl

  config-delete_motor :
      (k j : ℕ) (w : Motors Motor Msg)
      → lookup j (delete_motor k w).configs.motor_msgs
        ≡ (if k == j then none else lookup j w.configs.motor_msgs)
  unfolding delete_motor
  config-delete_motor k j w = motor_msgs-delete_config k j w.configs

  prev_config-delete_motor :
      (k j : ℕ) (w : Motors Motor Msg)
      → lookup j (delete_motor k w).configs.prev_motor_msgs
        ≡ (if k == j then none else lookup j w.configs.prev_motor_msgs)
  unfolding delete_motor
  prev_config-delete_motor k j w = prev_motor_msgs-delete_config k j w.configs

  -- Where the counters are sorted by id, one heartbeat of the motor manager lowers the counter of
  -- every id by one tick, and at 0 takes away its motor, type, counter and both configuration
  -- messages.
  pub entry-process_heartbeat :
      (j : ℕ) (w : Motors Motor Msg)
      → IsSorted w.manager.heartbeats
      → entry j (process_heartbeat w) ≡ tick (entry j w)
  unfolding process_heartbeat
  entry-process_heartbeat j w h =
      let hs = w.manager.heartbeats in
      ground (
        arith,
        lookup-sweep delete_motor 0 j hs w h,
        obs-sweep delete_motor (λ i s. lookup i s.manager.devices) none devices-delete_motor 0 j hs
            w h,
        obs-sweep delete_motor (λ i s. lookup i s.manager.types) none types-delete_motor 0 j hs w h,
        obs-sweep delete_motor (λ i s. lookup i s.configs.motor_msgs) none config-delete_motor 0 j
            hs w h,
        obs-sweep delete_motor (λ i s. lookup i s.configs.prev_motor_msgs) none
            prev_config-delete_motor 0 j hs w h,
      )

  pub process_heartbeat-Sorted :
      (w : Motors Motor Msg)
      → IsSorted w.manager.heartbeats
      → IsSorted (process_heartbeat w).manager.heartbeats
  unfolding process_heartbeat
  process_heartbeat-Sorted w h = sweep-From delete_motor 0 w.manager.heartbeats w h

module _ (talon : Talon) {Msg : Type 0} where
  open talon use {Motor}

  -- Registration of the specification: an id below 64 keeps its motor, or gets a new one if its type
  -- is known, and its counter starts again.
  abbrev pub register : ℕ → MotorType → CanInterface → Entry Motor Msg → Entry Motor Msg
  register id motor_type can e =
      if ltb id 64
      then elim e.motor [
        | some m ↦ record e { ticks = some max_heartbeat_ticks }
        | none ↦ elim (new_motor talon motor_type id can) [
          | none ↦ e
          | some m ↦ record e {
            motor = some m;
            kind = some motor_type;
            ticks = some max_heartbeat_ticks;
          }
        ]
      ]
      else e

  -- Registering a motor under an id below 64 keeps its motor and type, or makes a motor if the type
  -- is known, and restarts its counter; any other registration, and any other id, is left as it
  -- was.
  pub entry-register_motor :
      (id j : ℕ) (motor_type : MotorType) (can : CanInterface) (w : Motors Motor Msg)
      → entry j (register_motor talon id motor_type can w)
        ≡ (if id == j then register id motor_type can (entry j w) else entry j w)
  unfolding register_motor has
  entry-register_motor id j motor_type can w =
      let renewed = lookup-insert id j max_heartbeat_ticks w.manager.heartbeats in
      elim (Option-cases (new_motor talon motor_type id can)) [
        | inl e ↦ ground (arith, e, renewed, ==-eq id j)
        | inr (m, e) ↦ ground (
          arith,
          e,
          renewed,
          ==-eq id j,
          lookup-insert id j m w.manager.devices,
          lookup-insert id j motor_type w.manager.types,
        )
      ]

  pub register_motor-Sorted :
      (id : ℕ) (motor_type : MotorType) (can : CanInterface) (w : Motors Motor Msg)
      → IsSorted w.manager.heartbeats
      → IsSorted (register_motor talon id motor_type can w).manager.heartbeats
  unfolding register_motor has
  register_motor-Sorted id motor_type can w h =
      ground (arith, insert-From 0 id max_heartbeat_ticks w.manager.heartbeats)
