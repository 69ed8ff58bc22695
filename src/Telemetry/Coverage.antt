-- ===== src/Telemetry/Coverage.antt =====
-- Which devices the messages of the sending tasks (src/main/cpp/tasks/Send*.cpp) speak of, and when a
-- message is longer than its buffer.
use ckriopassthru.Base.{
  ℕ, suc, ◌*◌, ◌<◌, ◌≤◌, ◌≡◌, refl, ap, true, Option, none, some, List, [], ◌∷◌, map, arith, ==-eq,
  length, is_some,
}
use ckriopassthru.Base.Map.{Map, lookup}
use ckriopassthru.Network.{Bytes}
use ckriopassthru.MotorConfig.{u16}
use ckriopassthru.Registry.{Registry, index}
use ckriopassthru.Registry.Walk.{IsTyped, index_found, IsTyped-head, IsTyped-tail}
use ckriopassthru.Talon.{MotorType, talon_fx, talon_srx, other_type}
use ckriopassthru.Solenoid.{Solenoid, SolenoidType, Pneumatics, single}
use Prim.Native.String.{String}
use ckriopassthru.Telemetry.Devices.{solenoid_status}
use ckriopassthru.Telemetry.{
  overflow, message_size, report, collect, read_each, MotorReadings, MotorStatus, motor_status,
  TalonMode, percent_output, motion_profile, motion_magic, motion_profile_arc, position, velocity,
  current, follower, music_tone, disabled, other_mode, mode_status, limit_switches,
  closed_loop_status, trajectory_status, send_motor_data,
}

abbrev pub keys : {D : Type 0} → Map D → List ℕ
keys [] = []
keys ((k, d) ∷ ds) = k ∷ keys ds

-- The elements of a message by a key.
abbrev pub by_key : {A : Type 0} → (A → ℕ) → List A → Map A
by_key key [] = []
by_key key (a ∷ rest) = (key a, a) ∷ by_key key rest

module _ {D T A : Type 0} where
  -- What is read of a device with its type.
  abbrev pub described : (ℕ → D → T → A) → ℕ → Option D → Option T → Option A
  described read j none t = none
  described read j (some d) none = none
  described read j (some d) (some t) = some (read j d t)

  map-collect :
      (initial : T) (read : ℕ → D → T → A) (key : A → ℕ) (f : ℕ → ℕ)
      → ((k : ℕ) (d : D) (t : T) → key (read k d t) ≡ f k)
      → (ds : Map D) (ts : Map T) → map key (collect initial read ds ts).0 ≡ map f (keys ds)
  unfolding collect
  map-collect initial read key f h [] ts = refl
  map-collect initial read key f h ((k, d) ∷ ds) ts =
      let (t, ts') = index initial k ts in rw (h k d t, map-collect initial read key f h ds ts')

  lookup-collect :
      (initial : T) (read : ℕ → D → T → A) (key : A → ℕ)
      → ((k : ℕ) (d : D) (t : T) → key (read k d t) ≡ k)
      → (j : ℕ) (ds : Map D) (ts : Map T) → IsTyped ds ts
      → lookup j (by_key key (collect initial read ds ts).0)
        ≡ described read j (lookup j ds) (lookup j ts)
  unfolding collect lookup
  lookup-collect initial read key h j [] ts typed = refl
  lookup-collect initial read key h j ((k, d) ∷ ds) ts typed =
      let (t, e) = IsTyped-head k d ds ts typed in
      rw (index_found initial k ts t e, h k d t)
        (ground (
          arith,
          e,
          ==-eq j k,
          lookup-collect initial read key h j ds ts (IsTyped-tail k d ds ts typed),
        ))

module _ {Motor Value : Type 0} (r : MotorReadings Motor Value) where
  id-mode_status :
      (mode : TalonMode) (d : Motor) (m : MotorStatus Value) → (mode_status r mode d m).id ≡ m.id
  unfolding mode_status closed_loop_status trajectory_status
  id-mode_status percent_output d m = refl
  id-mode_status motion_profile d m = refl
  id-mode_status motion_magic d m = refl
  id-mode_status motion_profile_arc d m = refl
  id-mode_status position d m = refl
  id-mode_status velocity d m = refl
  id-mode_status current d m = refl
  id-mode_status follower d m = refl
  id-mode_status music_tone d m = refl
  id-mode_status disabled d m = refl
  id-mode_status (other_mode n) d m = refl

  id-motor_status : (k : ℕ) (d : Motor) (t : MotorType) → (motor_status r k d t).id ≡ k
  unfolding motor_status limit_switches
  id-motor_status k d talon_fx = id-mode_status (r.get_control_mode d) d _
  id-motor_status k d talon_srx = id-mode_status (r.get_control_mode d) d _
  id-motor_status k d (other_type n) = id-mode_status (r.get_control_mode d) d _

  -- Where every motor has a type, the motor status message has one entry for an id exactly if it
  -- has a motor, and the entry holds what that motor with its type reads.
  pub lookup-motor_status :
      (j : ℕ) (w : Registry Motor MotorType)
      → IsTyped w.devices w.types
      → lookup j (by_key (λ m. m.id) (read_each talon_fx (motor_status r) w).0)
        ≡ described (motor_status r) j (lookup j w.devices) (lookup j w.types)
  unfolding read_each
  lookup-motor_status j w typed =
      lookup-collect talon_fx (motor_status r) (λ m. m.id) id-motor_status j w.devices w.types typed

module _ (pneumatics : Pneumatics) where
  -- The entries of the solenoid status message have the ids of the solenoids cut to 16 bits, which
  -- leaves out their modules: solenoids on the same channel of two modules are reported under one
  -- id.
  ids-solenoid_status :
      (w : Registry (Solenoid pneumatics) SolenoidType)
      → map (λ m. m.id) (read_each single (solenoid_status pneumatics) w).0
        ≡ map u16 (keys w.devices)
  unfolding read_each solenoid_status
  ids-solenoid_status w =
      map-collect single (solenoid_status pneumatics) (λ m. m.id) u16 (λ k d t. refl) w.devices
        w.types

length-collect :
    {D T A : Type 0} (initial : T) (read : ℕ → D → T → A) (ds : Map D) (ts : Map T)
    → length (collect initial read ds ts).0 ≡ length ds
unfolding collect
length-collect initial read [] ts = refl
length-collect initial read ((k, d) ∷ ds) ts =
    ap suc (length-collect initial read ds (index initial k ts).1)

report-overflow :
    (group : String) (o : Option Bytes) (n : ℕ)
    → is_some o ≡ true
    → ((bytes : Bytes) → o ≡ some bytes → n ≤ length bytes)
    → message_size < n
    → report group o ≡ overflow
unfolding report
report-overflow group none n found long h = ground arith
report-overflow group (some bytes) n found long h = ground (arith, long bytes refl)

module _ {Motor Value : Type 0} (r : MotorReadings Motor Value) where
  -- If a serialized motor status message has at least some size for each of its entries, the task
  -- writes behind the end of its buffer of 1500 bytes as soon as there are so many motors that
  -- these sizes come to more.
  pub send_motor_data-overflow :
      (serialize : List (MotorStatus Value) → Option Bytes) (size : ℕ)
      (w : Registry Motor MotorType)
      → ((ms : List (MotorStatus Value)) → is_some (serialize ms) ≡ true)
      → ((ms : List (MotorStatus Value)) (bytes : Bytes)
          → serialize ms ≡ some bytes
          → size * length ms ≤ length bytes)
      → 1500 < size * length w.devices
      → (send_motor_data r serialize w).0 ≡ overflow
  unfolding send_motor_data read_each
  send_motor_data-overflow serialize size w found long h =
      let ms = (collect talon_fx (motor_status r) w.devices w.types).0 in
      let same = length-collect talon_fx (motor_status r) w.devices w.types in
      report-overflow "motorstatus" (serialize ms) (size * length w.devices) (found ms)
        (λ bytes e. rw (← same) (long ms bytes e)) h
