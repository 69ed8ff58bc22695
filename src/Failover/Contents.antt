-- ===== src/Failover/Contents.antt =====
-- What the calls of src/main/cpp/failover/RobotFailover.cpp leave in the map of the network: of motor control
-- messages, only what the subsystems hold.
use Prim.Native.String.{String}
use text.Mathlib.Text.{◌==◌ as str_eq}
use ckriopassthru.Base.{
  ◌≡◌, refl, true, Option, none, some, List, [], ◌∷◌, arith, inl, inr, Bool-cases, ◌==◌, ◌%◌,
}
use ckriopassthru.Arithmetic.{Arithmetic}
use ckriopassthru.Network.{Network, Bytes}
use ckriopassthru.Network.Contents.{Keeps, place_failover_message-Keeps}
use ckriopassthru.Motor.Values.{MotorControl}
use ckriopassthru.Failover.{
  Call, publish_messages, subsystem, swerve_drivetrain, arm, intake, led, init, periodic, run,
  uninit,
}
use ckriopassthru.Failover.Messages
use ckriopassthru.Failover.Messages.{Generated, Serializer, Messages, place}
use ckriopassthru.Failover.Swerve.{Kinematics, Inputs}
use ckriopassthru.Failover.Control.{Control, perform, perform_swerve, perform_effects}
use ckriopassthru.Failover.Shape.{Are, wired}
use ckriopassthru.Failover.Inactive.{perform-Wired_lem}
use ckriopassthru.Robot.{Effect, failover, ros_connection_resumed, failover_control_activated}

place-Keeps :
    (group : String) (Q : Bytes → Type 0) (g : String) (bytes : Option Bytes) (n : Network)
    → ((buf : Bytes) → str_eq group g ≡ true → bytes ≡ some buf → Q buf)
    → Keeps group Q n
    → Keeps group Q (place g bytes n)
unfolding place
place-Keeps group Q g none n new old = old
place-Keeps group Q g (some buf) n new old =
    place_failover_message-Keeps group Q g buf n (λ e. new buf e refl) old

module _ {Value : Type 0} (arithmetic : Arithmetic Value) (generated : Generated Value)
    (serializer : Serializer Value) (kinematics : Kinematics Value) (Q : Bytes → Type 0) where
  open serializer use {motor_control_bytes}

  -- The bytes of motor control messages of the subsystems' shape are as the property says.
  abbrev pub Serializes : Type 0
  Serializes =
      (ms : List (MotorControl Value)) (buf : Bytes)
      → Are (wired arithmetic generated) ms
      → motor_control_bytes ms ≡ some buf
      → Q buf

  abbrev pub IsWatched : Control Value → Type 0
  IsWatched c =
      Are (wired arithmetic generated) c.messages.motor_control × Keeps "motorcontrol" Q c.network

  publish_messages-Keeps :
      (s : Messages Value) (n : Network)
      → Serializes
      → Are (wired arithmetic generated) s.motor_control
      → Keeps "motorcontrol" Q n
      → Keeps "motorcontrol" Q (Messages.publish_messages serializer (s, n)).1
  unfolding Messages.publish_messages
  publish_messages-Keeps s n good w k =
      let n1 = place "motorcontrol" (motor_control_bytes s.motor_control) n in
      let n2 = place "solenoidcontrol" (serializer.solenoid_control_bytes s.solenoid_control) n1 in
      let n3 =
        place "motorconfig" (serializer.motor_configuration_bytes s.motor_configuration) n2 in
      let k1 =
        place-Keeps "motorcontrol" Q "motorcontrol" (motor_control_bytes s.motor_control) n
          (λ buf e h. good s.motor_control buf w h) k in
      let k2 =
        place-Keeps "motorcontrol" Q "solenoidcontrol"
          (serializer.solenoid_control_bytes s.solenoid_control) n1 (λ buf e h. ground (arith, e))
          k1 in
      let k3 =
        place-Keeps "motorcontrol" Q "motorconfig"
          (serializer.motor_configuration_bytes s.motor_configuration) n2
          (λ buf e h. ground (arith, e)) k2 in
      let k4 =
        place-Keeps "motorcontrol" Q "ledcontrol" (serializer.led_control_bytes s.led_control) n3
          (λ buf e h. ground (arith, e)) k3 in
      elim (Bool-cases (s.loop_counter % 25 == 0)) [ inl e ↦ rw e k4 | inr e ↦ rw e k2 ]

  perform-Keeps :
      (inputs : Inputs Value) (k : Call) (c : Control Value)
      → Serializes
      → IsWatched c
      → Keeps "motorcontrol" Q
          (perform arithmetic generated serializer kinematics inputs k c).network
  unfolding perform perform_swerve
  perform-Keeps inputs publish_messages c good (w, m) =
      publish_messages-Keeps c.messages c.network good w m
  perform-Keeps inputs (subsystem swerve_drivetrain init) c good (w, m) = m
  perform-Keeps inputs (subsystem swerve_drivetrain periodic) c good (w, m) = m
  perform-Keeps inputs (subsystem swerve_drivetrain run) c good (w, m) = m
  perform-Keeps inputs (subsystem swerve_drivetrain uninit) c good (w, m) = m
  perform-Keeps inputs (subsystem arm k) c good (w, m) = m
  perform-Keeps inputs (subsystem intake k) c good (w, m) = m
  perform-Keeps inputs (subsystem led k) c good (w, m) = m

  perform-IsWatched :
      (inputs : Inputs Value) (k : Call) (c : Control Value)
      → Serializes
      → IsWatched c
      → IsWatched (perform arithmetic generated serializer kinematics inputs k c)
  perform-IsWatched inputs k c good (w, m) = (
    perform-Wired_lem arithmetic generated serializer kinematics inputs k c w,
    perform-Keeps inputs k c good (w, m),
  )

  pub perform_effects-IsWatched :
      (inputs : Inputs Value) (es : List Effect) (c : Control Value)
      → Serializes
      → IsWatched c
      → IsWatched (perform_effects arithmetic generated serializer kinematics inputs es c)
  unfolding perform_effects
  perform_effects-IsWatched inputs [] c good h = h
  perform_effects-IsWatched inputs (failover k ∷ es) c good h =
      perform_effects-IsWatched inputs es _ good (perform-IsWatched inputs k c good h)
  perform_effects-IsWatched inputs (ros_connection_resumed ∷ es) c good h =
      perform_effects-IsWatched inputs es c good h
  perform_effects-IsWatched inputs (failover_control_activated ∷ es) c good h =
      perform_effects-IsWatched inputs es c good h
