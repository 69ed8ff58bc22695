-- ===== src/Failover/Inactive.antt =====
-- src/main/cpp/Robot.cpp with the failover subsystems: while failover control is not active, there is no
-- joystick, and the subsystems' messages stop every motor that they drive.
use ckriopassthru.Base.{
  ◌≡◌, refl, Bool, true, false, List, [], ◌∷◌, ◌&&◌, arith, Bool-cases, inl, inr, map,
}
use ckriopassthru.Arithmetic.{Arithmetic}
use ckriopassthru.Failover.{
  Call, Method, publish_messages, subsystem, swerve_drivetrain, arm, intake, led, init, periodic,
  run, uninit, reset,
}
use ckriopassthru.Failover.Messages.{Generated, Serializer, Messages}
use ckriopassthru.Failover.Messages
use ckriopassthru.Failover.Swerve.{Kinematics, Inputs, Four, SwerveDrivetrain}
use ckriopassthru.Failover.Swerve
use ckriopassthru.Robot.{Effect, failover, ros_connection_resumed, failover_control_activated}
use ckriopassthru.Failover.Shape.{Are, wired, standing, standing-wired, wiring_lem}
use ckriopassthru.Failover.Standstill.{
  drive-wired, drive-standing, steering-Are, steered-wired, perform_arm-Are, perform_intake-Are,
}
use ckriopassthru.Failover.Control.{Control, perform, perform_swerve, perform_effects}

module _ {Value : Type 0} (arithmetic : Arithmetic Value) (generated : Generated Value)
    (serializer : Serializer Value) (kinematics : Kinematics Value) where
  -- The invariant of the messages, and the one of a drive that stands still.
  abbrev pub IsWired : Control Value → Type 0
  IsWired c = Are (wired arithmetic generated) c.messages.motor_control

  abbrev pub IsIdle : Control Value → Type 0
  IsIdle c =
      (c.swerve.joystick ≡ false) × Are (standing arithmetic generated) c.messages.motor_control

  perform_swerve-Wired_lem :
      (inputs : Inputs Value) (k : Method) (c : Control Value)
      → IsWired c
      → IsWired (perform_swerve arithmetic generated serializer kinematics inputs k c)
  unfolding perform_swerve Swerve.init Swerve.periodic Swerve.run Swerve.uninit
  perform_swerve-Wired_lem inputs init c h =
      rw (wiring_lem arithmetic generated)
        (steering-Are arithmetic generated _ _ _ _ _ c.messages h)
  perform_swerve-Wired_lem inputs periodic c h = h
  perform_swerve-Wired_lem inputs run c h =
      elim (Bool-cases (c.swerve.joystick && inputs.is_connected)) [
        | inl e ↦
            rw (e, wiring_lem arithmetic generated)
              (steered-wired arithmetic generated _ _ c.messages h)
        | inr e ↦
            rw (e, wiring_lem arithmetic generated)
              (drive-wired arithmetic generated _ c.messages h)
      ]
  perform_swerve-Wired_lem inputs uninit c h =
      rw (wiring_lem arithmetic generated) (drive-wired arithmetic generated _ c.messages h)

  pub perform-Wired_lem :
      (inputs : Inputs Value) (k : Call) (c : Control Value)
      → IsWired c
      → IsWired (perform arithmetic generated serializer kinematics inputs k c)
  unfolding perform Messages.publish_messages
  perform-Wired_lem inputs publish_messages c h = h
  perform-Wired_lem inputs (subsystem swerve_drivetrain k) c h =
      perform_swerve-Wired_lem inputs k c h
  perform-Wired_lem inputs (subsystem arm k) c h =
      perform_arm-Are arithmetic generated _ _ _ _ k c.messages h
  perform-Wired_lem inputs (subsystem intake k) c h =
      perform_intake-Are arithmetic generated _ _ _ _ k c.messages h
  perform-Wired_lem inputs (subsystem led k) c h = h

  pub effects-Wired_lem :
      (inputs : Inputs Value) (es : List Effect) (c : Control Value)
      → IsWired c
      → IsWired (perform_effects arithmetic generated serializer kinematics inputs es c)
  unfolding perform_effects
  effects-Wired_lem inputs [] c h = h
  effects-Wired_lem inputs (failover k ∷ es) c h =
      effects-Wired_lem inputs es _ (perform-Wired_lem inputs k c h)
  effects-Wired_lem inputs (ros_connection_resumed ∷ es) c h = effects-Wired_lem inputs es c h
  effects-Wired_lem inputs (failover_control_activated ∷ es) c h = effects-Wired_lem inputs es c h

  uninit-Idle_lem :
      (inputs : Inputs Value) (c : Control Value)
      → IsWired c
      → IsIdle (perform_swerve arithmetic generated serializer kinematics inputs uninit c)
  unfolding perform_swerve Swerve.uninit
  uninit-Idle_lem inputs c h = (
    refl,
    rw (wiring_lem arithmetic generated) (drive-standing arithmetic generated c.messages h),
  )

  -- Of the calls, only the drive's `init` makes a joystick.
  abbrev pub is_harmless : Call → Bool
  is_harmless (subsystem swerve_drivetrain init) = false
  is_harmless _ = true

  perform_swerve-Idle_lem :
      (inputs : Inputs Value) (k : Method) (c : Control Value)
      → is_harmless (subsystem swerve_drivetrain k) ≡ true
      → IsIdle c
      → IsIdle (perform_swerve arithmetic generated serializer kinematics inputs k c)
  unfolding perform_swerve Swerve.periodic Swerve.run
  perform_swerve-Idle_lem inputs init c e h = ground arith
  perform_swerve-Idle_lem inputs periodic c e h = h
  perform_swerve-Idle_lem inputs run c e h =
      rw (h.0, wiring_lem arithmetic generated)
        (
          refl,
          drive-standing arithmetic generated c.messages
              (standing-wired arithmetic generated _ h.1),
        )
  perform_swerve-Idle_lem inputs uninit c e h =
      uninit-Idle_lem inputs c (standing-wired arithmetic generated _ h.1)

  perform-Idle_lem :
      (inputs : Inputs Value) (k : Call) (c : Control Value)
      → is_harmless k ≡ true
      → IsIdle c
      → IsIdle (perform arithmetic generated serializer kinematics inputs k c)
  unfolding perform Messages.publish_messages
  perform-Idle_lem inputs publish_messages c e h = h
  perform-Idle_lem inputs (subsystem swerve_drivetrain k) c e h =
      perform_swerve-Idle_lem inputs k c e h
  perform-Idle_lem inputs (subsystem arm k) c e h =
      (h.0, perform_arm-Are arithmetic generated _ _ _ _ k c.messages h.1)
  perform-Idle_lem inputs (subsystem intake k) c e h =
      (h.0, perform_intake-Are arithmetic generated _ _ _ _ k c.messages h.1)
  perform-Idle_lem inputs (subsystem led k) c e h = h

  abbrev pub AllHarmless : List Effect → Type 0
  AllHarmless [] = Unit
  AllHarmless (failover k ∷ es) = (is_harmless k ≡ true) × AllHarmless es
  AllHarmless (_ ∷ es) = AllHarmless es

  pub effects-Idle_lem :
      (inputs : Inputs Value) (es : List Effect) (c : Control Value)
      → AllHarmless es
      → IsIdle c
      → IsIdle (perform_effects arithmetic generated serializer kinematics inputs es c)
  unfolding perform_effects
  effects-Idle_lem inputs [] c a h = h
  effects-Idle_lem inputs (failover k ∷ es) c a h =
      effects-Idle_lem inputs es _ a.1 (perform-Idle_lem inputs k c a.0 h)
  effects-Idle_lem inputs (ros_connection_resumed ∷ es) c a h = effects-Idle_lem inputs es c a h
  effects-Idle_lem inputs (failover_control_activated ∷ es) c a h = effects-Idle_lem inputs es c a h

  -- A reset makes the drive stand still.
  pub reset-Idle_lem :
      (inputs : Inputs Value) (c : Control Value)
      → IsWired c
      → IsIdle
          (perform_effects arithmetic generated serializer kinematics inputs (map failover reset) c)
  unfolding perform_effects reset perform
  reset-Idle_lem inputs c h =
      effects-Idle_lem inputs
        (failover (subsystem arm uninit)
          ∷ failover (subsystem intake uninit)
          ∷ failover (subsystem led uninit)
          ∷ [])
        (perform_swerve arithmetic generated serializer kinematics inputs uninit c)
        (refl, (refl, (refl, tt))) (uninit-Idle_lem inputs c h)
