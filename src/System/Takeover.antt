-- ===== src/System/Takeover.antt =====
-- What the motors get after the network has fallen silent: a pass of the main loop gives control to the
-- failover subsystems, and the next run of the task that applies motor values applies what they hold.
use mathlib.Core.List.{append_assoc}
use ckriopassthru.Base.{
  ◌-◌, subst, ◌≤◌, ◌≡◌, refl, sym, ap, ◌∙◌, Bool, true, false, some, List, [], ◌∷◌, ◌++◌, map, not,
  inl, inr, Bool-cases, arith, if◌then◌else◌,
}
use ckriopassthru.External.{is_external_control_connected}
use ckriopassthru.Mode.{is_disabled, set_ds_attached}
use ckriopassthru.Network.{Bytes}
use ckriopassthru.Network.Inbox.{lookup}
use ckriopassthru.Network.Send.{get_message_found}
use ckriopassthru.Motor.Values.{MotorControl, apply_motors}
use ckriopassthru.Motor.Values
use ckriopassthru.Failover.{robot_failover_init, robot_failover_periodic}
use ckriopassthru.Failover.Messages.{publish_messages}
use ckriopassthru.Failover.Publishing.{publish_messages-motors}
use ckriopassthru.Failover.Swerve.{Inputs}
use ckriopassthru.Failover.Swerve
use ckriopassthru.Failover.Control.{
  Control, perform, perform_swerve, perform_arm, perform_intake, perform_effects,
}
use ckriopassthru.Robot.Takeover.{failover_active-robot_periodic}
use ckriopassthru.Robot.{
  Robot, Effect, failover, failover_control_activated, ros_connection_resumed, robot_loop,
  robot_periodic, failover_periodic, is_external_control, teleop_init, teleop_periodic,
  autonomous_init, autonomous_periodic, disabled_init, disabled_periodic, test_init, test_periodic,
  enter, autonomous_begins, autonomous_loop, teleop_begins, teleop_loop, disabled_begins,
  disabled_loop, test_begins, test_loop, heartbeat, external_periodic,
}
use ckriopassthru.Robot
use ckriopassthru.System.{
  Outside, System, Event, main_thread, next_call, begin_callback, perform_next, perform_callback,
  drive_motors, step, run,
}
use ckriopassthru.System.Silence.{IsQuiet, beats, ticks, ticks-run}

mode-robot_periodic :
    (attached : Bool) (r : Robot)
    → (robot_periodic attached r).0.mode.control_mode ≡ r.mode.control_mode
unfolding robot_periodic external_periodic failover_periodic set_ds_attached
mode-robot_periodic attached r = ground arith

module _ (outside : Outside) where
  open outside use {
    talon, arithmetic, generated, serializer, kinematics, parse_controls, scale, can_network,
    eagain,
  }
  open talon use {Value, Motor}

  -- The effects of a pass that finds no external control end with the periodic calls.
  last_calls :
      (attached : Bool) (r : Robot)
      → is_external_control r ≡ false
      → (es : List Effect) × ((robot_periodic attached r).1
          ≡ es ++ map failover robot_failover_periodic)
  unfolding robot_periodic failover_periodic set_ds_attached
  last_calls attached r h = elim (Bool-cases r.failover_active) [
    | inl e ↦ ([], ground (arith, h, e))
    | inr e ↦
        let told = if attached then failover_control_activated ∷ [] else [] in
        let started = map failover robot_failover_init in
        (
          told ++ started,
          rw (h, e) (sym (append_assoc told started (map failover robot_failover_periodic))),
        )
  ]

  perform_effects-append :
      (inputs : Inputs Value) (es fs : List Effect) (c : Control Value)
      → perform_effects arithmetic generated serializer kinematics inputs (es ++ fs) c
        ≡ perform_effects arithmetic generated serializer kinematics inputs fs
            (perform_effects arithmetic generated serializer kinematics inputs es c)
  unfolding perform_effects
  perform_effects-append inputs [] fs c = refl
  perform_effects-append inputs (failover k ∷ es) fs c =
      perform_effects-append inputs es fs
        (perform arithmetic generated serializer kinematics inputs k c)
  perform_effects-append inputs (ros_connection_resumed ∷ es) fs c =
      perform_effects-append inputs es fs c
  perform_effects-append inputs (failover_control_activated ∷ es) fs c =
      perform_effects-append inputs es fs c

  -- The periodic calls publish the control messages and leave them as they are.
  periodic_calls :
      (inputs : Inputs Value) (c : Control Value) (buf : Bytes)
      → let c' =
          perform_effects arithmetic generated serializer kinematics inputs
            (map failover robot_failover_periodic)
            c in
        serializer.motor_control_bytes c'.messages.motor_control ≡ some buf
        → lookup "motorcontrol" c'.network.recv_msg_map ≡ some buf
  unfolding perform_effects perform perform_swerve perform_arm perform_intake
      robot_failover_periodic Swerve.periodic publish_messages
  periodic_calls inputs c buf h = publish_messages-motors serializer c.messages c.network buf h

  -- The calls of a callback, one after the other.
  abbrev pub next_calls : Inputs Value → List Effect → List (Event outside)
  next_calls inputs [] = []
  next_calls inputs (effect ∷ es) = next_call inputs ∷ next_calls inputs es

  run-next_calls :
      (inputs : Inputs Value) (es : List Effect) (s : System outside)
      → run outside (record s { pending = es }) (next_calls inputs es)
        ≡ some (record s {
          pending = [];
          control = perform_effects arithmetic generated serializer kinematics inputs es s.control;
        })
  unfolding run step perform_next perform_effects
  run-next_calls inputs [] s = refl
  run-next_calls inputs (effect ∷ es) s =
      let c =
        perform_effects arithmetic generated serializer kinematics inputs (effect ∷ []) s.control in
      run-next_calls inputs es (record s { control = c })
      ∙ ap (λ c'. some (record s { pending = []; control = c' }))
          (sym (perform_effects-append inputs (effect ∷ []) es s.control))

  -- The state after a pass of the main loop, and the control messages that the subsystems hold then.
  abbrev pub after_pass : Inputs Value → Bool → System outside → System outside
  after_pass inputs attached s = perform_callback outside inputs (robot_loop attached) s

  abbrev pub held : Inputs Value → Bool → System outside → List (MotorControl Value)
  held inputs attached s = (after_pass inputs attached s).control.messages.motor_control

  -- A pass of the main loop, when no callback is at work.
  abbrev pub pass : Inputs Value → Bool → System outside → List (Event outside)
  pass inputs attached s =
      main_thread (robot_loop attached)
      ∷ next_calls inputs (Robot.step s.robot (robot_loop attached)).1

  run-pass :
      (inputs : Inputs Value) (attached : Bool) (s : System outside)
      → s.pending ≡ []
      → run outside s (pass inputs attached s) ≡ some (after_pass inputs attached s)
  unfolding run step begin_callback perform_callback
  run-pass inputs attached s idle =
      let (r, effects) = Robot.step s.robot (robot_loop attached) in
      rw (run, step, idle) (run-next_calls inputs effects (record s { robot = r }))

  published :
      (inputs : Inputs Value) (attached : Bool) (s : System outside) (buf : Bytes)
      → is_external_control s.robot ≡ false
      → serializer.motor_control_bytes (held inputs attached s) ≡ some buf
      → lookup "motorcontrol" (after_pass inputs attached s).control.network.recv_msg_map ≡ some buf
  unfolding perform_callback Robot.step
  published inputs attached s buf alone written =
      let (xs, p) = last_calls attached s.robot alone in
      let done : List Effect → Control Value =
        λ es. perform_effects arithmetic generated serializer kinematics inputs es s.control in
      let c = done xs in
      let q =
        ap done p
        ∙ perform_effects-append inputs xs (map failover robot_failover_periodic) s.control in
      subst
        (λ c'.
          serializer.motor_control_bytes c'.messages.motor_control ≡ some buf
          → lookup "motorcontrol" c'.network.recv_msg_map ≡ some buf)
        (sym q) (periodic_calls inputs c buf) written

  drive_motors-found :
      (s : System outside) (buf : Bytes) (ms : List (MotorControl Value))
      → lookup "motorcontrol" s.control.network.recv_msg_map ≡ some buf
      → parse_controls buf ≡ some ms
      → is_disabled s.robot.mode.control_mode ≡ false
      → (drive_motors outside true s).motors ≡ apply_motors talon can_network ms s.motors
  unfolding drive_motors Values.run Values.receive
  drive_motors-found s buf ms found read enabled =
      rw (
        get_message_found "motorcontrol" buf s.control.network found,
        enabled,
        Values.receive,
        read,
      )

  -- After any run of the two threads in which no message comes and at least as many heartbeats pass
  -- as the external control counter has ticks left, and at whose end no callback is at work and the
  -- mode is not disabled: a pass of the main loop, its calls made with no task between them, has
  -- failover control active, and a run of the task that applies motor values after it, with its
  -- lock, applies exactly the control messages that the failover subsystems hold, if they can be
  -- serialized and read back.
  pub takeover-values :
      (s s' : System outside) (es : List (Event outside)) (inputs : Inputs Value) (attached : Bool)
      (buf : Bytes)
      → run outside s es ≡ some s'
      → s'.pending ≡ []
      → IsQuiet outside es
      → ticks outside s ≤ beats outside es
      → is_disabled s'.robot.mode.control_mode ≡ false
      → serializer.motor_control_bytes (held inputs attached s') ≡ some buf
      → parse_controls buf ≡ some (held inputs attached s')
      → (run outside s' (pass inputs attached s') ≡ some (after_pass inputs attached s'))
        × ((after_pass inputs attached s').robot.failover_active ≡ true)
        × ((drive_motors outside true (after_pass inputs attached s')).motors
            ≡ apply_motors talon can_network (held inputs attached s') s'.motors)
  unfolding perform_callback Robot.step is_external_control_connected
  takeover-values s s' es inputs attached buf ran idle quiet late enabled written read =
      let t : ticks outside s' ≡ ticks outside s - beats outside es =
        rw ran at (ticks-run outside s es quiet) in
      let alone : is_external_control s'.robot ≡ false = ground (arith, t, late) in
      (
        run-pass inputs attached s' idle,
        failover_active-robot_periodic attached s'.robot ∙ ap not alone,
        drive_motors-found (after_pass inputs attached s') buf (held inputs attached s')
            (published inputs attached s' buf alone written) read
            (ap is_disabled (mode-robot_periodic attached s'.robot) ∙ enabled),
      )
