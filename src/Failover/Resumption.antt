-- ===== src/Failover/Resumption.antt =====
-- What the failover messages hold in every run of src/main/cpp/Robot.cpp with its subsystems, while
-- failover control is not active.
use ckriopassthru.Base.{
  ◌≡◌, refl, Bool, false, List, [], ◌∷◌, ◌&&◌, not, arith, Bool-cases, inl, inr, map,
}
use ckriopassthru.Network.{Network}
use ckriopassthru.Arithmetic.{Arithmetic}
use ckriopassthru.Failover.{
  autonomous_failover_init, autonomous_failover_periodic, teleop_failover_init,
  teleop_failover_periodic, disabled_failover_init, disabled_failover_periodic,
}
use ckriopassthru.Failover.Messages.{Generated, Serializer}
use ckriopassthru.Failover.Swerve.{Kinematics, Inputs}
use ckriopassthru.Failover.Shape.{Are, wired, standing, standing-wired, initial-standing}
use ckriopassthru.Failover.Inactive.{
  IsWired, IsIdle, effects-Wired_lem, effects-Idle_lem, reset-Idle_lem,
}
use ckriopassthru.Failover.Control.{Control, perform_effects, run_robot, initial}
use ckriopassthru.Mode.{set_ds_attached}
use ckriopassthru.Robot.{
  Robot, Event, Effect, failover, step, robot_initial, robot_periodic, external_periodic,
  unless_external, enter, robot_loop, autonomous_begins, autonomous_loop, teleop_begins,
  teleop_loop, disabled_begins, disabled_loop, test_begins, test_loop, message, heartbeat,
  is_external_control, teleop_init, teleop_periodic, autonomous_init, autonomous_periodic,
  disabled_init, disabled_periodic, test_init, test_periodic,
}

module _ {Value : Type 0} (arithmetic : Arithmetic Value) (generated : Generated Value)
    (serializer : Serializer Value) (kinematics : Kinematics Value) where
  abbrev Wired : Control Value → Type 0
  Wired c = IsWired arithmetic generated serializer kinematics c

  abbrev Idle : Control Value → Type 0
  Idle c = IsIdle arithmetic generated serializer kinematics c

  abbrev after : Inputs Value → List Effect → Control Value → Control Value
  after inputs es c = perform_effects arithmetic generated serializer kinematics inputs es c

  -- The external branch: the effects are those of a reset, or none that matters.
  external-Idle_lem :
      (inputs : Inputs Value) (r : Robot) (c : Control Value)
      → Wired c
      → (r.failover_active ≡ false → Idle c)
      → Idle (after inputs (external_periodic r).1 c)
  unfolding external_periodic perform_effects
  external-Idle_lem inputs r c w h =
      let reset_done = reset-Idle_lem arithmetic generated serializer kinematics inputs c w in
      elim (Bool-cases r.failover_active) [
        | inl a ↦ elim (Bool-cases r.mode.ds_attached) [
          | inl b ↦ rw (a, b) reset_done
          | inr b ↦ rw (a, b) reset_done
        ]
        | inr a ↦
            elim (Bool-cases
              (not r.initial_startup_ros_completed && r.mode.ds_attached && not false)) [
                | inl b ↦ rw (a, b) (h a)
                | inr b ↦ rw (a, b) (h a)
              ]
      ]

  -- A callback of a mode: its calls only run the subsystems.
  run_calls-Idle_lem :
      (inputs : Inputs Value) (r : Robot) (c : Control Value)
      → Idle c
      → Idle (after inputs (unless_external teleop_failover_periodic r) c)
  unfolding unless_external perform_effects teleop_failover_periodic
  run_calls-Idle_lem inputs r c h = elim (Bool-cases (is_external_control r)) [
    | inl e ↦ rw e h
    | inr e ↦ rw e (
        effects-Idle_lem arithmetic generated serializer kinematics inputs
          (map failover teleop_failover_periodic) c (refl, (refl, (refl, (refl, tt)))) h)
  ]

  no_calls-Idle_lem :
      (inputs : Inputs Value) (r : Robot) (c : Control Value)
      → Idle c
      → Idle (after inputs (unless_external [] r) c)
  unfolding unless_external perform_effects
  no_calls-Idle_lem inputs r c h = elim (Bool-cases (is_external_control r)) [
    | inl e ↦ rw e h
    | inr e ↦ rw e h
  ]

  robot_periodic-Idle_lem :
      (inputs : Inputs Value) (attached : Bool) (r : Robot) (c : Control Value)
      → Wired c
      → (r.failover_active ≡ false → Idle c)
      → (robot_periodic attached r).0.failover_active ≡ false
      → Idle (after inputs (robot_periodic attached r).1 c)
  unfolding robot_periodic
  robot_periodic-Idle_lem inputs attached r c w h stays =
      let r' : Robot = record r { mode = set_ds_attached attached r.mode } in
      elim (Bool-cases (is_external_control r)) [
        | inl e ↦ rw e (external-Idle_lem inputs r' c w h)
        | inr e ↦ ground (arith, e, stays)
      ]

  step-Idle_lem :
      (inputs : Inputs Value) (e : Event) (r : Robot) (c : Control Value)
      → Wired c
      → (r.failover_active ≡ false → Idle c)
      → (step r e).0.failover_active ≡ false
      → Idle (after inputs (step r e).1 c)
  unfolding step teleop_init teleop_periodic autonomous_init autonomous_periodic disabled_init
      disabled_periodic test_init test_periodic autonomous_failover_init
      autonomous_failover_periodic teleop_failover_init disabled_failover_init
      disabled_failover_periodic enter perform_effects
  step-Idle_lem inputs (robot_loop attached) r c w h stays =
      robot_periodic-Idle_lem inputs attached r c w h stays
  step-Idle_lem inputs teleop_loop r c w h stays = run_calls-Idle_lem inputs r c (h stays)
  step-Idle_lem inputs autonomous_begins r c w h stays = no_calls-Idle_lem inputs r c (h stays)
  step-Idle_lem inputs autonomous_loop r c w h stays = no_calls-Idle_lem inputs r c (h stays)
  step-Idle_lem inputs teleop_begins r c w h stays = no_calls-Idle_lem inputs r c (h stays)
  step-Idle_lem inputs disabled_begins r c w h stays = no_calls-Idle_lem inputs r c (h stays)
  step-Idle_lem inputs disabled_loop r c w h stays = no_calls-Idle_lem inputs r c (h stays)
  step-Idle_lem inputs test_begins r c w h stays = h stays
  step-Idle_lem inputs test_loop r c w h stays = h stays
  step-Idle_lem inputs message r c w h stays = h stays
  step-Idle_lem inputs heartbeat r c w h stays = h stays

  run_robot-Idle_lem :
      (r : Robot) (c : Control Value) (es : List (Inputs Value × Event))
      → Wired c
      → (r.failover_active ≡ false → Idle c)
      → (run_robot arithmetic generated serializer kinematics (r, c) es).0.failover_active ≡ false
      → Idle (run_robot arithmetic generated serializer kinematics (r, c) es).1
  unfolding run_robot
  run_robot-Idle_lem r c [] w h stays = h stays
  run_robot-Idle_lem r c ((inputs, e) ∷ es) w h stays =
      run_robot-Idle_lem (step r e).0 (after inputs (step r e).1 c) es
        (effects-Wired_lem arithmetic generated serializer kinematics inputs (step r e).1 c w)
        (step-Idle_lem inputs e r c w h) stays

  -- What a sequence of events leads to, from the start.
  abbrev pub reached : Network → List (Inputs Value × Event) → Robot × Control Value
  reached n es =
      run_robot arithmetic generated serializer kinematics
        (robot_initial, initial arithmetic generated serializer kinematics n) es

  -- In every run of the robot with its failover subsystems, whatever the inputs read, at a moment
  -- when failover control is not active there is no failover joystick, and the control messages of
  -- the subsystems tell the four drive motors the velocity 0, the arm, the wrist and the intake the
  -- output 0, without feedforward, and each follower of the arm its master.
  pub run_robot-standing :
      (n : Network) (es : List (Inputs Value × Event))
      → (reached n es).0.failover_active ≡ false
      → ((reached n es).1.swerve.joystick ≡ false)
        × Are (standing arithmetic generated) (reached n es).1.messages.motor_control
  unfolding initial
  run_robot-standing n es =
      let c = initial arithmetic generated serializer kinematics n in
      let s = initial-standing arithmetic generated serializer kinematics n in
      run_robot-Idle_lem robot_initial c es
        (standing-wired arithmetic generated c.messages.motor_control s) (λ inactive. (refl, s))

  run_robot-Wired_lem :
      (r : Robot) (c : Control Value) (es : List (Inputs Value × Event))
      → Wired c
      → Wired (run_robot arithmetic generated serializer kinematics (r, c) es).1
  unfolding run_robot
  run_robot-Wired_lem r c [] w = w
  run_robot-Wired_lem r c ((inputs, e) ∷ es) w =
      run_robot-Wired_lem (step r e).0 (after inputs (step r e).1 c) es
        (effects-Wired_lem arithmetic generated serializer kinematics inputs (step r e).1 c w)

  -- In every run of the robot with its failover subsystems, the control messages are at any moment
  -- those of the motors 1 to 14 in this order, each with the mode that its subsystem was made with
  -- and without feedforward, and the arm, the wrist and the intake are told the output 0.
  pub run_robot-wired :
      (n : Network) (es : List (Inputs Value × Event))
      → Are (wired arithmetic generated) (reached n es).1.messages.motor_control
  unfolding initial
  run_robot-wired n es =
      let c = initial arithmetic generated serializer kinematics n in
      run_robot-Wired_lem robot_initial c es (
        standing-wired arithmetic generated c.messages.motor_control
          (initial-standing arithmetic generated serializer kinematics n))
