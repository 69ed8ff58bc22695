-- ===== src/System/Silence.antt =====
-- How the counter of the external control manager runs down while the network is silent.
use ckriopassthru.Base.{
  ℕ, suc, ◌+◌, ◌-◌, subst, ◌≡◌, refl, ap, Bool, true, Option, List, [], ◌∷◌, inl, inr, Bool-cases,
  List-cases, Option-cases, arith,
}
use ckriopassthru.External
use ckriopassthru.External.{is_external_control_connected}
use ckriopassthru.Network.{Network, Delivery, message, failure, pump, receive_message_pump}
use ckriopassthru.Motor.Each.{Each}
use ckriopassthru.Failover.Swerve.{Inputs}
use ckriopassthru.Robot.{
  Robot, Effect, failover, failover_control_activated, ros_connection_resumed, robot_loop,
  robot_periodic, failover_periodic, is_external_control, teleop_init, teleop_periodic,
  autonomous_init, autonomous_periodic, disabled_init, disabled_periodic, test_init, test_periodic,
  enter, autonomous_begins, autonomous_loop, teleop_begins, teleop_loop, disabled_begins,
  disabled_loop, test_begins, test_loop, heartbeat, external_periodic,
}
use ckriopassthru.Robot
use ckriopassthru.System.{
  Outside, System, Event, main_thread, next_call, receive_messages, process_heartbeat,
  apply_motor_configs, apply_motor_values, begin_callback, perform_next, pump_messages, age_all,
  configure_motors, drive_motors, is_callback, step, run,
}

-- A pump that finds no message.
abbrev pub BringsNothing : List Delivery → Type 0
BringsNothing [] = Unit
BringsNothing (failure ∷ q) = Unit
BringsNothing (message group buf ∷ q) = ⊥

pump_nothing :
    (eagain : ℕ) (q : List Delivery) (n : Network)
    → BringsNothing q
    → (receive_message_pump eagain q n).0 ≡ n
unfolding receive_message_pump pump
pump_nothing eagain [] n b = refl
pump_nothing eagain (failure ∷ q) n b = refl
pump_nothing eagain (message group buf ∷ q) n b = absurd b

external-callback :
    (r : Robot) (e : Robot.Event) → is_callback e ≡ true → (Robot.step r e).0.external ≡ r.external
unfolding Robot.step robot_periodic external_periodic failover_periodic teleop_init teleop_periodic
    autonomous_init autonomous_periodic disabled_init disabled_periodic test_init test_periodic
    enter
external-callback r (robot_loop attached) h = ground arith
external-callback r _ h = ground (arith, h)

module _ (outside : Outside) where
  open outside use {
    talon, arithmetic, generated, serializer, kinematics, parse_controls, scale, can_network,
    eagain,
  }
  open talon use {Value, Motor}

  -- The heartbeats of a sequence of events, none of which brings a message.
  abbrev pub beats : List (Event outside) → ℕ
  beats [] = 0
  beats (process_heartbeat ∷ es) = suc (beats es)
  beats (e ∷ es) = beats es

  abbrev pub IsQuiet : List (Event outside) → Type 0
  IsQuiet [] = Unit
  IsQuiet (receive_messages q ∷ es) = BringsNothing q × IsQuiet es
  IsQuiet (e ∷ es) = IsQuiet es

  abbrev pub ticks : System outside → ℕ
  ticks s = s.robot.external.last_connection_time

  beats-cons :
      (e : Event outside) (es : List (Event outside)) → beats (e ∷ es) ≡ beats (e ∷ []) + beats es
  beats-cons process_heartbeat es = omega arith
  beats-cons _ es = omega arith

  IsQuiet-cons :
      (e : Event outside) (es : List (Event outside))
      → IsQuiet (e ∷ es)
      → IsQuiet (e ∷ []) × IsQuiet es
  IsQuiet-cons (receive_messages q) es h = ((h.0, tt), h.1)
  IsQuiet-cons (main_thread e) es h = (tt, h)
  IsQuiet-cons (next_call inputs) es h = (tt, h)
  IsQuiet-cons process_heartbeat es h = (tt, h)
  IsQuiet-cons (apply_motor_configs locked) es h = (tt, h)
  IsQuiet-cons (apply_motor_values locked) es h = (tt, h)

  abbrev pub HasTicks : ℕ → System outside → Type 0
  HasTicks n s = ticks s ≡ n

  ticks-main_thread :
      (e : Robot.Event) (s : System outside)
      → Each (HasTicks (ticks s)) (step outside s (main_thread e))
  unfolding step begin_callback
  ticks-main_thread e s = elim (List-cases s.pending) [
    | inl n ↦ elim (Bool-cases (is_callback e)) [
      | inl c ↦ rw (step, n, c) (ap (λ x. x.last_connection_time) (external-callback s.robot e c))
      | inr c ↦ rw (step, n, c) refl
    ]
    | inr (effect, rest, n) ↦ rw (step, n) refl
  ]

  ticks-perform_next :
      (inputs : Inputs Value) (s : System outside) → ticks (perform_next outside inputs s) ≡ ticks s
  unfolding perform_next
  ticks-perform_next inputs s = elim (List-cases s.pending) [
    | inl n ↦ rw (perform_next, n) refl
    | inr (effect, rest, n) ↦ rw (perform_next, n) refl
  ]

  ticks-pump_messages :
      (q : List Delivery) (s : System outside)
      → BringsNothing q
      → ticks (pump_messages outside q s) ≡ ticks s
  unfolding pump_messages
  ticks-pump_messages q s b =
      let n : Network = record s.control.network { external = s.robot.external } in
      ap (λ x. x.external.last_connection_time) (pump_nothing eagain q n b)

  ticks-configure_motors :
      (locked : Bool) (s : System outside)
      → Each (HasTicks (ticks s)) (configure_motors outside locked s)
  unfolding configure_motors
  ticks-configure_motors locked s = ground arith

  ticks-drive_motors :
      (locked : Bool) (s : System outside) → ticks (drive_motors outside locked s) ≡ ticks s
  unfolding drive_motors
  ticks-drive_motors locked s = refl

  ticks-age_all : (s : System outside) → ticks (age_all outside s) ≡ ticks s - 1
  unfolding age_all External.process_heartbeat
  ticks-age_all s = ground arith

  unchanged :
      (s : System outside) (o : Option (System outside))
      → Each (HasTicks (ticks s)) o
      → Each (HasTicks (ticks s - 0)) o
  unchanged s o h =
      let p : ticks s ≡ ticks s - 0 = omega arith in subst (λ k. Each (HasTicks k) o) p h

  ticks-step :
      (s : System outside) (e : Event outside)
      → IsQuiet (e ∷ [])
      → Each (HasTicks (ticks s - beats (e ∷ []))) (step outside s e)
  unfolding step
  ticks-step s (main_thread e) h =
      unchanged s (step outside s (main_thread e)) (ticks-main_thread e s)
  ticks-step s (next_call inputs) h =
      unchanged s (step outside s (next_call inputs)) (ticks-perform_next inputs s)
  ticks-step s (receive_messages q) h =
      unchanged s (step outside s (receive_messages q)) (ticks-pump_messages q s h.0)
  ticks-step s process_heartbeat h = ticks-age_all s
  ticks-step s (apply_motor_configs locked) h =
      unchanged s (step outside s (apply_motor_configs locked)) (ticks-configure_motors locked s)
  ticks-step s (apply_motor_values locked) h =
      unchanged s (step outside s (apply_motor_values locked)) (ticks-drive_motors locked s)

  pub ticks-run :
      (s : System outside) (es : List (Event outside))
      → IsQuiet es
      → Each (HasTicks (ticks s - beats es)) (run outside s es)
  unfolding run
  ticks-run s [] h = omega arith
  ticks-run s (e ∷ es) h =
      let (h0, h1) = IsQuiet-cons e es h in
      elim (Option-cases (step outside s e)) [
        | inl n ↦ rw (run, n) tt
        | inr (s', n) ↦
            let t : ticks s' ≡ ticks s - beats (e ∷ []) = rw n at (ticks-step s e h0) in
            let p : ticks s' - beats es ≡ ticks s - beats (e ∷ es) =
              omega (arith, t, beats-cons e es) in
            rw (run, n) (subst (λ k. Each (HasTicks k) (run outside s' es)) p (ticks-run s' es h1))
      ]
