-- ===== src/System/Provenance.antt =====
-- Where the commands come from that the motors get, whatever the two threads do: from the messages of the
-- network, from those of the failover control, and from the motor configurations.
use ckriopassthru.Base.{
  refl, ap, ◌⊎◌, ◌++◌, ℕ, ◌≡◌, Bool, some, List, [], ◌∷◌, inl, inr, Option-cases, arith, none,
}
use ckriopassthru.Network.{Network, Delivery}
use ckriopassthru.Base.Map.{lookup}
use ckriopassthru.Network.Inbox
use ckriopassthru.External.{external_control_initial}
use ckriopassthru.Network.Contents.{
  Keeps, Brings, receive_message_pump-Keeps, get_message-Keeps, get_message-Q,
}
use ckriopassthru.MotorSettings.Task
use ckriopassthru.MotorSettings.Task.Keeping.{run-IsKept}
use ckriopassthru.Motor.Each.{Each, AllAt, process_heartbeat-AllAt}
use ckriopassthru.Motor.Invariant.{IsValid, process_heartbeat-IsValid, no_motors-IsValid}
use ckriopassthru.Motor.Values.{MotorControl}
use ckriopassthru.Motor.Values
use ckriopassthru.Motor.Values.Commands.{run-AllAt}
use ckriopassthru.Motor.Values.Safety.{run_values-IsValid}
use ckriopassthru.Failover.Shape.{standing-wired, initial-standing}
use ckriopassthru.System.{
  Outside, System, Event, main_thread, next_call, receive_messages, process_heartbeat,
  apply_motor_configs, apply_motor_values, start_up, pump_messages, age_all, configure_motors,
  drive_motors, step, run, has_encoder,
}
use ckriopassthru.System.Safety.{
  ReadsBack, IsRespected, IsAllowed, BringsAllowed, IsSafe, main_thread-IsSafe, perform_next-IsSafe,
}

module _ (outside : Outside) where
  open outside use {
    talon, arithmetic, generated, serializer, kinematics, parse_controls, scale, call,
    general_error, default_msg, differences, parse_configs, can_network, eagain,
  }
  open talon use {Value, Motor}

  -- The run ends, in a good state.
  abbrev pub Completes : (System outside → Type 0) → System outside → List (Event outside) → Type 0
  Completes Good s es = (t : System outside) × (run outside s es ≡ some t) × Good t

  -- A part of the run ends in a good state, where the run of the task that applies motor
  -- configurations that comes next dereferences a null pointer.
  abbrev pub Stops : (System outside → Type 0) → System outside → List (Event outside) → Type 0
  Stops Good s es =
      (before : List (Event outside)) × (after : List (Event outside)) × (locked : Bool)
      × (t : System outside) × (es ≡ before ++ (apply_motor_configs locked ∷ after))
      × (run outside s before ≡ some t)
      × (configure_motors outside locked t ≡ none)
      × Good t

  -- Motors that satisfy the invariant and have a property.
  abbrev pub AreGood : (ℕ → Motor → Type 0) → System outside → Type 0
  AreGood P s = IsValid s.motors × AllAt talon P s.motors

  module _ (Allowed : MotorControl Value → Type 0) (P : ℕ → Motor → Type 0)
      (respected : IsRespected outside Allowed P) (reads_back : ReadsBack outside) where
    pump_messages-IsSafe :
        (q : List Delivery) (s : System outside)
        → Brings "motorcontrol" (IsAllowed outside Allowed) q
        → IsSafe outside Allowed P s
        → IsSafe outside Allowed P (pump_messages outside q s)
    unfolding pump_messages
    pump_messages-IsSafe q s b h = record {
      valid = h.valid;
      all = h.all;
      own = h.own;
      mail =
          receive_message_pump-Keeps "motorcontrol" (IsAllowed outside Allowed) eagain q
            (record s.control.network { external = s.robot.external }) b h.mail;
    }

    age_all-IsSafe :
        (s : System outside)
        → IsSafe outside Allowed P s
        → IsSafe outside Allowed P (age_all outside s)
    unfolding age_all
    age_all-IsSafe s h = record {
      valid = process_heartbeat-IsValid talon s.motors h.valid;
      all = process_heartbeat-AllAt talon P s.motors h.valid h.all;
      own = h.own;
      mail = h.mail;
    }

    drive_motors-IsSafe :
        (locked : Bool) (s : System outside)
        → IsSafe outside Allowed P s
        → IsSafe outside Allowed P (drive_motors outside locked s)
    unfolding drive_motors Values.run
    drive_motors-IsSafe locked s h =
        let mode = s.robot.mode.control_mode in
        record {
          valid =
              run_values-IsValid talon can_network parse_controls locked mode s.control.network
                s.motors h.valid;
          all =
              run-AllAt talon can_network Allowed P respected.commanded parse_controls locked mode
                s.control.network s.motors
                (λ buf ms e p.
                  get_message-Q "motorcontrol" (IsAllowed outside Allowed) s.control.network buf
                    h.mail e ms p)
                h.valid h.all;
          own = h.own;
          mail =
              get_message-Keeps "motorcontrol" (IsAllowed outside Allowed) "motorcontrol"
                s.control.network h.mail;
        }

    configs_read-Keeps :
        (locked : Bool) (s : System outside)
        → Keeps "motorcontrol" (IsAllowed outside Allowed) s.control.network
        → Keeps "motorcontrol"
            (IsAllowed outside Allowed)
            (Task.run scale call general_error has_encoder default_msg differences parse_configs
              locked
              (s.control.network, s.motors)).0
    unfolding Task.run
    configs_read-Keeps locked s k =
        get_message-Keeps "motorcontrol" (IsAllowed outside Allowed) "motorconfig" s.control.network
          k

    configure_motors-IsSafe :
        (locked : Bool) (s : System outside)
        → IsSafe outside Allowed P s
        → Each (IsSafe outside Allowed P) (configure_motors outside locked s)
    unfolding configure_motors
    configure_motors-IsSafe locked s h =
        let n = s.control.network in
        let done =
          (Task.run scale call general_error has_encoder default_msg differences parse_configs
            locked (n, s.motors)).1 in
        let kept =
          run-IsKept talon P scale call general_error has_encoder respected.configured default_msg
            differences parse_configs locked n s.motors (h.valid, h.all) in
        elim (Option-cases done) [
          | inl e ↦ rw (configure_motors, e) tt
          | inr (w, e) ↦
              let k : IsValid w × AllAt talon P w = rw e at kept in
              rw (configure_motors, e)
                (record {
                  valid = k.0;
                  all = k.1;
                  own = h.own;
                  mail = configs_read-Keeps locked s h.mail;
                })
        ]

    step-IsSafe :
        (s : System outside) (e : Event outside)
        → BringsAllowed outside Allowed (e ∷ [])
        → IsSafe outside Allowed P s
        → Each (IsSafe outside Allowed P) (step outside s e)
    unfolding step
    step-IsSafe s (main_thread e) b h = main_thread-IsSafe outside Allowed P e s h
    step-IsSafe s (next_call inputs) b h =
        perform_next-IsSafe outside Allowed P respected reads_back inputs s h
    step-IsSafe s (receive_messages q) b h = pump_messages-IsSafe q s b.0 h
    step-IsSafe s process_heartbeat b h = age_all-IsSafe s h
    step-IsSafe s (apply_motor_configs locked) b h = configure_motors-IsSafe locked s h
    step-IsSafe s (apply_motor_values locked) b h = drive_motors-IsSafe locked s h

    BringsAllowed-head :
        (e : Event outside) (es : List (Event outside))
        → BringsAllowed outside Allowed (e ∷ es)
        → BringsAllowed outside Allowed (e ∷ []) × BringsAllowed outside Allowed es
    BringsAllowed-head (main_thread e) es b = (tt, b)
    BringsAllowed-head (next_call inputs) es b = (tt, b)
    BringsAllowed-head (receive_messages q) es b = ((b.0, tt), b.1)
    BringsAllowed-head process_heartbeat es b = (tt, b)
    BringsAllowed-head (apply_motor_configs locked) es b = (tt, b)
    BringsAllowed-head (apply_motor_values locked) es b = (tt, b)

    -- Only the task that applies motor configurations dereferences a null pointer.
    step_stops :
        (s : System outside) (e : Event outside)
        → step outside s e ≡ none
        → (locked : Bool) × (e ≡ apply_motor_configs locked)
          × (configure_motors outside locked s ≡ none)
    unfolding step
    step_stops s (apply_motor_configs locked) n = (locked, refl, n)
    step_stops s (main_thread e) n = ground (arith, n)
    step_stops s (next_call inputs) n = ground (arith, n)
    step_stops s (receive_messages q) n = ground (arith, n)
    step_stops s process_heartbeat n = ground (arith, n)
    step_stops s (apply_motor_values locked) n = ground (arith, n)

    run-IsSafe :
        (s : System outside) (es : List (Event outside))
        → BringsAllowed outside Allowed es
        → IsSafe outside Allowed P s
        → Completes (IsSafe outside Allowed P) s es ⊎ Stops (IsSafe outside Allowed P) s es
    unfolding run
    run-IsSafe s [] b h = inl (s, refl, h)
    run-IsSafe s (e ∷ es) b h =
        let (b0, b1) = BringsAllowed-head e es b in
        elim (Option-cases (step outside s e)) [
          | inl n ↦
              let (locked, same, null) = step_stops s e n in
              inr ([], es, locked, s, ap (λ e'. e' ∷ es) same, refl, null, h)
          | inr (s', n) ↦
              let h' : IsSafe outside Allowed P s' = rw n at (step-IsSafe s e b0 h) in
              elim (run-IsSafe s' es b1 h') [
                | inl (t, ran, safe) ↦ inl (t, rw (run, n) ran, safe)
                | inr (before, after, locked, t, split, ran, null, safe) ↦ inr (
                  e ∷ before,
                  after,
                  locked,
                  t,
                  ap (λ rest. e ∷ rest) split,
                  rw (run, n) ran,
                  null,
                  safe,
                )
              ]
        ]

    start_up-IsSafe : IsSafe outside Allowed P (start_up outside)
    unfolding start_up lookup Inbox.lookup
    start_up-IsSafe =
        let n : Network = record { recv_msg_map = []; external = external_control_initial } in
        record {
          valid = no_motors-IsValid talon;
          all = λ k. tt;
          own =
              standing-wired arithmetic generated (start_up outside).control.messages.motor_control
                (initial-standing arithmetic generated serializer kinematics n);
          mail = λ buf h. ground (arith, h);
        }

    -- Whatever callbacks, messages, heartbeats and runs of the motor tasks come, in any order, and
    -- between the calls of a callback, from the start: either all of them are carried out, or the
    -- run stops at a run of the task that applies motor configurations, which dereferences a null
    -- pointer. At the end, or before that run, the motors satisfy the invariant, and every motor
    -- has a property, which may depend on its id, if new motors have it and these keep it: the
    -- commands of allowed control messages, stopping, and the commands of a configuration. Allowed
    -- must be what control messages the network brings, and all those of the shape that the
    -- failover control gives its own; the parser must read back what the serializer wrote.
    pub run-AllAt_motors :
        (es : List (Event outside))
        → BringsAllowed outside Allowed es
        → Completes (AreGood P) (start_up outside) es ⊎ Stops (AreGood P) (start_up outside) es
    run-AllAt_motors es b = elim (run-IsSafe (start_up outside) es b start_up-IsSafe) [
      | inl (t, ran, safe) ↦ inl (t, ran, (safe.valid, safe.all))
      | inr (before, after, locked, t, split, ran, null, safe) ↦
          inr (before, after, locked, t, split, ran, null, (safe.valid, safe.all))
    ]
