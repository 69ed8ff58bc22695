-- ===== src/System/Safety.antt =====
-- What every step of the main thread and of the tasks keeps: motors with a property, and messages for them
-- that are allowed; and that callbacks and their calls keep it.
use ckriopassthru.Base.{ℕ, ◌≡◌, subst, some, List, [], ◌∷◌, Every, inl, inr, Bool-cases, List-cases}
use ckriopassthru.Network.{Bytes}
use ckriopassthru.Network.Contents.{Keeps, Brings}
use ckriopassthru.MotorSettings.{Command}
use ckriopassthru.Motor.Each.{Each, AllAt}
use ckriopassthru.Motor.Invariant.{IsValid}
use ckriopassthru.Motor.Values.{MotorControl}
use ckriopassthru.Motor.Values.Commands.{IsKeptAt}
use ckriopassthru.Failover.Swerve.{Inputs}
use ckriopassthru.Failover.Shape.{Are, wired}
use ckriopassthru.Failover.Contents.{perform_effects-IsWatched}
use ckriopassthru.Robot
use ckriopassthru.System.{
  Outside, System, Event, main_thread, begin_callback, perform_next, receive_messages, is_callback,
  step, perform_effects,
}

module _ (outside : Outside) where
  open outside use {
    talon, arithmetic, generated, serializer, kinematics, parse_controls, scale, call,
    general_error, default_msg, differences, parse_configs, can_network, eagain,
  }
  open talon use {Value, Motor}

  -- The parser reads back what the serializer wrote.
  abbrev pub ReadsBack : Type 0
  ReadsBack =
      (ms ms' : List (MotorControl Value)) (buf : Bytes)
      → serializer.motor_control_bytes ms ≡ some buf
      → parse_controls buf ≡ some ms'
      → ms ≡ ms'

  -- Messages that are allowed, which those of the failover control are, and a property of motors
  -- that commands of allowed messages keep, and configurations too.
  pub record IsRespected (Allowed : MotorControl Value → Type 0) (P : ℕ → Motor → Type 0)
      : Type 0 where
    pub commanded : IsKeptAt talon Allowed P
    pub configured : (id : ℕ) (c : Command (scale.Value)) (d : Motor) → P id d → P id (call c d).0
    pub own :
        (ms : List (MotorControl Value)) → Are (wired arithmetic generated) ms → Every Allowed ms

  -- Bytes that do not parse, or parse to allowed messages.
  abbrev pub IsAllowed : (MotorControl Value → Type 0) → Bytes → Type 0
  IsAllowed Allowed buf =
      (ms : List (MotorControl Value)) → parse_controls buf ≡ some ms → Every Allowed ms

  -- The network brings allowed motor control messages alone.
  abbrev pub BringsAllowed : (MotorControl Value → Type 0) → List (Event outside) → Type 0
  BringsAllowed Allowed [] = Unit
  BringsAllowed Allowed (receive_messages q ∷ es) =
      Brings "motorcontrol" (IsAllowed Allowed) q × BringsAllowed Allowed es
  BringsAllowed Allowed (e ∷ es) = BringsAllowed Allowed es

  -- The state that every step keeps.
  pub record IsSafe (Allowed : MotorControl Value → Type 0) (P : ℕ → Motor → Type 0)
      (s : System outside) : Type 0 where
    pub valid : IsValid s.motors
    pub all : AllAt talon P s.motors
    pub own : Are (wired arithmetic generated) s.control.messages.motor_control
    pub mail : Keeps "motorcontrol" (IsAllowed Allowed) s.control.network

  module _ (Allowed : MotorControl Value → Type 0) (P : ℕ → Motor → Type 0) where
    begin_callback-IsSafe :
        (e : Robot.Event) (s : System outside)
        → IsSafe Allowed P s
        → IsSafe Allowed P (begin_callback outside e s)
    unfolding begin_callback
    begin_callback-IsSafe e s h = record {
      valid = h.valid;
      all = h.all;
      own = h.own;
      mail = h.mail;
    }

    pub main_thread-IsSafe :
        (e : Robot.Event) (s : System outside)
        → IsSafe Allowed P s
        → Each (IsSafe Allowed P) (step outside s (main_thread e))
    unfolding step
    main_thread-IsSafe e s h = elim (List-cases s.pending) [
      | inl n ↦ elim (Bool-cases (is_callback e)) [
        | inl c ↦ rw (step, n, c) (begin_callback-IsSafe e s h)
        | inr c ↦ rw (step, n, c) h
      ]
      | inr (effect, rest, n) ↦ rw (step, n) h
    ]

  module _ (Allowed : MotorControl Value → Type 0) (P : ℕ → Motor → Type 0)
      (respected : IsRespected Allowed P) (reads_back : ReadsBack) where
    own-IsAllowed :
        (ms : List (MotorControl Value)) (buf : Bytes)
        → Are (wired arithmetic generated) ms
        → serializer.motor_control_bytes ms ≡ some buf
        → IsAllowed Allowed buf
    own-IsAllowed ms buf w e ms' p =
        subst (Every Allowed) (reads_back ms ms' buf e p) (respected.own ms w)

    pub perform_next-IsSafe :
        (inputs : Inputs Value) (s : System outside)
        → IsSafe Allowed P s
        → IsSafe Allowed P (perform_next outside inputs s)
    unfolding perform_next
    perform_next-IsSafe inputs s h = elim (List-cases s.pending) [
      | inl n ↦ rw (perform_next, n) h
      | inr (effect, rest, n) ↦
          let watched =
            perform_effects-IsWatched arithmetic generated serializer kinematics (IsAllowed Allowed)
              inputs (effect ∷ []) s.control own-IsAllowed (h.own, h.mail) in
          let next : System outside = record s {
            pending = rest;
            control =
                perform_effects arithmetic generated serializer kinematics inputs (effect ∷ [])
                  s.control;
          } in
          let safe : IsSafe Allowed P next = record {
            valid = h.valid;
            all = h.all;
            own = watched.0;
            mail = watched.1;
          } in
          rw (perform_next, n) safe
    ]
