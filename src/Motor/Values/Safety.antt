-- ===== src/Motor/Values/Safety.antt =====
-- What src/main/cpp/tasks/ApplyMotorValuesTask.cpp never does to a motor.
use ckriopassthru.Registry.Walk.{lookup-walk, visited}
use ckriopassthru.Mode.{disabled}
use ckriopassthru.Base.{
  List, [], ◌∷◌, ◌==◌, not, ◌&&◌, ◌||◌, inl, inr, Bool-cases, Option-cases, Option, ℕ, some, sym,
  ◌≡◌, Bool, true, ◌⊎◌, arith, none, is_some, ◌∙◌, refl,
}
use ckriopassthru.Base.Map.{lookup}
use ckriopassthru.Phoenix.{CanInterface}
use ckriopassthru.MotorConfig.{u16}
use ckriopassthru.Talon.{Talon, MotorType, talon_fx}
use ckriopassthru.Motor.{Motors, register_motor, motor_exists, MotorType, for_each_motor}
use ckriopassthru.Motor.Invariant.{
  IsValid, register_motor-IsValid, on_motor-IsValid, for_each_motor-IsValid, IsValid-IsTyped,
}
use ckriopassthru.Motor.Values.{
  MotorControl, drive_motor, apply_motor, apply_motors, Bytes, run, ControlMode, Network,
  get_message, motor_control_message_group, is_disabled, receive, stop_motor,
}

module _ (talon : Talon) {Msg : Type 0} (can_network : Msg → CanInterface) where
  open talon use {
    Motor, Value, is_inf, is_nan, to_id, zero_value, set_with_feedforward, set, follow,
    get_control_mode, percent_output, is_follower, to_control_mode, follower_number, new_talon_fx,
    new_talon_srx,
  }

  pub apply_motor-IsValid :
      (m : MotorControl Value) (w : Motors Motor Msg)
      → IsValid w
      → IsValid (apply_motor talon can_network m w)
  unfolding apply_motor
  apply_motor-IsValid m w v = elim (Option-cases (lookup (u16 m.id) w.configs.motor_msgs)) [
    | inl e ↦ rw (e, apply_motor) v
    | inr (c, e) ↦
        let w' = register_motor talon (u16 m.id) m.controller_type (can_network c) w in
        let v' = register_motor-IsValid talon (u16 m.id) m.controller_type (can_network c) w v in
        let driven =
          on_motor-IsValid talon (u16 m.id) (λ id ctrl t. drive_motor talon can_network m w' ctrl)
            w' v' in
        rw (e, apply_motor)
          (elim (Bool-cases (
            m.control_mode == follower_number && motor_exists (to_id m.output_value) w
            || not (m.control_mode == follower_number))) [ inl t ↦ rw t driven | inr f ↦ rw f v ])
  ]

  pub apply_motors-IsValid :
      (ms : List (MotorControl Value)) (w : Motors Motor Msg)
      → IsValid w
      → IsValid (apply_motors talon can_network ms w)
  unfolding apply_motors
  apply_motors-IsValid [] w v = v
  apply_motors-IsValid (m ∷ ms) w v =
      apply_motors-IsValid ms (apply_motor talon can_network m w) (apply_motor-IsValid m w v)

  pub receive-IsValid :
      (parse : Bytes → Option (List (MotorControl Value))) (locked : Bool) (message : Option Bytes)
      (w : Motors Motor Msg)
      → IsValid w
      → IsValid (receive talon can_network parse locked message w)
  unfolding receive
  receive-IsValid parse locked none w v = v
  receive-IsValid parse locked (some buf) w v = elim (Option-cases (parse buf)) [
    | inl e ↦ rw (e, receive) v
    | inr (ms, e) ↦ elim (Bool-cases locked) [
      | inl b ↦ rw (e, b, receive) (apply_motors-IsValid ms w v)
      | inr b ↦ rw (e, b, receive) v
    ]
  ]

  -- A run of the task that applies motor values keeps the invariant of the motors.
  pub run_values-IsValid :
      (parse : Bytes → Option (List (MotorControl Value))) (locked : Bool) (mode : ControlMode)
      (n : Network) (w : Motors Motor Msg)
      → IsValid w
      → IsValid (run talon can_network parse locked mode (n, w)).1
  unfolding run
  run_values-IsValid parse locked mode n w v =
      let message = (get_message motor_control_message_group n).1 in
      let v' = receive-IsValid parse locked message w v in
      elim (Bool-cases (is_disabled mode)) [
        | inl e ↦ rw e (for_each_motor-IsValid talon _ _ v')
        | inr e ↦ rw e v'
      ]

  visited-eq-some :
      (func : ℕ → Motor → MotorType → Motor) (k : ℕ) (m : Option Motor) (t : Option MotorType)
      (d : Motor)
      → (is_some m ≡ true → is_some t ≡ true)
      → visited func k m t ≡ some d
      → (d' : Motor) × (t' : MotorType) × (func k d' t' ≡ d)
  visited-eq-some func k none t d typed e = cc
  visited-eq-some func k (some d') none d typed e = cc (typed refl)
  visited-eq-some func k (some d') (some t') d typed e = (d', t', ground (arith, e))

  -- A motor that was stopped.
  abbrev pub IsStopped : Motor → Type 0
  IsStopped d = (before : Motor) × (d ≡ set percent_output zero_value before)

  stop_motor-IsStopped :
      (d : Motor)
      → (is_follower (get_control_mode (stop_motor talon can_network d)) ≡ true)
        ⊎ IsStopped (stop_motor talon can_network d)
  unfolding stop_motor
  stop_motor-IsStopped d = elim (Bool-cases (is_follower (get_control_mode d))) [
    | inl e ↦ inl (ground (arith, e))
    | inr e ↦ inr (d, rw e)
  ]

  -- From motors that satisfy the invariant, after a run of the task in disabled mode, whatever
  -- message it read, every motor follows another motor or was last told to put out 0.
  pub run_disabled :
      (parse : Bytes → Option (List (MotorControl Value))) (locked : Bool) (n : Network)
      (w : Motors Motor Msg) (k : ℕ) (d : Motor)
      → IsValid w
      → lookup k (run talon can_network parse locked disabled (n, w)).1.manager.devices ≡ some d
      → (is_follower (get_control_mode d) ≡ true) ⊎ IsStopped d
  unfolding run for_each_motor
  run_disabled parse locked n w k d v found =
      let w' =
        receive talon can_network parse locked (get_message motor_control_message_group n).1 w in
      let v' = receive-IsValid parse locked (get_message motor_control_message_group n).1 w v in
      let stop : ℕ → Motor → MotorType → Motor = λ id ctrl t. stop_motor talon can_network ctrl in
      let typed = IsValid-IsTyped talon w' v' in
      let (d', t, e) =
        visited-eq-some stop k _ _ d (typed k)
          (sym (lookup-walk talon_fx stop k w'.manager.devices w'.manager.types typed) ∙ found) in
      rw (← e) (stop_motor-IsStopped d')
