-- ===== src/Motor/Values/Configured.antt =====
-- Which motors src/main/cpp/tasks/ApplyMotorValuesTask.cpp can bring into being.
use ckriopassthru.Base.{
  ℕ, ◌≡◌, ◌⊎◌, refl, sym, Bool, true, Option, none, some, List, [], ◌∷◌, arith, ◌==◌, not, ◌&&◌,
  ◌||◌, inl, inr, Bool-cases, Option-cases, ap, ◌∙◌, ==-eq, is_some,
}
use ckriopassthru.Base.Map.{lookup, has}
use ckriopassthru.Registry.Walk.{visited, devices-on_device, lookup-walk}
use ckriopassthru.Mode.{ControlMode, is_disabled}
use ckriopassthru.Network.{Network, Bytes, get_message}
use ckriopassthru.Phoenix.{CanInterface}
use ckriopassthru.MotorConfig.{u16}
use ckriopassthru.Talon.{Talon, MotorType, talon_fx}
use ckriopassthru.Motor.{Motors, register_motor, on_motor, for_each_motor, motor_exists}
use ckriopassthru.Motor.Lease.{entry-register_motor}
use ckriopassthru.Motor.Invariant.{IsValid, IsValid-IsTyped, register_motor-IsValid}
use ckriopassthru.Motor.Values.{
  MotorControl, drive_motor, apply_motor, apply_motors, receive, stop_motor, run,
  motor_control_message_group,
}
use ckriopassthru.Motor.Values.Safety.{apply_motor-IsValid, receive-IsValid}

visited-is_some :
    {Motor : Type 0} (func : ℕ → Motor → MotorType → Motor) (k : ℕ) (m : Option Motor)
    (t : Option MotorType)
    → is_some (visited func k m t) ≡ is_some m
visited-is_some func k none t = refl
visited-is_some func k (some d) none = refl
visited-is_some func k (some d) (some t) = refl

module _ (talon : Talon) {Msg : Type 0} where
  open talon use {Motor}

  motor_exists-on_motor :
      (id k : ℕ) (func : ℕ → Motor → MotorType → Motor) (w : Motors Motor Msg)
      → IsValid w
      → motor_exists k (on_motor id func w) ≡ motor_exists k w
  unfolding on_motor motor_exists has
  motor_exists-on_motor id k func w v =
      let func' : ℕ → Motor → MotorType → Unit {0} → Motor × Unit {0} =
        λ i d t s. (func i d t, s) in
      rw (devices-on_device talon_fx id k func' w.manager tt (IsValid-IsTyped talon w v))
        (elim (Bool-cases (id == k)) [ inl e ↦ rw e (visited-is_some func k _ _) | inr e ↦ rw e ])

  motor_exists-for_each_motor :
      (k : ℕ) (func : ℕ → Motor → MotorType → Motor) (w : Motors Motor Msg)
      → IsValid w
      → motor_exists k (for_each_motor func w) ≡ motor_exists k w
  unfolding for_each_motor motor_exists has
  motor_exists-for_each_motor k func w v =
      rw (lookup-walk talon_fx func k w.manager.devices w.manager.types (IsValid-IsTyped talon w v))
        (visited-is_some func k _ _)

  motor_exists-register_motor :
      (id k : ℕ) (t : MotorType) (can : CanInterface) (w : Motors Motor Msg)
      → motor_exists k (register_motor talon id t can w) ≡ true
      → (motor_exists k w ≡ true) ⊎ (id ≡ k)
  unfolding motor_exists has
  motor_exists-register_motor id k t can w h =
      let e = ap (λ e. is_some e.motor) (entry-register_motor talon id k t can w) in
      elim (Bool-cases (id == k)) [
        | inl same ↦ inr (==-eq id k same)
        | inr other ↦ inl (sym (e ∙ rw other) ∙ h)
      ]

  configs-register_motor :
      (id : ℕ) (t : MotorType) (can : CanInterface) (w : Motors Motor Msg)
      → (register_motor talon id t can w).configs ≡ w.configs
  unfolding register_motor
  configs-register_motor id t can w = ground arith

module _ (talon : Talon) {Msg : Type 0} (can_network : Msg → CanInterface) where
  open talon use {Motor, Value, to_id, follower_number}

  configs-apply_motor :
      (m : MotorControl Value) (w : Motors Motor Msg)
      → (apply_motor talon can_network m w).configs ≡ w.configs
  unfolding apply_motor on_motor
  configs-apply_motor m w = elim (Option-cases (lookup (u16 m.id) w.configs.motor_msgs)) [
    | inl e ↦ rw (e, apply_motor)
    | inr (c, e) ↦
        rw (e, apply_motor)
          (ground
            (arith, configs-register_motor talon (u16 m.id) m.controller_type (can_network c) w))
  ]

  -- The id has a motor, or a configuration.
  abbrev IsAllowed : ℕ → Motors Motor Msg → Type 0
  IsAllowed k w = (motor_exists k w ≡ true) ⊎ (has k w.configs.motor_msgs ≡ true)

  motor_exists-apply_motor :
      (k : ℕ) (m : MotorControl Value) (w : Motors Motor Msg)
      → IsValid w
      → motor_exists k (apply_motor talon can_network m w) ≡ true
      → IsAllowed k w
  unfolding apply_motor has
  motor_exists-apply_motor k m w v h =
      elim (Option-cases (lookup (u16 m.id) w.configs.motor_msgs)) [
        | inl e ↦ inl (rw (e, apply_motor) at h)
        | inr (c, e) ↦
            let can = can_network c in
            let w' = register_motor talon (u16 m.id) m.controller_type can w in
            let v' = register_motor-IsValid talon (u16 m.id) m.controller_type can w v in
            let func : ℕ → Motor → MotorType → Motor =
              λ id ctrl t. drive_motor talon can_network m w' ctrl in
            let follows = m.control_mode == follower_number in
            elim (Bool-cases (follows && motor_exists (to_id m.output_value) w || not follows)) [
              | inl t ↦
                  let h' : motor_exists k (on_motor (u16 m.id) func w') ≡ true =
                    rw (e, apply_motor, t) at h in
                  elim (motor_exists-register_motor talon (u16 m.id) k m.controller_type can w
                    (sym (motor_exists-on_motor talon (u16 m.id) k func w' v') ∙ h')) [
                      | inl before ↦ inl before
                      | inr same ↦ inr (rw (← same, e))
                    ]
              | inr f ↦ inl (rw (e, apply_motor, f) at h)
            ]
      ]

  motor_exists-apply_motors :
      (k : ℕ) (ms : List (MotorControl Value)) (w : Motors Motor Msg)
      → IsValid w
      → motor_exists k (apply_motors talon can_network ms w) ≡ true
      → IsAllowed k w
  unfolding apply_motors
  motor_exists-apply_motors k [] w v h = inl h
  motor_exists-apply_motors k (m ∷ ms) w v h =
      let w' = apply_motor talon can_network m w in
      elim (motor_exists-apply_motors k ms w' (apply_motor-IsValid talon can_network m w v) h) [
        | inl e ↦ motor_exists-apply_motor k m w v e
        | inr e ↦ inr (rw (configs-apply_motor m w) at e)
      ]

  motor_exists-receive :
      (parse : Bytes → Option (List (MotorControl Value))) (locked : Bool) (message : Option Bytes)
      (k : ℕ) (w : Motors Motor Msg)
      → IsValid w
      → motor_exists k (receive talon can_network parse locked message w) ≡ true
      → IsAllowed k w
  unfolding receive
  motor_exists-receive parse locked none k w v h = inl h
  motor_exists-receive parse locked (some buf) k w v h = elim (Option-cases (parse buf)) [
    | inl e ↦ inl (rw (e, receive) at h)
    | inr (ms, e) ↦ elim (Bool-cases locked) [
      | inl b ↦ motor_exists-apply_motors k ms w v (rw (e, b, receive) at h)
      | inr b ↦ inl (rw (e, b, receive) at h)
    ]
  ]

  -- From motors that satisfy the invariant, a motor that exists after a run of the task that
  -- applies motor values existed before it, or its id had a configuration message.
  pub motor_exists-run_values :
      (parse : Bytes → Option (List (MotorControl Value))) (locked : Bool) (mode : ControlMode)
      (n : Network) (w : Motors Motor Msg) (k : ℕ)
      → IsValid w
      → motor_exists k (run talon can_network parse locked mode (n, w)).1 ≡ true
      → (motor_exists k w ≡ true) ⊎ (has k w.configs.motor_msgs ≡ true)
  unfolding run
  motor_exists-run_values parse locked mode n w k v h =
      let message = (get_message motor_control_message_group n).1 in
      let w' = receive talon can_network parse locked message w in
      let v' = receive-IsValid talon can_network parse locked message w v in
      let stop : ℕ → Motor → MotorType → Motor = λ id ctrl t. stop_motor talon can_network ctrl in
      elim (Bool-cases (is_disabled mode)) [
        | inl e ↦
            motor_exists-receive parse locked message k w v
              (sym (motor_exists-for_each_motor talon k stop w' v') ∙ rw e at h)
        | inr e ↦ motor_exists-receive parse locked message k w v (rw e at h)
      ]
