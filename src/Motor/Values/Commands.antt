-- ===== src/Motor/Values/Commands.antt =====
-- Which commands src/main/cpp/tasks/ApplyMotorValuesTask.cpp can give to the motor of an id, where the
-- messages that it applies are of an allowed kind.
use Prim.Native.String.{String}
use ckriopassthru.Base.{
  ℕ, ◌≡◌, sym, subst, Bool, false, Option, none, some, List, [], ◌∷◌, arith, ◌==◌, not, ◌&&◌, ◌||◌,
  inl, inr, Bool-cases, Option-cases, refl, Every, ==-eq, ==-eq, Every, true,
}
use ckriopassthru.Base.Map.{lookup}
use ckriopassthru.Mode.{ControlMode, is_disabled}
use ckriopassthru.Network.{Network, Bytes, get_message}
use ckriopassthru.Phoenix.{CanInterface, get_can_interface_name}
use ckriopassthru.MotorConfig.{u16}
use ckriopassthru.Talon.{Talon, MotorType, talon_fx, talon_srx, other_type}
use ckriopassthru.Motor.{Motors, register_motor, motor_exists, get_motor, new_motor}
use ckriopassthru.Motor.Lease.{entry-register_motor}
use ckriopassthru.Motor.Each.{Each, AllAt, on_motor-AllAt, for_each_motor-AllAt}
use ckriopassthru.Motor.Invariant.{IsValid, register_motor-IsValid}
use ckriopassthru.Motor.Values.{
  MotorControl, drive_motor, apply_motor, apply_motors, stop_motor, run,
  motor_control_message_group, receive,
}
use ckriopassthru.Motor.Values.Safety.{apply_motor-IsValid, receive-IsValid}

module _ (talon : Talon) where
  open talon use {
    Motor, Value, is_inf, is_nan, zero_value, set_with_feedforward, set, follow, percent_output,
    new_talon_fx, new_talon_srx, to_control_mode, follower_number, to_id,
  }

  -- A property of the motor of an id that a new motor has, and that every command of an allowed
  -- message keeps: an output that is neither infinite nor NaN, following another motor, and stopping.
  pub record IsKeptAt (Allowed : MotorControl Value → Type 0) (P : ℕ → Motor → Type 0)
      : Type 0 where
    pub made_fx : (id : ℕ) (name : String) → P id (new_talon_fx id name)
    pub made_srx : (id : ℕ) → P id (new_talon_srx id)
    pub driven :
        (m : MotorControl Value) (d : Motor)
        → Allowed m
        → (m.control_mode == follower_number) ≡ false
        → is_inf m.output_value ≡ false
        → is_nan m.output_value ≡ false
        → P (u16 m.id) d
        → P (u16 m.id) (
            set_with_feedforward
              (to_control_mode m.control_mode)
              m.output_value
              m.arbitrary_feedforward
              d)
    pub followed :
        (m : MotorControl Value) (master d : Motor)
        → Allowed m
        → (m.control_mode == follower_number) ≡ true
        → P (to_id m.output_value) master
        → P (u16 m.id) d
        → P (u16 m.id) (follow master d)
    pub stopped : (id : ℕ) (d : Motor) → P id d → P id (set percent_output zero_value d)

module _ (talon : Talon) {Msg : Type 0} (can_network : Msg → CanInterface)
    (Allowed : MotorControl (talon.Value) → Type 0) (P : ℕ → talon.Motor → Type 0)
    (kept : IsKeptAt talon Allowed P) where
  open talon use {
    Motor, Value, is_inf, is_nan, to_id, zero_value, set_with_feedforward, set, follow,
    get_control_mode, percent_output, is_follower, to_control_mode, follower_number,
  }

  new_motor-Each :
      (t : MotorType) (id : ℕ) (can : CanInterface) → Each (P id) (new_motor talon t id can)
  unfolding new_motor
  new_motor-Each talon_fx id can = kept.made_fx id (get_can_interface_name can)
  new_motor-Each talon_srx id can = kept.made_srx id
  new_motor-Each (other_type n) id can = tt

  register-AllAt :
      (id : ℕ) (t : MotorType) (can : CanInterface) (w : Motors Motor Msg)
      → AllAt talon P w
      → AllAt talon P (register_motor talon id t can w)
  register-AllAt id t can w all k =
      let q : Each (P k) (lookup k w.manager.devices) = all k in
      subst (λ e. Each (P k) e.motor) (sym (entry-register_motor talon id k t can w))
        (elim (Bool-cases (id == k)) [
          | inl e ↦
              let made : Each (P k) (new_motor talon t id can) =
                subst (λ i. Each (P i) (new_motor talon t id can)) (==-eq id k e)
                  (new_motor-Each t id can) in
              ground (arith, e, made, q)
          | inr e ↦ ground (arith, e, q)
        ])

  drive_motor-P :
      (m : MotorControl Value) (w : Motors Motor Msg) (d : Motor)
      → Allowed m
      → AllAt talon P w
      → P (u16 m.id) d
      → P (u16 m.id) (drive_motor talon can_network m w d)
  unfolding drive_motor get_motor
  drive_motor-P m w d ok all p = elim (Bool-cases (m.control_mode == follower_number)) [
    | inl e ↦ elim (Option-cases (lookup (to_id m.output_value) w.manager.devices)) [
      | inl n ↦ rw (e, n) p
      | inr (master, n) ↦
          let q : P (to_id m.output_value) master = rw n at (all (to_id m.output_value)) in
          ground (arith, e, n, kept.followed m master d ok e q p)
    ]
    | inr e ↦ ground (
      arith,
      e,
      λ (a : is_inf m.output_value ≡ false) (b : is_nan m.output_value ≡ false).
          kept.driven m d ok e a b p,
    )
  ]

  apply_motor-AllAt :
      (m : MotorControl Value) (w : Motors Motor Msg)
      → Allowed m
      → IsValid w
      → AllAt talon P w
      → AllAt talon P (apply_motor talon can_network m w)
  unfolding apply_motor
  apply_motor-AllAt m w ok v all = elim (Option-cases (lookup (u16 m.id) w.configs.motor_msgs)) [
    | inl e ↦ rw (e, apply_motor) all
    | inr (c, e) ↦
        let can = can_network c in
        let w' = register_motor talon (u16 m.id) m.controller_type can w in
        let v' = register_motor-IsValid talon (u16 m.id) m.controller_type can w v in
        let all' : AllAt talon P w' = register-AllAt (u16 m.id) m.controller_type can w all in
        let driven =
          on_motor-AllAt talon P (u16 m.id) (λ id ctrl t. drive_motor talon can_network m w' ctrl)
            w' v' (λ d t. drive_motor-P m w' d ok all') all' in
        rw (e, apply_motor)
          (elim (Bool-cases (
            m.control_mode == follower_number && motor_exists (to_id m.output_value) w
            || not (m.control_mode == follower_number))) [ inl t ↦ rw t driven | inr f ↦ rw f all ])
  ]

  apply_motors-AllAt :
      (ms : List (MotorControl Value)) (w : Motors Motor Msg)
      → Every Allowed ms
      → IsValid w
      → AllAt talon P w
      → AllAt talon P (apply_motors talon can_network ms w)
  unfolding apply_motors
  apply_motors-AllAt [] w ok v all = all
  apply_motors-AllAt (m ∷ ms) w ok v all =
      apply_motors-AllAt ms (apply_motor talon can_network m w) ok.1
        (apply_motor-IsValid talon can_network m w v) (apply_motor-AllAt m w ok.0 v all)

  stop_motor-P : (k : ℕ) (d : Motor) → P k d → P k (stop_motor talon can_network d)
  unfolding stop_motor
  stop_motor-P k d p = ground (arith, kept.stopped k d p)

  receive-AllAt :
      (parse : Bytes → Option (List (MotorControl Value))) (locked : Bool) (message : Option Bytes)
      (w : Motors Motor Msg)
      → ((buf : Bytes) (ms : List (MotorControl Value))
          → message ≡ some buf
          → parse buf ≡ some ms
          → Every Allowed ms)
      → IsValid w
      → AllAt talon P w
      → AllAt talon P (receive talon can_network parse locked message w)
  unfolding receive
  receive-AllAt parse locked none w ok v all = all
  receive-AllAt parse locked (some buf) w ok v all = elim (Option-cases (parse buf)) [
    | inl e ↦ rw (e, receive) all
    | inr (ms, e) ↦ elim (Bool-cases locked) [
      | inl b ↦ rw (e, b, receive) (apply_motors-AllAt ms w (ok buf ms refl e) v all)
      | inr b ↦ rw (e, b, receive) all
    ]
  ]

  -- A run of the task that applies motor values, where the message it reads has allowed messages
  -- alone, keeps a property that every motor has at its id.
  pub run-AllAt :
      (parse : Bytes → Option (List (MotorControl Value))) (locked : Bool) (mode : ControlMode)
      (n : Network) (w : Motors Motor Msg)
      → ((buf : Bytes) (ms : List (MotorControl Value))
          → (get_message motor_control_message_group n).1 ≡ some buf
          → parse buf ≡ some ms
          → Every Allowed ms)
      → IsValid w
      → AllAt talon P w
      → AllAt talon P (run talon can_network parse locked mode (n, w)).1
  unfolding run
  run-AllAt parse locked mode n w ok v all =
      let message = (get_message motor_control_message_group n).1 in
      let v' = receive-IsValid talon can_network parse locked message w v in
      let all' = receive-AllAt parse locked message w ok v all in
      elim (Bool-cases (is_disabled mode)) [
        | inl e ↦ rw e (for_each_motor-AllAt talon P _ _ v' (λ k d t. stop_motor-P k d) all')
        | inr e ↦ rw e all'
      ]
