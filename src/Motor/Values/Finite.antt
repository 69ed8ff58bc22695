-- ===== src/Motor/Values/Finite.antt =====
-- Which commands src/main/cpp/tasks/ApplyMotorValuesTask.cpp can give to a motor.
use Prim.Native.String.{String}
use ckriopassthru.Base.{ℕ, ◌≡◌, Bool, false, Option, List, [], ◌∷◌, Every}
use ckriopassthru.Base.Map.{lookup}
use ckriopassthru.Mode.{ControlMode}
use ckriopassthru.Network.{Network, Bytes}
use ckriopassthru.Phoenix.{CanInterface}
use ckriopassthru.Talon.{Talon}
use ckriopassthru.Motor.{Motors}
use ckriopassthru.Motor.Invariant.{IsValid}
use ckriopassthru.Motor.Values.{MotorControl, run}
use ckriopassthru.Motor.Each.{Each}
use ckriopassthru.Motor.Values.Commands.{IsKeptAt, run-AllAt}

module _ (talon : Talon) where
  open talon use {
    Motor, Value, is_inf, is_nan, zero_value, set_with_feedforward, set, follow, percent_output,
    new_talon_fx, new_talon_srx,
  }

  -- A property that a new motor has, and that every command the task may give keeps: an output
  -- that is neither infinite nor NaN, following another motor, and stopping.
  pub record IsKept (P : Motor → Type 0) : Type 0 where
    pub made_fx : (id : ℕ) (name : String) → P (new_talon_fx id name)
    pub made_srx : (id : ℕ) → P (new_talon_srx id)
    pub driven :
        (mode : talon.ControlMode) (v ff : Value) (d : Motor)
        → is_inf v ≡ false
        → is_nan v ≡ false
        → P d
        → P (set_with_feedforward mode v ff d)
    pub followed : (master d : Motor) → P master → P d → P (follow master d)
    pub stopped : (d : Motor) → P d → P (set percent_output zero_value d)

  abbrev pub AllMotors : {Msg : Type 0} → (Motor → Type 0) → Motors Motor Msg → Type 0
  AllMotors P w = (k : ℕ) → Each P (lookup k w.manager.devices)

module _ (talon : Talon) {Msg : Type 0} (can_network : Msg → CanInterface)
    (P : talon.Motor → Type 0) (kept : IsKept talon P) where
  open talon use {
    Motor, Value, is_inf, is_nan, to_id, zero_value, set_with_feedforward, set, follow,
    get_control_mode, percent_output, is_follower, to_control_mode, follower_number,
  }

  kept_at : IsKeptAt talon (λ m. Unit) (λ k. P)
  kept_at = record {
    made_fx = kept.made_fx;
    made_srx = kept.made_srx;
    driven = λ m d ok mode inf nan p.
        kept.driven (to_control_mode m.control_mode) m.output_value m.arbitrary_feedforward d inf
          nan p;
    followed = λ m master d ok mode q p. kept.followed master d q p;
    stopped = λ id d p. kept.stopped d p;
  }

  Every-Unit : {A : Type 0} (xs : List A) → Every (λ x. Unit) xs
  Every-Unit [] = tt
  Every-Unit (x ∷ xs) = (tt, Every-Unit xs)

  -- From motors that satisfy the invariant, a run of the task that applies motor values gives
  -- motors no command but an output that is neither infinite nor NaN, following a motor, and
  -- stopping: a property that all motors have, that a new motor has and that each of these commands
  -- keeps, all motors have after the run.
  pub run-AllMotors :
      (parse : Bytes → Option (List (MotorControl Value))) (locked : Bool) (mode : ControlMode)
      (n : Network) (w : Motors Motor Msg)
      → IsValid w
      → AllMotors talon P w
      → AllMotors talon P (run talon can_network parse locked mode (n, w)).1
  run-AllMotors parse locked mode n w v all =
      run-AllAt talon can_network (λ m. Unit) (λ k. P) kept_at parse locked mode n w
        (λ buf ms found parsed. Every-Unit ms) v all
