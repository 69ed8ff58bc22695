-- ===== src/Talon.antt =====
-- What the program relies on outside its own code to drive a motor: the Phoenix library's motor
-- objects (`BaseTalon`, `TalonFX`, `TalonSRX`), C++'s `double`, and the generated message classes.
-- All of it is a parameter of the model.
use Prim.Native.String.{String}
use ckriopassthru.Base.{ℕ, Bool}

-- `double` and what the motor code does with it.
pub record Double : Type 1 where
  pub Value : Type 0
  pub zero_value : Value
  pub is_inf : Value → Bool
  pub is_nan : Value → Bool
  -- The conversion of a double to an id, as in `motorExists(m.output_value())`.
  pub to_id : Value → ℕ

-- The motor objects. A call takes the object and gives it back as the call leaves it.
pub record Talon : Type 1 where
  pub double : Double
  pub open double use *
  pub Motor : Type 0
  pub ControlMode : Type 0
  pub new_talon_fx : ℕ → String → Motor
  pub new_talon_srx : ℕ → Motor
  -- `Set(mode, value, DemandType_ArbitraryFeedForward, feedforward)`.
  pub set_with_feedforward : ControlMode → Value → Value → Motor → Motor
  -- `Set(mode, value)`.
  pub set : ControlMode → Value → Motor → Motor
  -- `follow master motor` is `motor->Follow(*master)`.
  pub follow : Motor → Motor → Motor
  pub get_control_mode : Motor → ControlMode
  pub percent_output : ControlMode
  -- `(ControlMode)` of a number of the message, and the message's own enumerator for following.
  pub to_control_mode : ℕ → ControlMode
  pub follower_number : ℕ
  -- Whether a mode is `ControlMode::Follower`.
  pub is_follower : ControlMode → Bool

-- `(MotorType)` of a number that the message holds: the enumerators, and any other number.
pub data MotorType : Type 0 where
  talon_fx talon_srx : MotorType
  other_type : ℕ → MotorType
