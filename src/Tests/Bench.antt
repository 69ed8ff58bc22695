-- ===== src/Tests/Bench.antt =====
-- A motor library for the tests: a motor is the list of the commands that it was given, the newest
-- first.
use ckriopassthru.Base.{ℕ, true, false, List, [], ◌∷◌, ◌==◌}
use ckriopassthru.Talon.{Double, Talon, talon_fx}
use ckriopassthru.Phoenix.{CanInterface, rio_canivore}
use ckriopassthru.Motor.Values.{MotorControl}

pub data Reading : Type 0 where
  finite : ℕ → Reading
  infinite not_a_number : Reading

abbrev pub readings : Double
readings = record {
  Value = Reading;
  zero_value = finite 0;
  is_inf = λ v. elim v [ infinite ↦ true | _ ↦ false ];
  is_nan = λ v. elim v [ not_a_number ↦ true | _ ↦ false ];
  to_id = λ v. elim v [ finite n ↦ n | _ ↦ 0 ];
}

pub data Command : Type 0 where
  created : Command
  commanded : ℕ → Reading → Command
  following : Command

abbrev pub mode_of : List Command → ℕ
mode_of [] = 0
mode_of (created ∷ cs) = 0
mode_of (commanded mode v ∷ cs) = mode
mode_of (following ∷ cs) = 5

abbrev pub bench : Talon
bench = record {
  double = readings;
  Motor = List Command;
  ControlMode = ℕ;
  new_talon_fx = λ id name. created ∷ [];
  new_talon_srx = λ id. created ∷ [];
  set_with_feedforward = λ mode v ff d. commanded mode v ∷ d;
  set = λ mode v d. commanded mode v ∷ d;
  follow = λ master d. following ∷ d;
  get_control_mode = mode_of;
  percent_output = 0;
  to_control_mode = λ n. n;
  follower_number = 5;
  is_follower = λ mode. mode == 5;
}

-- No command of the list has an infinite value or none.
abbrev pub AllFinite : List Command → Type 0
AllFinite [] = Unit
AllFinite (commanded mode (finite n) ∷ cs) = AllFinite cs
AllFinite (commanded mode infinite ∷ cs) = ⊥
AllFinite (commanded mode not_a_number ∷ cs) = ⊥
AllFinite (created ∷ cs) = AllFinite cs
AllFinite (following ∷ cs) = AllFinite cs

-- A configuration message is its id.
abbrev pub canivore : ℕ → CanInterface
canivore m = rio_canivore

-- A message that drives motor 4 at 7.
abbrev pub drive_four : MotorControl Reading
drive_four = record {
  id = 4;
  control_mode = 1;
  output_value = finite 7;
  arbitrary_feedforward = finite 0;
  controller_type = talon_fx;
}
