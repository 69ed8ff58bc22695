-- ===== src/Mode.antt =====
-- src/main/cpp/utils/RobotControlModeHelper.cpp: the mode of the robot, and whether a driver station
-- is attached. `UNKNOWN` is a second name of `DISABLED`.
use ckriopassthru.Base.{Bool, true, false}

pub data ControlMode : Type 0 where
  disabled teleop autonomous test invalid : ControlMode

pub record ModeHelper : Type 0 where
  pub ds_attached : Bool
  pub control_mode : ControlMode

abbrev pub mode_initial : ModeHelper
mode_initial = record { ds_attached = false; control_mode = disabled }

unfoldable pub set_control_mode : ControlMode → ModeHelper → ModeHelper
set_control_mode mode h = record h { control_mode = mode }

unfoldable pub set_ds_attached : Bool → ModeHelper → ModeHelper
set_ds_attached attached h = record h { ds_attached = attached }

abbrev pub is_disabled : ControlMode → Bool
is_disabled disabled = true
is_disabled _ = false

abbrev pub is_teleop : ControlMode → Bool
is_teleop teleop = true
is_teleop _ = false
