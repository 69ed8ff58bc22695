-- ===== src/Motor/Values.antt =====
-- src/main/cpp/tasks/ApplyMotorValuesTask.cpp: the outputs of the newest control message go to the
-- motors, and in disabled mode every motor that does not follow another is stopped.
pub mod Safety
pub mod Commands
pub mod Finite
pub mod Configured
use Prim.Native.String.{String}
use ckriopassthru.Base.{
  ℕ, Bool, true, false, Option, none, some, List, [], ◌∷◌, ◌&&◌, ◌||◌, not, ◌==◌, if◌then◌else◌,
}
use ckriopassthru.Base.Map.{lookup}
use ckriopassthru.Mode.{ControlMode, is_disabled}
use ckriopassthru.Network.{Network, Bytes, get_message}
use ckriopassthru.MotorConfig.{u16}
use ckriopassthru.Phoenix.{CanInterface}
use ckriopassthru.Talon.{Talon, MotorType}
use ckriopassthru.Motor.{Motors, register_motor, on_motor, for_each_motor, motor_exists, get_motor}

-- What the task reads of a ck::MotorControl::Motor; the type is after the cast.
pub record MotorControl (Value : Type 0) : Type 0 where
  pub id : ℕ
  pub control_mode : ℕ
  pub output_value : Value
  pub arbitrary_feedforward : Value
  pub controller_type : MotorType

abbrev pub motor_control_message_group : String
motor_control_message_group = "motorcontrol"

module _ (talon : Talon) {Msg : Type 0} (can_network : Msg → CanInterface) where
  open talon use {
    Motor, Value, is_inf, is_nan, to_id, zero_value, set_with_feedforward, set, follow,
    get_control_mode, percent_output, is_follower, to_control_mode, follower_number,
  }

  -- The callback of `onMotor`.
  unfoldable pub drive_motor : MotorControl Value → Motors Motor Msg → Motor → Motor
  drive_motor m w ctrl =
      if not (m.control_mode == follower_number)
      then (if not (is_inf m.output_value) && not (is_nan m.output_value)
          then set_with_feedforward (to_control_mode m.control_mode) m.output_value
              m.arbitrary_feedforward ctrl
          else ctrl)
      else elim (get_motor (to_id m.output_value) w) [
        | none ↦ ctrl
        | some master ↦
            if not (is_follower (get_control_mode ctrl)) then follow master ctrl else ctrl
      ]

  -- The body of the loop over the message.
  unfoldable pub apply_motor : MotorControl Value → Motors Motor Msg → Motors Motor Msg
  unfolding drive_motor
  apply_motor m w = elim (lookup (u16 m.id) w.configs.motor_msgs) [
    | none ↦ w
    | some config ↦
        let follows = m.control_mode == follower_number in
        let w' = register_motor talon (u16 m.id) m.controller_type (can_network config) w in
        let driven = on_motor (u16 m.id) (λ id ctrl motor_type. drive_motor m w' ctrl) w' in
        if follows && motor_exists (to_id m.output_value) w || not follows then driven else w
  ]

  unfoldable pub apply_motors : List (MotorControl Value) → Motors Motor Msg → Motors Motor Msg
  unfolding apply_motor
  apply_motors [] w = w
  apply_motors (m ∷ ms) w = apply_motors ms (apply_motor m w)

  -- The callback of `forEach` in disabled mode.
  unfoldable pub stop_motor : Motor → Motor
  stop_motor ctrl =
      if not (is_follower (get_control_mode ctrl)) then set percent_output zero_value ctrl else ctrl

  -- The message of a run: `parse` is the generated parser, `locked` whether `try_lock` got the lock.
  unfoldable pub receive :
      (Bytes → Option (List (MotorControl Value)))
      → Bool
      → Option Bytes
      → Motors Motor Msg
      → Motors Motor Msg
  unfolding apply_motors
  receive parse locked none w = w
  receive parse locked (some buf) w = elim (parse buf) [
    | none ↦ w
    | some ms ↦ if locked then apply_motors ms w else w
  ]

  unfoldable pub run :
      (Bytes → Option (List (MotorControl Value)))
      → Bool
      → ControlMode
      → Network × Motors Motor Msg
      → Network × Motors Motor Msg
  unfolding receive stop_motor
  run parse locked mode (n, w) =
      let (n', message) = get_message motor_control_message_group n in
      let w' = receive parse locked message w in
      (
        n',
        if is_disabled mode then for_each_motor (λ id ctrl motor_type. stop_motor ctrl) w' else w',
      )
