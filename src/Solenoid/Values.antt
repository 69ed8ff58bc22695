-- ===== src/Solenoid/Values.antt =====
-- src/main/cpp/tasks/ApplySolenoidValuesTask.cpp: the compressor, and the values of the newest message,
-- which are applied when the message changed or some time has passed. The compressor object, the
-- comparison of messages, their parser and the clock are parameters.
pub mod Compressor
use Prim.Native.String.{String}
use ckriopassthru.Base.{
  ℕ, Bool, true, false, Option, none, some, List, [], ◌∷◌, ◌&&◌, ◌||◌, not, ltb, length,
  if◌then◌else◌,
}
use ckriopassthru.Mode.{ControlMode, is_teleop}
use ckriopassthru.Network.{Network, Bytes, get_message}
use ckriopassthru.Registry.{Registry, on_device}
use ckriopassthru.Solenoid.{
  Pneumatics, Solenoid, ModuleType, SolenoidType, SolenoidValue, single, register_solenoid, set,
}

-- What the task reads of a ck::SolenoidControl::Solenoid and of the whole message.
pub record SolenoidControl : Type 0 where
  pub module_type : ModuleType
  pub id : ℕ
  pub solenoid_type : SolenoidType
  pub output_value : SolenoidValue

pub record SolenoidsControl : Type 0 where
  pub compressor_is_enabled_for_auto : Bool
  pub solenoids : List SolenoidControl

-- `frc::Compressor`.
pub record Compressors : Type 1 where
  pub Compressor : Type 0
  pub new_compressor : Compressor
  pub disable : Compressor → Compressor
  pub enable_digital : Compressor → Compressor

abbrev pub solenoid_control_message_group : String
solenoid_control_message_group = "solenoidcontrol"

module _ (pneumatics : Pneumatics) (compressors : Compressors) where
  open compressors use {Compressor, new_compressor, disable, enable_digital}

  -- The task's members, and the manager that it changes.
  pub record SolenoidTask : Type 0 where
    pub prev_solenoid_msg : SolenoidsControl
    pub compressor : Option Compressor
    pub compressor_state : Bool
    pub manager : Registry (Solenoid pneumatics) SolenoidType

  unfoldable pub ensure_compressor : SolenoidTask → SolenoidTask
  ensure_compressor s = elim s.compressor [
    | none ↦ record s { compressor = some (disable new_compressor); compressor_state = false }
    | some c ↦ s
  ]

  unfoldable pub turn : (Compressor → Compressor) → Bool → SolenoidTask → SolenoidTask
  turn command state s = elim s.compressor [
    | none ↦ s
    | some c ↦ record s { compressor = some (command c); compressor_state = state }
  ]

  -- The block under `solenoids_size() > 0`.
  unfoldable pub drive_compressor : ControlMode → SolenoidsControl → SolenoidTask → SolenoidTask
  unfolding ensure_compressor turn
  drive_compressor mode m s =
      let s' = ensure_compressor s in
      if not m.compressor_is_enabled_for_auto && not (is_teleop mode)
      then (if s'.compressor_state then turn disable false s' else s')
      else (if not s'.compressor_state then turn enable_digital true s' else s')

  -- `throws` is whether the constructors of WPILib throw for an id, if it has no solenoid yet. `none`
  -- is their exception.
  unfoldable pub apply_solenoid :
      (ℕ → Bool)
      → SolenoidControl
      → Registry (Solenoid pneumatics) SolenoidType
      → Option (Registry (Solenoid pneumatics) SolenoidType)
  unfolding on_device
  apply_solenoid throws m r =
      elim (register_solenoid pneumatics (throws m.id) m.module_type m.id m.solenoid_type r) [
        | none ↦ none
        | some r' ↦ some (
            (on_device {0, 0, 0} single m.id (λ id d t u. (set pneumatics m.output_value d, u)) r'
              tt).0)
      ]

  -- The solenoids that are left, and whether the loop ends by an exception.
  unfoldable pub apply_solenoids :
      (ℕ → Bool)
      → List SolenoidControl
      → Registry (Solenoid pneumatics) SolenoidType
      → Registry (Solenoid pneumatics) SolenoidType × Bool
  unfolding apply_solenoid
  apply_solenoids throws [] r = (r, false)
  apply_solenoids throws (m ∷ ms) r = elim (apply_solenoid throws m r) [
    | none ↦ (r, true)
    | some r' ↦ apply_solenoids throws ms r'
  ]

  -- A message that was read; `overdue` is whether the mandatory update period has passed, `empty_msg`
  -- what a message holds that could not be parsed. An exception ends the run, with the message
  -- before still the one to compare with.
  unfoldable pub receive :
      (ℕ → Bool)
      → (SolenoidsControl → SolenoidsControl → Bool)
      → Bool
      → ControlMode
      → SolenoidsControl
      → Option SolenoidsControl
      → SolenoidTask
      → SolenoidTask × Bool
  unfolding drive_compressor apply_solenoids
  receive throws equivalent overdue mode empty_msg none s =
      (record s { prev_solenoid_msg = empty_msg }, false)
  receive throws equivalent overdue mode empty_msg (some m) s =
      let s' = if ltb 0 (length m.solenoids) then drive_compressor mode m s else s in
      let (r, thrown) =
        if not (equivalent m s.prev_solenoid_msg) || overdue
        then apply_solenoids throws m.solenoids s.manager
        else (s.manager, false) in
      (
        record s' { prev_solenoid_msg = if thrown then s.prev_solenoid_msg else m; manager = r },
        thrown,
      )

  -- The network and the state after a run, and whether it ends by an exception.
  unfoldable pub run :
      (ℕ → Bool)
      → (Bytes → Option SolenoidsControl)
      → (SolenoidsControl → SolenoidsControl → Bool)
      → Bool
      → ControlMode
      → SolenoidsControl
      → Network × SolenoidTask
      → Network × SolenoidTask × Bool
  unfolding receive
  run throws parse equivalent overdue mode empty_msg (n, s) =
      let (n', message) = get_message solenoid_control_message_group n in
      let (s', thrown) = elim message as (λ o. SolenoidTask × Bool) [
        | none ↦ (s, false)
        | some buf ↦ receive throws equivalent overdue mode empty_msg (parse buf) s
      ] in
      (n', s', thrown)
