-- ===== src/MotorSettings/Task.antt =====
-- src/main/cpp/tasks/ApplyMotorConfigTask.cpp, the run of the task: every configured motor gets a full
-- update, or the updates of its changed fields. The comparison of messages, their parser and the way
-- the library carries out a command are parameters. `none` is a null pointer that is dereferenced.
pub mod Keeping
use Prim.Native.String.{String}
use ckriopassthru.Base.{
  ℕ, ◌≡◌, refl, Bool, true, false, Option, none, some, List, [], ◌∷◌, ltb, ◌==◌, length, is_some,
  if◌then◌else◌, arith, inl, inr, Option-cases, Bool-cases,
}
use ckriopassthru.Base.Map.{lookup}
use ckriopassthru.Registry.{index}
use ckriopassthru.MotorConfig.{u16, set_motors_config_msg, set_prev_motor_config_msg}
use ckriopassthru.Network.{Network, Bytes, get_message}
use ckriopassthru.Phoenix.{ErrorCode}
use ckriopassthru.Talon.{MotorType, talon_fx}
use ckriopassthru.Motor.{Motors, on_motor, motor_exists}
use ckriopassthru.Candle.Led.{Difference, added, modified, deleted, attempt}
use ckriopassthru.MotorSettings.{
  Scale, MotorSettings, MotorField, Command, Attempt, try_once, full_attempts, field_attempts,
}

pub record MotorConfiguration (Value : Type 0) : Type 0 where
  pub id : ℕ
  pub settings : MotorSettings Value

abbrev pub motor_config_message_group : String
motor_config_message_group = "motorconfig"

module _ (scale : Scale) {Motor : Type 0} (call : Command (scale.Value) → Motor → Motor × ErrorCode)
    (general_error : ErrorCode) (has_encoder : ℕ → Bool) where
  open scale use {Value}

  abbrev pub State : Type 0
  State = Motors Motor (MotorConfiguration Value)

  unfoldable pub perform : List (Attempt Value) → Motor → Motor
  unfolding attempt try_once
  perform [] d = d
  perform (a ∷ rest) d = perform rest (attempt (try_once general_error call a) d)

  unfoldable pub full_update : MotorConfiguration Value → State → State
  unfolding perform
  full_update m w =
      on_motor (u16 m.id) (λ id d kind. perform (full_attempts scale kind m.settings) d) w

  -- `onMotor` with a message, and the function of a field.
  unfoldable pub update_field : MotorConfiguration Value → MotorField → State → Option State
  unfolding perform index
  update_field m f w = elim (motor_exists (u16 m.id) w) [
    | false ↦ some w
    | true ↦
        elim (field_attempts scale has_encoder (index talon_fx (u16 m.id) w.manager.types).0
          m.settings f) [
            | none ↦ none
            | some attempts ↦ some (on_motor (u16 m.id) (λ id d kind. perform attempts d) w)
          ]
  ]

  unfoldable pub report_modified : MotorConfiguration Value → List MotorField → State → Option State
  unfolding update_field
  report_modified m [] w = some w
  report_modified m (f ∷ fs) w = elim (update_field m f w) [
    | none ↦ none
    | some w' ↦ report_modified m fs w'
  ]

  unfoldable pub report :
      MotorConfiguration Value → List (Difference MotorField) → State → Option State
  unfolding report_modified
  report m [] w = some w
  report m (added fs ∷ ds) w = elim (report_modified m fs w) [
    | none ↦ none
    | some w' ↦ report m ds w'
  ]
  report m (modified fs ∷ ds) w = elim (report_modified m fs w) [
    | none ↦ none
    | some w' ↦ report m ds w'
  ]
  report m (deleted fs ∷ ds) w = report m ds w

  abbrev record_applied : MotorConfiguration Value → Option State → Option State
  record_applied m none = none
  record_applied m (some w) =
      some (record w { configs = set_prev_motor_config_msg (u16 m.id) m w.configs })

  module _ (default_msg : MotorConfiguration Value)
      (differences : MotorConfiguration Value
        → MotorConfiguration Value
        → List (Difference MotorField)) where
    -- The body of the loop, where `size` is the number of motors of the message.
    unfoldable pub apply_config : ℕ → MotorConfiguration Value → State → Option State
    unfolding full_update report index
    apply_config size m w =
        let (prev, prevs) = index default_msg (u16 m.id) w.configs.prev_motor_msgs in
        let compared : State = record w {
          configs = record w.configs { prev_motor_msgs = prevs };
        } in
        if motor_exists (u16 m.id) w
        then record_applied m (
            if size == length w.configs.prev_motor_msgs
            then report m (differences prev m) compared
            else some (full_update m w))
        else some w

    unfoldable pub apply_configs : ℕ → List (MotorConfiguration Value) → State → Option State
    unfolding apply_config
    apply_configs size [] w = some w
    apply_configs size (m ∷ ms) w = elim (apply_config size m w) [
      | none ↦ none
      | some w' ↦ apply_configs size ms w'
    ]

    unfoldable pub run :
        (Bytes → Option (List (MotorConfiguration Value)))
        → Bool
        → Network × State
        → Network × Option State
    unfolding apply_configs
    run parse locked (n, w) =
        let (n', message) = get_message motor_config_message_group n in
        (
          n',
          elim message [
            | none ↦ some w
            | some buf ↦ elim (parse buf) [
              | none ↦ some w
              | some ms ↦
                  let w' : State = record w {
                    configs = set_motors_config_msg (λ m. m.id) ms w.configs;
                  } in
                  let applied = apply_configs (length ms) ms w' in
                  if locked then applied else some w
            ]
          ],
        )
