-- ===== src/MotorSettings/Task/Keeping.antt =====
-- What src/main/cpp/tasks/ApplyMotorConfigTask.cpp keeps of the motors: the invariant, and a property of
-- every motor that each command of a configuration keeps.
use ckriopassthru.Base.{
  ℕ, zero, suc, Bool, Option, none, some, List, [], ◌∷◌, inl, inr, Option-cases, Bool-cases, length,
  ◌==◌,
}
use ckriopassthru.Registry.{index}
use ckriopassthru.Phoenix.{ErrorCode}
use ckriopassthru.Phoenix.Retry.{after, calls, run_phoenix_function_with_retry_lem}
use ckriopassthru.Talon.{Talon, MotorType, talon_fx}
use ckriopassthru.MotorConfig.{u16, set_motors_config_msg}
use ckriopassthru.Network.{Network, Bytes, get_message}
use ckriopassthru.Motor.{on_motor, motor_exists}
use ckriopassthru.Motor.Each.{Each, AllAt, on_motor-AllAt}
use ckriopassthru.Motor.Invariant.{IsValid, on_motor-IsValid}
use ckriopassthru.Candle.Led.{Difference, added, modified, deleted, attempt}
use ckriopassthru.MotorSettings.{
  Scale, MotorField, Command, Attempt, one, both, try_once, full_attempts, field_attempts,
}
use ckriopassthru.MotorSettings.Task.{
  MotorConfiguration, State, perform, full_update, update_field, report_modified, report,
  apply_config, apply_configs, record_applied, motor_config_message_group, run,
}

-- The retry keeps what every call keeps.
after-P :
    {S : Type 0} (Q : S → Type 0) (func : S → S × ErrorCode)
    → ((s : S) → Q s → Q (func s).0)
    → (n : ℕ) (s : S) → Q s
    → Q (after func n s)
unfolding after
after-P Q func keep zero s q = q
after-P Q func keep (suc n) s q = after-P Q func keep n (func s).0 (keep s q)

attempt-P :
    {S : Type 0} (Q : S → Type 0) (func : S → S × ErrorCode)
    → ((s : S) → Q s → Q (func s).0)
    → (s : S) → Q s
    → Q (attempt func s)
unfolding attempt
attempt-P Q func keep s q =
    rw (attempt, run_phoenix_function_with_retry_lem func s)
      (after-P Q func keep (calls func s) s q)

module _ (talon : Talon) (P : ℕ → talon.Motor → Type 0) (scale : Scale)
    (call : Command (scale.Value) → talon.Motor → talon.Motor × ErrorCode)
    (general_error : ErrorCode) (has_encoder : ℕ → Bool)
    (configured : (id : ℕ) (c : Command (scale.Value)) (d : talon.Motor)
      → P id d
      → P id (call c d).0) where
  open talon use {Motor}
  open scale use {Value}

  -- The invariant, with the property at every id.
  abbrev pub IsKept : State scale call general_error has_encoder → Type 0
  IsKept w = IsValid w × AllAt talon P w

  try_once-P :
      (id : ℕ) (a : Attempt Value) (d : Motor) → P id d → P id (try_once general_error call a d).0
  unfolding try_once
  try_once-P id (one c) d p = configured id c d p
  try_once-P id (both a b) d p = configured id b (call a d).0 (configured id a d p)

  perform-P :
      (id : ℕ) (attempts : List (Attempt Value)) (d : Motor)
      → P id d
      → P id (perform scale call general_error has_encoder attempts d)
  unfolding perform
  perform-P id [] d p = p
  perform-P id (a ∷ attempts) d p =
      perform-P id attempts _
        (attempt-P (P id) (try_once general_error call a) (try_once-P id a) d p)

  on_motor-IsKept :
      (id : ℕ) (attempts : MotorType → List (Attempt Value))
      (w : State scale call general_error has_encoder)
      → IsKept w
      → IsKept (
          on_motor id
            (λ i d kind. perform scale call general_error has_encoder (attempts kind) d)
            w)
  on_motor-IsKept id attempts w (v, all) = (
    on_motor-IsValid talon id _ w v,
    on_motor-AllAt talon P id _ w v (λ d kind. perform-P id (attempts kind) d) all,
  )

  full_update-IsKept :
      (m : MotorConfiguration Value) (w : State scale call general_error has_encoder)
      → IsKept w
      → IsKept (full_update scale call general_error has_encoder m w)
  unfolding full_update
  full_update-IsKept m w k =
      on_motor-IsKept (u16 m.id) (λ kind. full_attempts scale kind m.settings) w k

  update_field-IsKept :
      (m : MotorConfiguration Value) (f : MotorField)
      (w : State scale call general_error has_encoder)
      → IsKept w
      → Each IsKept (update_field scale call general_error has_encoder m f w)
  unfolding update_field
  update_field-IsKept m f w k =
      let kind = (index talon_fx (u16 m.id) w.manager.types).0 in
      elim (Bool-cases (motor_exists (u16 m.id) w)) [
        | inl e ↦ elim (Option-cases (field_attempts scale has_encoder kind m.settings f)) [
          | inl n ↦ rw (e, update_field, n) tt
          | inr (attempts, n) ↦
              rw (e, update_field, n) (on_motor-IsKept (u16 m.id) (λ t. attempts) w k)
        ]
        | inr e ↦ rw (e, update_field) k
      ]

  report_modified-IsKept :
      (m : MotorConfiguration Value) (fs : List MotorField)
      (w : State scale call general_error has_encoder)
      → IsKept w
      → Each IsKept (report_modified scale call general_error has_encoder m fs w)
  unfolding report_modified
  report_modified-IsKept m [] w k = k
  report_modified-IsKept m (f ∷ fs) w k =
      elim (Option-cases (update_field scale call general_error has_encoder m f w)) [
        | inl e ↦ rw (report_modified, e) tt
        | inr (w', e) ↦
            let k' : IsKept w' = rw e at (update_field-IsKept m f w k) in
            rw (report_modified, e) (report_modified-IsKept m fs w' k')
      ]

  report-IsKept :
      (m : MotorConfiguration Value) (ds : List (Difference MotorField))
      (w : State scale call general_error has_encoder)
      → IsKept w
      → Each IsKept (report scale call general_error has_encoder m ds w)
  unfolding report
  report-IsKept m [] w k = k
  report-IsKept m (added fs ∷ ds) w k =
      elim (Option-cases (report_modified scale call general_error has_encoder m fs w)) [
        | inl e ↦ rw (report, e) tt
        | inr (w', e) ↦
            let k' : IsKept w' = rw e at (report_modified-IsKept m fs w k) in
            rw (report, e) (report-IsKept m ds w' k')
      ]
  report-IsKept m (modified fs ∷ ds) w k =
      elim (Option-cases (report_modified scale call general_error has_encoder m fs w)) [
        | inl e ↦ rw (report, e) tt
        | inr (w', e) ↦
            let k' : IsKept w' = rw e at (report_modified-IsKept m fs w k) in
            rw (report, e) (report-IsKept m ds w' k')
      ]
  report-IsKept m (deleted fs ∷ ds) w k = report-IsKept m ds w k

  record_applied-IsKept :
      (m : MotorConfiguration Value) (o : Option (State scale call general_error has_encoder))
      → Each IsKept o
      → Each IsKept (record_applied scale call general_error has_encoder m o)
  record_applied-IsKept m none k = tt
  record_applied-IsKept m (some w) (v, all) = (record { sorted = v.sorted; lease = v.lease }, all)

  module _ (default_msg : MotorConfiguration Value)
      (differences : MotorConfiguration Value
        → MotorConfiguration Value
        → List (Difference MotorField)) where
    apply_config-IsKept :
        (size : ℕ) (m : MotorConfiguration Value) (w : State scale call general_error has_encoder)
        → IsKept w
        → Each IsKept
            (apply_config scale call general_error has_encoder default_msg differences size m w)
    unfolding apply_config
    apply_config-IsKept size m w (v, all) =
        let (prev, prevs) = index default_msg (u16 m.id) w.configs.prev_motor_msgs in
        let compared : State scale call general_error has_encoder = record w {
          configs = record w.configs { prev_motor_msgs = prevs };
        } in
        let k : IsKept compared = (record { sorted = v.sorted; lease = v.lease }, all) in
        elim (Bool-cases (motor_exists (u16 m.id) w)) [
          | inl e ↦ elim (Bool-cases (size == length w.configs.prev_motor_msgs)) [
            | inl n ↦
                rw (e, n)
                  (record_applied-IsKept m
                    (report scale call general_error has_encoder m (differences prev m) compared)
                    (report-IsKept m (differences prev m) compared k))
            | inr n ↦
                rw (e, n)
                  (record_applied-IsKept m
                    (some (full_update scale call general_error has_encoder m w))
                    (full_update-IsKept m w (v, all)))
          ]
          | inr e ↦ rw e (v, all)
        ]

    apply_configs-IsKept :
        (size : ℕ) (ms : List (MotorConfiguration Value))
        (w : State scale call general_error has_encoder)
        → IsKept w
        → Each IsKept
            (apply_configs scale call general_error has_encoder default_msg differences size ms w)
    unfolding apply_configs
    apply_configs-IsKept size [] w k = k
    apply_configs-IsKept size (m ∷ ms) w k =
        elim (Option-cases
          (apply_config scale call general_error has_encoder default_msg differences size m w)) [
            | inl e ↦ rw (apply_configs, e) tt
            | inr (w', e) ↦
                let k' : IsKept w' = rw e at (apply_config-IsKept size m w k) in
                rw (apply_configs, e) (apply_configs-IsKept size ms w' k')
          ]

    -- A run of the task keeps the invariant of the motors, and a property of every motor at its id
    -- that each command of a configuration keeps, unless it dereferences a null pointer.
    pub run-IsKept :
        (parse : Bytes → Option (List (MotorConfiguration Value))) (locked : Bool) (n : Network)
        (w : State scale call general_error has_encoder)
        → IsKept w
        → Each IsKept
            (run scale call general_error has_encoder default_msg differences parse locked (n, w)).1
    unfolding run
    run-IsKept parse locked n w (v, all) =
        elim (Option-cases (get_message motor_config_message_group n).1) [
          | inl e ↦ rw (e, run) (v, all)
          | inr (buf, e) ↦ elim (Option-cases (parse buf)) [
            | inl p ↦ rw (e, run, p) (v, all)
            | inr (ms, p) ↦
                let w' : State scale call general_error has_encoder = record w {
                  configs = set_motors_config_msg (λ m. m.id) ms w.configs;
                } in
                let k : IsKept w' = (record { sorted = v.sorted; lease = v.lease }, all) in
                elim (Bool-cases locked) [
                  | inl b ↦ rw (e, run, p, b) (apply_configs-IsKept (length ms) ms w' k)
                  | inr b ↦ rw (e, run, p, b) (v, all)
                ]
          ]
        ]
