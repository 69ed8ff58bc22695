-- ===== src/MotorSettings/Agreement.antt =====
-- The differential updates of src/main/cpp/tasks/ApplyMotorConfigTask.cpp against its full update.
use ckriopassthru.Base.{
  ℕ, zero, suc, ◌≡◌, ◌⊎◌, inl, inr, refl, Bool, true, false, Option, none, some, List, [], ◌∷◌,
  ◌++◌, if◌then◌else◌, arith, ltb, ◌<◌,
}
use ckriopassthru.Talon.{MotorType, talon_fx, talon_srx, other_type}
use ckriopassthru.MotorSettings.{
  Scale, MotorSettings, MotorField, Attempt, one, common, closed_loop, full_attempts,
  field_attempts, supply_limit, stator_limit, frames, is_slave, peak_forward, peak_reverse,
  config_closed_loop_peak_output, other_fd, kp_fd, ki_fd, kd_fd, kf_fd, kp1_fd, ki1_fd, kd1_fd,
  kf1_fd, izone_fd, max_i_accum_fd, allowed_closed_loop_error_fd, max_closed_loop_peak_output_fd,
  motion_cruise_velocity_fd, motion_acceleration_fd, motion_s_curve_strength_fd,
  forward_soft_limit_fd, forward_soft_limit_enable_fd, reverse_soft_limit_fd,
  reverse_soft_limit_enable_fd, feedback_sensor_coefficient_fd, voltage_compensation_saturation_fd,
  voltage_compensation_enabled_fd, invert_type_fd, sensor_phase_inverted_fd, neutral_mode_fd,
  open_loop_ramp_fd, closed_loop_ramp_fd, supply_current_limit_config_fd,
  stator_current_limit_config_fd, forward_limit_switch_source_fd, forward_limit_switch_normal_fd,
  reverse_limit_switch_source_fd, reverse_limit_switch_normal_fd, peak_output_forward_fd,
  peak_output_reverse_fd, feedback_sensor_can_id_fd, active_gain_slot_fd,
}

module _ {A : Type 0} where
  -- The list has the element, or all the elements.
  abbrev pub Has : A → List A → Type 0
  Has a [] = ⊥
  Has a (x ∷ xs) = (a ≡ x) ⊎ Has a xs

  abbrev pub HasAll : List A → List A → Type 0
  HasAll [] ys = Unit {0}
  HasAll (x ∷ xs) ys = Has x ys × HasAll xs ys

  nth : ℕ → List A → Option A
  nth n [] = none
  nth zero (x ∷ xs) = some x
  nth (suc n) (x ∷ xs) = nth n xs

  Has-nth : (n : ℕ) (a : A) (xs : List A) → nth n xs ≡ some a → Has a xs
  unfolding nth
  Has-nth n a [] e = ground (arith, e)
  Has-nth zero a (x ∷ xs) e = inl (ground (arith, e))
  Has-nth (suc n) a (x ∷ xs) e = inr (Has-nth n a xs e)

  Has-left : (a : A) (xs ys : List A) → Has a xs → Has a (xs ++ ys)
  Has-left a [] ys h = absurd h
  Has-left a (x ∷ xs) ys (inl e) = inl e
  Has-left a (x ∷ xs) ys (inr h) = inr (Has-left a xs ys h)

  Has-right : (a : A) (xs ys : List A) → Has a ys → Has a (xs ++ ys)
  Has-right a [] ys h = h
  Has-right a (x ∷ xs) ys h = inr (Has-right a xs ys h)

-- The fields whose function tries what the full update tries, for a motor that is not a slave.
abbrev pub is_covered : MotorField → Bool
is_covered max_closed_loop_peak_output_fd = false
is_covered feedback_sensor_coefficient_fd = false
is_covered sensor_phase_inverted_fd = false
is_covered feedback_sensor_can_id_fd = false
is_covered _ = true

abbrev pub AllOf : {A : Type 0} → Option (List A) → List A → Type 0
AllOf none ys = ⊥
AllOf (some xs) ys = HasAll xs ys

module _ (scale : Scale) where
  open scale use {Value, below_0_01}

  in_common :
      (n : ℕ) (kind : MotorType) (m : MotorSettings Value) (a : Attempt Value)
      → nth n (common scale m) ≡ some a
      → HasAll (a ∷ []) (full_attempts scale kind m)
  unfolding full_attempts
  in_common n kind m a e = (Has-left a (common scale m) _ (Has-nth n a (common scale m) e), tt)

  in_closed_loop :
      (n : ℕ) (kind : MotorType) (m : MotorSettings Value) (a : Attempt Value)
      → is_slave m.controller_mode ≡ false
      → nth n (closed_loop scale m) ≡ some a
      → HasAll (a ∷ []) (full_attempts scale kind m)
  unfolding full_attempts
  in_closed_loop n kind m a master e =
      let rest : List (Attempt Value) =
        supply_limit kind m.supply_current_limit_config
        ++ (stator_limit kind m.stator_current_limit_config ++ frames m.controller_mode) in
      let found =
        Has-right a (common scale m) (closed_loop scale m ++ rest)
          (Has-left a (closed_loop scale m) rest (Has-nth n a (closed_loop scale m) e)) in
      (rw (master) found, tt)

  in_limits :
      (kind : MotorType) (m : MotorSettings Value) (a : Attempt Value)
      → Has a (
          supply_limit kind m.supply_current_limit_config
          ++ (stator_limit kind m.stator_current_limit_config ++ frames m.controller_mode))
      → Has a (full_attempts scale kind m)
  unfolding full_attempts
  in_limits kind m a h =
      Has-right a (common scale m) _
        (Has-right a (if is_slave m.controller_mode then [] else closed_loop scale m) _ h)

  supply_agrees :
      (kind : MotorType) (m : MotorSettings Value)
      → HasAll (supply_limit kind m.supply_current_limit_config) (full_attempts scale kind m)
  unfolding supply_limit
  supply_agrees talon_fx m = (in_limits talon_fx m _ (inl refl), tt)
  supply_agrees talon_srx m = (in_limits talon_srx m _ (inl refl), tt)
  supply_agrees (other_type n) m = tt

  stator_agrees :
      (kind : MotorType) (m : MotorSettings Value)
      → HasAll (stator_limit kind m.stator_current_limit_config) (full_attempts scale kind m)
  unfolding supply_limit stator_limit
  stator_agrees talon_fx m = (in_limits talon_fx m _ (inr (inl refl)), tt)
  stator_agrees talon_srx m = tt
  stator_agrees (other_type n) m = tt

  -- For a motor that is not a slave, the update function of every field, except the peak closed
  -- loop output, the feedback coefficient, the sensor phase and the feedback sensor, tries nothing
  -- but what the full update tries.
  pub field_attempts-full_attempts :
      (has_encoder : ℕ → Bool) (kind : MotorType) (m : MotorSettings Value) (f : MotorField)
      → is_slave m.controller_mode ≡ false
      → is_covered f ≡ true
      → AllOf (field_attempts scale has_encoder kind m f) (full_attempts scale kind m)
  unfolding field_attempts common closed_loop nth peak_forward peak_reverse
  field_attempts-full_attempts has_encoder kind m kp_fd master covered =
      in_closed_loop 1 kind m _ master refl
  field_attempts-full_attempts has_encoder kind m ki_fd master covered =
      in_closed_loop 2 kind m _ master refl
  field_attempts-full_attempts has_encoder kind m kd_fd master covered =
      in_closed_loop 3 kind m _ master refl
  field_attempts-full_attempts has_encoder kind m kf_fd master covered =
      in_closed_loop 4 kind m _ master refl
  field_attempts-full_attempts has_encoder kind m kp1_fd master covered =
      in_closed_loop 5 kind m _ master refl
  field_attempts-full_attempts has_encoder kind m ki1_fd master covered =
      in_closed_loop 6 kind m _ master refl
  field_attempts-full_attempts has_encoder kind m kd1_fd master covered =
      in_closed_loop 7 kind m _ master refl
  field_attempts-full_attempts has_encoder kind m kf1_fd master covered =
      in_closed_loop 8 kind m _ master refl
  field_attempts-full_attempts has_encoder kind m izone_fd master covered =
      in_closed_loop 10 kind m _ master refl
  field_attempts-full_attempts has_encoder kind m max_i_accum_fd master covered =
      in_closed_loop 11 kind m _ master refl
  field_attempts-full_attempts has_encoder kind m allowed_closed_loop_error_fd master covered =
      in_closed_loop 12 kind m _ master refl
  field_attempts-full_attempts has_encoder kind m max_closed_loop_peak_output_fd master covered =
      cc covered
  field_attempts-full_attempts has_encoder kind m motion_cruise_velocity_fd master covered =
      in_closed_loop 14 kind m _ master refl
  field_attempts-full_attempts has_encoder kind m motion_acceleration_fd master covered =
      in_closed_loop 15 kind m _ master refl
  field_attempts-full_attempts has_encoder kind m motion_s_curve_strength_fd master covered =
      in_closed_loop 16 kind m _ master refl
  field_attempts-full_attempts has_encoder kind m forward_soft_limit_fd master covered =
      in_closed_loop 17 kind m _ master refl
  field_attempts-full_attempts has_encoder kind m forward_soft_limit_enable_fd master covered =
      in_closed_loop 18 kind m _ master refl
  field_attempts-full_attempts has_encoder kind m reverse_soft_limit_fd master covered =
      in_closed_loop 19 kind m _ master refl
  field_attempts-full_attempts has_encoder kind m reverse_soft_limit_enable_fd master covered =
      in_closed_loop 20 kind m _ master refl
  field_attempts-full_attempts has_encoder kind m feedback_sensor_coefficient_fd master covered =
      cc covered
  field_attempts-full_attempts has_encoder kind m voltage_compensation_saturation_fd master
        covered =
      in_common 1 kind m _ refl
  field_attempts-full_attempts has_encoder kind m voltage_compensation_enabled_fd master covered =
      in_common 2 kind m _ refl
  field_attempts-full_attempts has_encoder kind m invert_type_fd master covered =
      in_common 3 kind m _ refl
  field_attempts-full_attempts has_encoder kind m sensor_phase_inverted_fd master covered =
      cc covered
  field_attempts-full_attempts has_encoder kind m neutral_mode_fd master covered =
      in_common 4 kind m _ refl
  field_attempts-full_attempts has_encoder kind m open_loop_ramp_fd master covered =
      in_common 5 kind m _ refl
  field_attempts-full_attempts has_encoder kind m closed_loop_ramp_fd master covered =
      in_common 6 kind m _ refl
  field_attempts-full_attempts has_encoder kind m supply_current_limit_config_fd master covered =
      supply_agrees kind m
  field_attempts-full_attempts has_encoder kind m stator_current_limit_config_fd master covered =
      stator_agrees kind m
  field_attempts-full_attempts has_encoder kind m forward_limit_switch_source_fd master covered =
      in_common 9 kind m _ refl
  field_attempts-full_attempts has_encoder kind m forward_limit_switch_normal_fd master covered =
      in_common 9 kind m _ refl
  field_attempts-full_attempts has_encoder kind m reverse_limit_switch_source_fd master covered =
      in_common 10 kind m _ refl
  field_attempts-full_attempts has_encoder kind m reverse_limit_switch_normal_fd master covered =
      in_common 10 kind m _ refl
  field_attempts-full_attempts has_encoder kind m peak_output_forward_fd master covered =
      in_common 7 kind m _ refl
  field_attempts-full_attempts has_encoder kind m peak_output_reverse_fd master covered =
      in_common 8 kind m _ refl
  field_attempts-full_attempts has_encoder kind m feedback_sensor_can_id_fd master covered =
      cc covered
  field_attempts-full_attempts has_encoder kind m active_gain_slot_fd master covered =
      in_closed_loop 9 kind m _ master refl
  field_attempts-full_attempts has_encoder kind m (other_fd n) master covered = tt

  -- The update function of the peak closed loop output tries the message's value, also below 0.01,
  -- where the full update of a motor that is not a slave tries 1.
  peak_output-differs :
      (has_encoder : ℕ → Bool) (kind : MotorType) (m : MotorSettings Value)
      → is_slave m.controller_mode ≡ false
      → below_0_01 m.max_closed_loop_peak_output ≡ true
      → (field_attempts scale has_encoder kind m max_closed_loop_peak_output_fd
          ≡ some (one (config_closed_loop_peak_output m.max_closed_loop_peak_output) ∷ []))
        × Has (one (config_closed_loop_peak_output scale.one_value)) (full_attempts scale kind m)
  unfolding field_attempts closed_loop nth
  peak_output-differs has_encoder kind m master low =
      let e : nth 13 (closed_loop scale m)
          ≡ some (one (config_closed_loop_peak_output scale.one_value)) =
        rw (low) refl in
      (refl, (in_closed_loop 13 kind m _ master e).0)

  -- When the remote feedback sensor of a message changes to one that no encoder is registered for,
  -- its update function dereferences a null pointer.
  feedback-null :
      (has_encoder : ℕ → Bool) (kind : MotorType) (m : MotorSettings Value)
      → 0 < m.feedback_sensor_can_id
      → has_encoder m.feedback_sensor_can_id ≡ false
      → field_attempts scale has_encoder kind m feedback_sensor_can_id_fd ≡ none
  unfolding field_attempts
  feedback-null has_encoder kind m remote missing =
      let e : ltb 0 m.feedback_sensor_can_id ≡ true = ground arith in rw (e, missing) refl
