-- ===== src/Candle/Led/Record.antt =====
-- Which LED controllers exist after src/main/cpp/tasks/ApplyLEDControlTask.cpp applied a message, and
-- which message it records.
use ckriopassthru.Base.{
  ℕ, ◌≡◌, refl, ◌∙◌, Bool, true, false, List, [], ◌∷◌, ◌&&◌, ◌||◌, arith, ltb, ◌==◌, ==-eq,
  if◌then◌else◌, is_some, inl, inr, Bool-cases, Option-cases, length, ap,
}
use ckriopassthru.Base.Map.{lookup, has, lookup-insert}
use ckriopassthru.Registry.{index}
use ckriopassthru.MotorConfig.{u16}
use ckriopassthru.Phoenix.{get_can_interface_name}
use ckriopassthru.Candle.{
  Candles, on_candle, candle_exists, register_candle, set_prev_candle_config_msg,
}
use ckriopassthru.Candle.Lease.{entry-register_candle}
use ckriopassthru.Candle.Led.{
  Leds, LedControl, LedField, led_type_fd, vbat_config_fd, vbat_duty_cycle_fd, led_control_mode_fd,
  color_fd, animation_fd, other_field, static, animated, other_mode, Difference, added, modified,
  deleted, State, clear_all_animations, update_color, update_animation, process_led_update,
  full_update, update_field, report_modified, report, apply_led,
}

exists-on_candle {ℓ κ} :
    {Candle : Type ℓ} {Msg : Type κ} (id k : ℕ) (func : Candle → Candle) (c : Candles Candle Msg)
    → candle_exists k (on_candle id func c) ≡ candle_exists k c
unfolding on_candle candle_exists has
exists-on_candle id k func c = elim (Option-cases (lookup id c.candles)) [
  | inl e ↦ rw (e, on_candle)
  | inr (d, e) ↦
      rw (e, on_candle) (ground (arith, e, ==-eq id k, lookup-insert id k (func d) c.candles))
]

module _ (leds : Leds) (default_msg : LedControl (leds.Value)) (k : ℕ) where
  exists-clear_all_animations :
      (id : ℕ) (c : State leds default_msg)
      → candle_exists k (clear_all_animations leds default_msg id c) ≡ candle_exists k c
  unfolding clear_all_animations candle_exists
  exists-clear_all_animations id c = elim (Bool-cases (candle_exists id c)) [
    | inl e ↦ rw (e, clear_all_animations) (exists-on_candle id k _ _)
    | inr e ↦ rw (e, clear_all_animations)
  ]

  exists-process_led_update :
      (m : LedControl (leds.Value)) (c : State leds default_msg)
      → candle_exists k (process_led_update leds default_msg m c) ≡ candle_exists k c
  unfolding process_led_update update_color update_animation
  exists-process_led_update m c =
      elim m.led_control_mode
        as (λ mode.
          candle_exists k
            (process_led_update leds default_msg (record m { led_control_mode = mode }) c)
          ≡ candle_exists k c) [
            | static ↦ exists-on_candle (u16 m.id) k _ _ ∙ exists-clear_all_animations (u16 m.id) c
            | animated ↦
                exists-on_candle (u16 m.id) k _ _ ∙ exists-clear_all_animations (u16 m.id) c
            | other_mode n ↦ refl
          ]

  exists-full_update :
      (m : LedControl (leds.Value)) (c : State leds default_msg)
      → candle_exists k (full_update leds default_msg m c) ≡ candle_exists k c
  unfolding full_update
  exists-full_update m c = elim (Bool-cases (candle_exists (u16 m.id) c)) [
    | inl e ↦
        rw (e, full_update) (exists-process_led_update m _ ∙ exists-on_candle (u16 m.id) k _ _)
    | inr e ↦ rw (e, full_update)
  ]

  exists-update_field :
      (m : LedControl (leds.Value)) (f : LedField) (c : State leds default_msg)
      → candle_exists k (update_field leds default_msg m f c) ≡ candle_exists k c
  unfolding update_field
  exists-update_field m led_type_fd c = exists-on_candle (u16 m.id) k _ c
  exists-update_field m vbat_config_fd c = exists-on_candle (u16 m.id) k _ c
  exists-update_field m vbat_duty_cycle_fd c = exists-on_candle (u16 m.id) k _ c
  exists-update_field m led_control_mode_fd c = exists-process_led_update m c
  exists-update_field m color_fd c = exists-process_led_update m c
  exists-update_field m animation_fd c = exists-process_led_update m c
  exists-update_field m (other_field n) c = refl

  exists-report_modified :
      (m : LedControl (leds.Value)) (fs : List LedField) (c : State leds default_msg)
      → candle_exists k (report_modified leds default_msg m fs c) ≡ candle_exists k c
  unfolding report_modified
  exists-report_modified m [] c = refl
  exists-report_modified m (f ∷ fs) c = exists-report_modified m fs _ ∙ exists-update_field m f c

  exists-report :
      (m : LedControl (leds.Value)) (ds : List (Difference LedField)) (c : State leds default_msg)
      → candle_exists k (report leds default_msg m ds c) ≡ candle_exists k c
  unfolding report
  exists-report m [] c = refl
  exists-report m (added fs ∷ ds) c = exists-report m ds _ ∙ exists-report_modified m fs c
  exists-report m (modified fs ∷ ds) c = exists-report m ds _ ∙ exists-report_modified m fs c
  exists-report m (deleted fs ∷ ds) c = exists-report m ds c

  exists-register_candle :
      (new_candle : ℕ → leds.Candle) (id : ℕ) (c : State leds default_msg)
      → candle_exists k (register_candle new_candle id c)
        ≡ (candle_exists k c || (id == k && ltb id 64))
  unfolding candle_exists has
  exists-register_candle new_candle id c =
      ap (λ e. is_some e.candle) (entry-register_candle new_candle id k c) ∙ ground arith

  -- The three ways that a message ends in.
  exists-choice :
      (tests : Bool × Bool) (id : ℕ) (m : LedControl (leds.Value)) (x y z : State leds default_msg)
      (r : Bool)
      → candle_exists k x ≡ r
      → candle_exists k y ≡ r
      → candle_exists k z ≡ r
      → candle_exists k
          (if tests.0 then set_prev_candle_config_msg id m (if tests.1 then x else y) else z)
        ≡ r
  unfolding candle_exists set_prev_candle_config_msg
  exists-choice (true, true) id m x y z r a b c = a
  exists-choice (true, false) id m x y z r a b c = b
  exists-choice (false, _) id m x y z r a b c = c

  -- An LED message leaves the LED controllers that there were, whatever it changes, and the one of
  -- its own id, if that is below 64.
  candle_exists-apply_led :
      (differences : LedControl (leds.Value) → LedControl (leds.Value) → List (Difference LedField))
      (size : ℕ) (m : LedControl (leds.Value)) (c : State leds default_msg)
      → candle_exists k (apply_led leds default_msg differences size m c)
        ≡ (candle_exists k c || (u16 m.id == k && ltb (u16 m.id) 64))
  unfolding apply_led candle_exists
  candle_exists-apply_led differences size m c =
      let id = u16 m.id in
      let new_candle : ℕ → leds.Candle =
        λ i. leds.new_candle i (get_can_interface_name m.can_network) in
      let c' = register_candle new_candle id c in
      let (prev, prevs) = index default_msg id c'.prev_candle_msgs in
      let ready : State leds default_msg = record c' { prev_candle_msgs = prevs } in
      let registered = exists-register_candle new_candle id c in
      exists-choice (candle_exists id c', size == length c'.prev_candle_msgs) id m
        (report leds default_msg m (differences prev m) ready) (full_update leds default_msg m c')
        c' (candle_exists k c || (id == k && ltb id 64))
        (exists-report m (differences prev m) ready ∙ registered)
        (exists-full_update m c' ∙ registered) registered
