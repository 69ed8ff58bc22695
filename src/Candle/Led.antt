-- ===== src/Candle/Led.antt =====
-- src/main/cpp/tasks/ApplyLEDControlTask.cpp: the LED controllers get a whole configuration, or the
-- commands for the fields that changed. The Phoenix library's LED controller, the comparison of
-- messages and their parser are parameters.
pub mod Record
use Prim.Native.String.{String}
use ckriopassthru.Base.{
  ℕ, Bool, true, false, Option, none, some, List, [], ◌∷◌, ◌==◌, length, if◌then◌else◌,
}
use ckriopassthru.Base.Map.{Map, lookup, insert}
use ckriopassthru.MotorConfig.{u16}
use ckriopassthru.Network.{Network, Bytes, get_message}
use ckriopassthru.Phoenix.{
  CanInterface, get_can_interface_name, ErrorCode, run_phoenix_function_with_retry,
}
use ckriopassthru.Registry.{index}
use ckriopassthru.Candle.{
  Candles, on_candle, register_candle, candle_exists, set_candles_config_msg,
  set_prev_candle_config_msg,
}

pub data AnimationType : Type 0 where
  color_flow fire larson rainbow rgb_fade single_fade twinkle twinkle_off strobe morse :
      AnimationType
  other_animation : ℕ → AnimationType

pub data LedMode : Type 0 where
  static animated : LedMode
  other_mode : ℕ → LedMode

pub record Color : Type 0 where
  pub r : ℕ
  pub g : ℕ
  pub b : ℕ
  pub w : ℕ

pub record Animation (Value : Type 0) : Type 0 where
  pub animation_type : AnimationType
  pub slot : ℕ
  pub color : Color
  pub brightness : Value
  pub speed : Value
  pub num_led : ℕ
  pub direction : ℕ
  pub offset : ℕ

pub record LedControl (Value : Type 0) : Type 0 where
  pub id : ℕ
  pub can_network : CanInterface
  pub led_type : ℕ
  pub vbat_config : ℕ
  pub vbat_duty_cycle : Value
  pub led_control_mode : LedMode
  pub color : Color
  pub start_index : ℕ
  pub num_leds : ℕ
  pub animations : List (Animation Value)

-- The animations of the library, with the arguments of their constructors. `true` stands for a
-- direction other than 0 where the library takes a Boolean.
pub data CtreAnimation (Value : Type 0) : Type 0 where
  color_flow_animation larson_animation : Color → Value → ℕ → ℕ → ℕ → CtreAnimation Value
  fire_animation rainbow_animation : Value → Value → ℕ → Bool → ℕ → CtreAnimation Value
  rgb_fade_animation : Value → Value → ℕ → ℕ → CtreAnimation Value
  single_fade_animation strobe_animation twinkle_animation twinkle_off_animation :
      Color → Value → ℕ → ℕ → CtreAnimation Value

-- The Phoenix library's LED controller.
pub record Leds : Type 1 where
  pub Value : Type 0
  pub Candle : Type 0
  pub new_candle : ℕ → String → Candle
  pub config_led_type : ℕ → Candle → Candle × ErrorCode
  pub config_vbat_output : ℕ → Candle → Candle × ErrorCode
  pub modulate_vbat_output : Value → Candle → Candle × ErrorCode
  pub set_leds : Color → ℕ → ℕ → Candle → Candle × ErrorCode
  pub clear_animation : ℕ → Candle → Candle × ErrorCode
  pub animate : CtreAnimation Value → ℕ → Candle → Candle × ErrorCode

-- The fields that the task registered a function for, and any other.
pub data LedField : Type 0 where
  led_type_fd vbat_config_fd vbat_duty_cycle_fd led_control_mode_fd color_fd animation_fd : LedField
  other_field : ℕ → LedField

-- What the comparison of two messages reports: a path of fields.
pub data Difference (Field : Type 0) : Type 0 where
  added modified deleted : List Field → Difference Field

-- `animationLookup`.
unfoldable pub animation_lookup : {Value : Type 0} → Animation Value → Option (CtreAnimation Value)
animation_lookup a = elim a.animation_type [
  | color_flow ↦ some (color_flow_animation a.color a.speed a.num_led a.direction a.offset)
  | fire ↦ some (
      fire_animation a.brightness a.speed a.num_led (if a.direction == 0 then false else true)
        a.offset)
  | larson ↦ some (larson_animation a.color a.speed a.num_led a.direction a.offset)
  | rainbow ↦ some (
      rainbow_animation a.brightness a.speed a.num_led (if a.direction == 0 then false else true)
        a.offset)
  | rgb_fade ↦ some (rgb_fade_animation a.brightness a.speed a.num_led a.offset)
  | single_fade ↦ some (single_fade_animation a.color a.speed a.num_led a.offset)
  | twinkle ↦ some (twinkle_animation a.color a.speed a.num_led a.offset)
  | twinkle_off ↦ some (twinkle_off_animation a.color a.speed a.num_led a.offset)
  | strobe ↦ some (strobe_animation a.color a.speed a.num_led a.offset)
  | morse ↦ none
  | other_animation n ↦ none
]

-- A call under the retry, whose result the task does not read.
unfoldable pub attempt : {D : Type 0} → (D → D × ErrorCode) → D → D
attempt func d = elim (run_phoenix_function_with_retry func d) [ none ↦ d | some (d', ok) ↦ d' ]

module _ (leds : Leds) (default_msg : LedControl (leds.Value)) where
  open leds use {
    Value, Candle, new_candle, config_led_type, config_vbat_output, modulate_vbat_output, set_leds,
    clear_animation, animate,
  }

  abbrev pub State : Type 0
  State = Candles Candle (LedControl Value)

  unfoldable pub clear_slots : List (Animation Value) → Candle → Candle
  unfolding attempt
  clear_slots [] d = d
  clear_slots (a ∷ rest) d = clear_slots rest (attempt (clear_animation a.slot) d)

  -- The lookup of the message stores a default one where there is none.
  unfoldable pub clear_all_animations : ℕ → State → State
  unfolding clear_slots index
  clear_all_animations id c = elim (candle_exists id c) [
    | false ↦ c
    | true ↦
        let (prev, prevs) = index default_msg id c.prev_candle_msgs in
        on_candle id (clear_slots prev.animations) (record c { prev_candle_msgs = prevs })
  ]

  unfoldable pub update_color : LedControl Value → State → State
  unfolding clear_all_animations
  update_color m c =
      on_candle (u16 m.id) (attempt (set_leds m.color m.start_index m.num_leds))
        (clear_all_animations (u16 m.id) c)

  unfoldable pub animate_all : List (Animation Value) → Candle → Candle
  unfolding attempt
  animate_all [] d = d
  animate_all (a ∷ rest) d = animate_all rest (elim (animation_lookup a) [
    | none ↦ d
    | some animation ↦ attempt (animate animation a.slot) d
  ])

  unfoldable pub update_animation : LedControl Value → State → State
  unfolding clear_all_animations animate_all
  update_animation m c =
      on_candle (u16 m.id) (animate_all m.animations) (clear_all_animations (u16 m.id) c)

  -- `processLEDUpdate`, and the switch at the end of `fullUpdate`.
  unfoldable pub process_led_update : LedControl Value → State → State
  process_led_update m c = elim m.led_control_mode [
    | static ↦ update_color m c
    | animated ↦ update_animation m c
    | other_mode n ↦ c
  ]

  unfoldable pub configure_candle : LedControl Value → Candle → Candle
  unfolding attempt
  configure_candle m d =
      attempt (modulate_vbat_output m.vbat_duty_cycle)
        (attempt (config_vbat_output m.vbat_config) (attempt (config_led_type m.led_type) d))

  unfoldable pub full_update : LedControl Value → State → State
  unfolding process_led_update configure_candle
  full_update m c =
      if candle_exists (u16 m.id) c
      then process_led_update m (on_candle (u16 m.id) (configure_candle m) c)
      else c

  -- The functions that `initUpdateFunctions` registers.
  unfoldable pub update_field : LedControl Value → LedField → State → State
  unfolding process_led_update attempt
  update_field m led_type_fd c = on_candle (u16 m.id) (attempt (config_led_type m.led_type)) c
  update_field m vbat_config_fd c =
      on_candle (u16 m.id) (attempt (config_vbat_output m.vbat_config)) c
  update_field m vbat_duty_cycle_fd c =
      on_candle (u16 m.id) (attempt (modulate_vbat_output m.vbat_duty_cycle)) c
  update_field m led_control_mode_fd c = process_led_update m c
  update_field m color_fd c = process_led_update m c
  update_field m animation_fd c = process_led_update m c
  update_field m (other_field n) c = c

  unfoldable pub report_modified : LedControl Value → List LedField → State → State
  unfolding update_field
  report_modified m [] c = c
  report_modified m (f ∷ fs) c = report_modified m fs (update_field m f c)

  -- The reports of one comparison.
  unfoldable pub report : LedControl Value → List (Difference LedField) → State → State
  unfolding report_modified
  report m [] c = c
  report m (added fs ∷ ds) c = report m ds (report_modified m fs c)
  report m (modified fs ∷ ds) c = report m ds (report_modified m fs c)
  report m (deleted fs ∷ ds) c = report m ds c

  module _ (differences : LedControl Value → LedControl Value → List (Difference LedField)) where
    -- The body of the loop, where `size` is the number of entries of the message.
    unfoldable pub apply_led : ℕ → LedControl Value → State → State
    unfolding full_update report index
    apply_led size m c =
        let id = u16 m.id in
        let c' = register_candle (λ i. new_candle i (get_can_interface_name m.can_network)) id c in
        let (prev, prevs) = index default_msg id c'.prev_candle_msgs in
        let differential = report m (differences prev m) (record c' { prev_candle_msgs = prevs }) in
        if candle_exists id c'
        then set_prev_candle_config_msg id m
            (if size == length c'.prev_candle_msgs then differential else full_update m c')
        else c'

    unfoldable pub apply_leds : ℕ → List (LedControl Value) → State → State
    unfolding apply_led
    apply_leds size [] c = c
    apply_leds size (m ∷ ms) c = apply_leds size ms (apply_led size m c)

    unfoldable pub run :
        (Bytes → Option (List (LedControl Value))) → Bool → Network × State → Network × State
    unfolding apply_leds
    run parse locked (n, c) =
        let (n', message) = get_message "ledcontrol" n in
        (
          n',
          elim message [
            | none ↦ c
            | some buf ↦ elim (parse buf) [
              | none ↦ c
              | some ms ↦
                  let applied =
                    apply_leds (length ms) ms (set_candles_config_msg (λ m. m.id) ms c) in
                  if locked then applied else c
            ]
          ],
        )
