-- ===== src/MotorConfig.antt =====
-- src/main/cpp/MotorConfigManager.cpp: the configuration messages of the motors by id, the newest
-- and the ones applied. `Msg` is the generated class ck::MotorConfiguration::Motor.
use ckriopassthru.Base.{ℕ, ◌%◌, ◌^◌, ◌≡◌, none, some, List, [], ◌∷◌, if◌then◌else◌, arith, ◌==◌}
use ckriopassthru.Base.Map.{Map, lookup, has, insert, erase, lookup-erase}

-- The conversion to the `uint16_t` key.
abbrev pub u16 : ℕ → ℕ
u16 n = n % 2 ^ 16

pub record MotorConfigs {ℓ} (Msg : Type ℓ) : Type ℓ where
  pub motor_msgs : Map Msg
  pub prev_motor_msgs : Map Msg

module _ {ℓ} {Msg : Type ℓ} where
  unfoldable pub no_configs : MotorConfigs Msg
  no_configs = record { motor_msgs = []; prev_motor_msgs = [] }

  unfoldable pub set_prev_motor_config_msg : ℕ → Msg → MotorConfigs Msg → MotorConfigs Msg
  set_prev_motor_config_msg id m c = record c { prev_motor_msgs = insert id m c.prev_motor_msgs }

  unfoldable pub set_motor_msgs : (Msg → ℕ) → List Msg → Map Msg → Map Msg
  set_motor_msgs msg_id [] c = c
  set_motor_msgs msg_id (m ∷ ms) c = set_motor_msgs msg_id ms (insert (u16 (msg_id m)) m c)

  unfoldable pub set_motors_config_msg : (Msg → ℕ) → List Msg → MotorConfigs Msg → MotorConfigs Msg
  unfolding set_motor_msgs
  set_motors_config_msg msg_id ms c = record c {
    motor_msgs = set_motor_msgs msg_id ms c.motor_msgs;
  }

  -- `INVALID` where no configuration was applied.
  unfoldable pub get_controller_mode {κ} :
      {Mode : Type κ} → (Msg → Mode) → Mode → ℕ → MotorConfigs Msg → Mode
  get_controller_mode mode invalid id c = elim (lookup id c.prev_motor_msgs) [
    | none ↦ invalid
    | some m ↦ mode m
  ]

  unfoldable pub delete_config : ℕ → MotorConfigs Msg → MotorConfigs Msg
  delete_config id c = record c {
    motor_msgs = if has id c.motor_msgs then erase id c.motor_msgs else c.motor_msgs;
    prev_motor_msgs =
        if has id c.prev_motor_msgs then erase id c.prev_motor_msgs else c.prev_motor_msgs;
  }

  pub motor_msgs-delete_config :
      (k j : ℕ) (c : MotorConfigs Msg)
      → lookup j (delete_config k c).motor_msgs ≡ (if k == j then none else lookup j c.motor_msgs)
  unfolding delete_config has
  motor_msgs-delete_config k j c = ground (arith, lookup-erase k j c.motor_msgs)

  pub prev_motor_msgs-delete_config :
      (k j : ℕ) (c : MotorConfigs Msg)
      → lookup j (delete_config k c).prev_motor_msgs
        ≡ (if k == j then none else lookup j c.prev_motor_msgs)
  unfolding delete_config has
  prev_motor_msgs-delete_config k j c = ground (arith, lookup-erase k j c.prev_motor_msgs)
