-- ===== src/Candle.antt =====
-- src/main/cpp/CANdleManager.cpp: the LED controllers by id with a heartbeat, and their messages, the
-- newest and the ones applied. `Msg` is the generated class ck::LEDControl::LEDControlData.
pub mod Lease
pub mod Led
use Prim.Native.String.{String}
use ckriopassthru.Base.{ℕ, Bool, Option, none, some, List, [], ◌∷◌, ltb, if◌then◌else◌}
use ckriopassthru.Base.Map.{Map, lookup, has, insert, erase}
use ckriopassthru.Heartbeat.{sweep, max_heartbeat_ticks}
use ckriopassthru.MotorConfig.{u16}

pub record Candles {ℓ κ} (Candle : Type ℓ) (Msg : Type κ) : Type (ℓ ⊔ κ) where
  pub candles : Map Candle
  pub heartbeats : Map ℕ
  pub candle_msgs : Map Msg
  pub prev_candle_msgs : Map Msg

unfoldable pub set_candle_msgs {κ} : {Msg : Type κ} → (Msg → ℕ) → List Msg → Map Msg → Map Msg
set_candle_msgs msg_id [] c = c
set_candle_msgs msg_id (m ∷ ms) c = set_candle_msgs msg_id ms (insert (u16 (msg_id m)) m c)

unfoldable pub visit {ℓ} : {Candle : Type ℓ} → (ℕ → Candle → Candle) → Map Candle → Map Candle
visit func [] = []
visit func ((k, d) ∷ ds) = (k, func k d) ∷ visit func ds

module _ {ℓ κ} {Candle : Type ℓ} {Msg : Type κ} where
  unfoldable pub set_prev_candle_config_msg : ℕ → Msg → Candles Candle Msg → Candles Candle Msg
  set_prev_candle_config_msg id m c = record c { prev_candle_msgs = insert id m c.prev_candle_msgs }

  unfoldable pub set_candles_config_msg :
      (Msg → ℕ) → List Msg → Candles Candle Msg → Candles Candle Msg
  unfolding set_candle_msgs
  set_candles_config_msg msg_id ms c = record c {
    candle_msgs = set_candle_msgs msg_id ms c.candle_msgs;
  }

  -- `forEach` and `onCANdle` by id.
  unfoldable pub for_each_candle : (ℕ → Candle → Candle) → Candles Candle Msg → Candles Candle Msg
  unfolding visit
  for_each_candle func c = record c { candles = visit func c.candles }

  unfoldable pub on_candle : ℕ → (Candle → Candle) → Candles Candle Msg → Candles Candle Msg
  on_candle id func c = elim (lookup id c.candles) [
    | none ↦ c
    | some d ↦ record c { candles = insert id (func d) c.candles }
  ]

  -- `new_candle` makes a CANdle on the bus of the message.
  unfoldable pub register_candle : (ℕ → Candle) → ℕ → Candles Candle Msg → Candles Candle Msg
  register_candle new_candle id c =
      if ltb id 64
      then record c {
        candles = if has id c.candles then c.candles else insert id (new_candle id) c.candles;
        heartbeats = insert id max_heartbeat_ticks c.heartbeats;
      }
      else c

  unfoldable pub delete_candle : ℕ → Candles Candle Msg → Candles Candle Msg
  delete_candle id c = record c {
    candles = if has id c.candles then erase id c.candles else c.candles;
  }

  unfoldable pub process_heartbeat : Candles Candle Msg → Candles Candle Msg
  unfolding delete_candle
  process_heartbeat c =
      let (hs, c') = sweep delete_candle c.heartbeats c in record c' { heartbeats = hs }

  unfoldable pub candle_exists : ℕ → Candles Candle Msg → Bool
  candle_exists id c = has id c.candles

  unfoldable pub get_candle : ℕ → Candles Candle Msg → Option Candle
  get_candle id c = lookup id c.candles
