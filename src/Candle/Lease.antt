-- ===== src/Candle/Lease.antt =====
-- The LED controllers of src/main/cpp/CANdleManager.cpp seen one id at a time.
use ckriopassthru.Base.{ℕ, ◌≡◌, Option, none, some, arith, ◌==◌, ltb, if◌then◌else◌, ==-eq}
use ckriopassthru.Base.Map.{IsSorted, lookup, has, lookup-insert, lookup-erase}
use ckriopassthru.Heartbeat.{expires, age, lookup-sweep, obs-sweep, max_heartbeat_ticks}
use ckriopassthru.Candle.{Candles, delete_candle, process_heartbeat, register_candle}

pub record Entry {ℓ} (Candle : Type ℓ) : Type ℓ where
  pub candle : Option Candle
  pub ticks : Option ℕ

-- One tick of the specification.
abbrev pub tick {ℓ} : {Candle : Type ℓ} → Entry Candle → Entry Candle
tick e =
    if expires e.ticks
    then record { candle = none; ticks = none }
    else record e { ticks = age e.ticks }

abbrev pub register {ℓ} : {Candle : Type ℓ} → (ℕ → Candle) → ℕ → Entry Candle → Entry Candle
register new_candle id e =
    if ltb id 64
    then record {
      candle = elim e.candle [ none ↦ some (new_candle id) | some d ↦ some d ];
      ticks = some max_heartbeat_ticks;
    }
    else e

module _ {ℓ κ} {Candle : Type ℓ} {Msg : Type κ} where
  abbrev pub entry : ℕ → Candles Candle Msg → Entry Candle
  entry k c = record { candle = lookup k c.candles; ticks = lookup k c.heartbeats }

  candles-delete_candle :
      (k j : ℕ) (c : Candles Candle Msg)
      → lookup j (delete_candle k c).candles ≡ (if k == j then none else lookup j c.candles)
  unfolding delete_candle has
  candles-delete_candle k j c = ground (arith, lookup-erase k j c.candles)

  -- One heartbeat of the LED controllers ages the entry of every id by one tick, where the counters
  -- are sorted by id.
  pub entry-process_candle_heartbeat :
      (j : ℕ) (c : Candles Candle Msg)
      → IsSorted c.heartbeats
      → entry j (process_heartbeat c) ≡ tick (entry j c)
  unfolding process_heartbeat
  entry-process_candle_heartbeat j c h = ground (
    arith,
    lookup-sweep delete_candle 0 j c.heartbeats c h,
    obs-sweep delete_candle (λ i s. lookup i s.candles) none candles-delete_candle 0 j c.heartbeats
        c h,
  )

  -- Registering an id below 64 keeps its LED controller or makes one, and restarts its counter;
  -- nothing else changes.
  pub entry-register_candle :
      (new_candle : ℕ → Candle) (id j : ℕ) (c : Candles Candle Msg)
      → entry j (register_candle new_candle id c)
        ≡ (if id == j then register new_candle id (entry j c) else entry j c)
  unfolding register_candle has
  entry-register_candle new_candle id j c = ground (
    arith,
    ==-eq id j,
    lookup-insert id j max_heartbeat_ticks c.heartbeats,
    lookup-insert id j (new_candle id) c.candles,
  )
