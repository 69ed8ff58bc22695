-- ===== src/Managers/Aging.antt =====
-- What any number of runs of src/main/cpp/tasks/ProcessHeartbeatTask.cpp leaves of every device.
use ckriopassthru.Base.{ℕ, zero, suc, ◌-◌, ◌≡◌, refl, ◌∙◌, ap, arith}
use ckriopassthru.Base.Map.{IsSorted}
use ckriopassthru.Heartbeat.{sweep-From}
use ckriopassthru.Registry.{Registry, delete}
use ckriopassthru.Registry
use ckriopassthru.Registry.Entry
use ckriopassthru.Motor.Lease
use ckriopassthru.Candle.{delete_candle}
use ckriopassthru.Candle
use ckriopassthru.Candle.Lease as CandleLease
use ckriopassthru.External
use ckriopassthru.Managers.{Managers, run}

-- `n` times.
unfoldable pub repeat {ℓ} : {A : Type ℓ} → ℕ → (A → A) → A → A
repeat zero func a = a
repeat (suc n) func a = repeat n func (func a)

module _
    {MotorObject SolenoidObject CandleObject EncoderObject ImuObject MotorMsg LedMsg : Type 0} where
  pub record IsSortedAll
      (w : Managers MotorObject SolenoidObject CandleObject EncoderObject ImuObject MotorMsg LedMsg)
      : Type 0 where
    pub motors_sorted : IsSorted w.motors.manager.heartbeats
    pub solenoids_sorted : IsSorted w.solenoids.heartbeats
    pub candles_sorted : IsSorted w.candles.heartbeats

  run-IsSortedAll :
      (w : Managers MotorObject SolenoidObject CandleObject EncoderObject ImuObject MotorMsg LedMsg)
      → IsSortedAll w
      → IsSortedAll (run w)
  unfolding run Registry.process_heartbeat Candle.process_heartbeat
  run-IsSortedAll w h = record {
    motors_sorted = Lease.process_heartbeat-Sorted w.motors h.motors_sorted;
    solenoids_sorted = sweep-From delete 0 w.solenoids.heartbeats w.solenoids h.solenoids_sorted;
    candles_sorted = sweep-From delete_candle 0 w.candles.heartbeats w.candles h.candles_sorted;
  }

  -- After n runs of the heartbeat task every motor, solenoid and LED controller has aged by n
  -- ticks, where the counters are sorted by id, and the external control counter has fallen by n;
  -- encoders and IMUs are as they were.
  pub repeat-run :
      (n k : ℕ)
      (w : Managers MotorObject SolenoidObject CandleObject EncoderObject ImuObject MotorMsg LedMsg)
      → IsSortedAll w
      → (Lease.entry k (repeat n run w).motors ≡ repeat n Lease.tick (Lease.entry k w.motors))
        × (Entry.entry k (repeat n run w).solenoids
            ≡ repeat n Entry.tick (Entry.entry k w.solenoids))
        × (CandleLease.entry k (repeat n run w).candles
            ≡ repeat n CandleLease.tick (CandleLease.entry k w.candles))
        × ((repeat n run w).external.last_connection_time ≡ w.external.last_connection_time - n)
        × ((repeat n run w).encoders ≡ w.encoders)
        × ((repeat n run w).imus ≡ w.imus)
  unfolding repeat run External.process_heartbeat
  repeat-run zero k w h = (refl, refl, refl, omega arith, refl, refl)
  repeat-run (suc n) k w h =
      let (a, b, c, d, e, f) = repeat-run n k (run w) (run-IsSortedAll w h) in
      (
        a ∙ ap (repeat n Lease.tick) (Lease.entry-process_heartbeat k w.motors h.motors_sorted),
        b
            ∙ ap (repeat n Entry.tick)
                (Entry.entry-process_heartbeat k w.solenoids h.solenoids_sorted),
        c
            ∙ ap (repeat n CandleLease.tick)
                (CandleLease.entry-process_candle_heartbeat k w.candles h.candles_sorted),
        d ∙ ground arith,
        e,
        f,
      )
