-- ===== src/Tests/Lights.antt =====
-- Runs of the LED controllers and of the heartbeat task.
use ckriopassthru.Base.{ℕ, ◌-◌, ◌≡◌, [], ◌∷◌, arith, suc}
use ckriopassthru.External.{external_control_initial}
use ckriopassthru.Motor.{no_motors}
use ckriopassthru.Motor.Lease
use ckriopassthru.Registry.Entry
use ckriopassthru.Phoenix.{rio_canivore, success}
use ckriopassthru.Candle.Lease as CandleLease
use ckriopassthru.Candle.Led.{Leds, LedControl, State, static}
use ckriopassthru.Managers.{Managers, run}
use ckriopassthru.Managers.Aging.{repeat, IsSortedAll, repeat-run}

-- An LED controller is the number of calls made to it.
abbrev counters : Leds
counters = record {
  Value = ℕ;
  Candle = ℕ;
  new_candle = λ id name. 0;
  config_led_type = λ t d. (suc d, success);
  config_vbat_output = λ t d. (suc d, success);
  modulate_vbat_output = λ t d. (suc d, success);
  set_leds = λ c i n d. (suc d, success);
  clear_animation = λ s d. (suc d, success);
  animate = λ a s d. (suc d, success);
}

abbrev lights : LedControl ℕ
lights = record {
  id = 1;
  can_network = rio_canivore;
  led_type = 0;
  vbat_config = 0;
  vbat_duty_cycle = 0;
  led_control_mode = static;
  color = record { r = 1; g = 2; b = 3; w = 0 };
  start_index = 0;
  num_leds = 8;
  animations = [];
}

abbrev one_light : State counters lights
one_light = record {
  candles = (1, 0) ∷ [];
  heartbeats = (1, 2) ∷ [];
  candle_msgs = [];
  prev_candle_msgs = [];
}

abbrev all : Managers ℕ ℕ ℕ ℕ ℕ ℕ (LedControl ℕ)
all = record {
  motors = no_motors;
  solenoids = record { devices = []; types = []; heartbeats = [] };
  external = external_control_initial;
  candles = one_light;
  encoders = record { devices = []; types = []; heartbeats = [] };
  imus = record { devices = []; types = []; heartbeats = [] };
}

all-IsSortedAll : IsSortedAll all
unfolding no_motors
all-IsSortedAll = record {
  motors_sorted = tt;
  solenoids_sorted = tt;
  candles_sorted = (omega arith, tt);
}

repeat-run_example :
    (Lease.entry 1 (repeat 2 run all).motors ≡ repeat 2 Lease.tick (Lease.entry 1 all.motors))
    × (Entry.entry 1 (repeat 2 run all).solenoids
        ≡ repeat 2 Entry.tick (Entry.entry 1 all.solenoids))
    × (CandleLease.entry 1 (repeat 2 run all).candles
        ≡ repeat 2 CandleLease.tick (CandleLease.entry 1 all.candles))
    × ((repeat 2 run all).external.last_connection_time ≡ all.external.last_connection_time - 2)
    × ((repeat 2 run all).encoders ≡ all.encoders)
    × ((repeat 2 run all).imus ≡ all.imus)
repeat-run_example = repeat-run 2 1 all all-IsSortedAll
