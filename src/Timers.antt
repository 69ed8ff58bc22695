-- ===== src/Timers.antt =====
-- src/main/cpp/utils/TaskTimer.cpp, RTTimer.cpp and TimeoutTimer.cpp, and
-- src/main/include/utils/CachedValue.hpp: timers over the FPGA's clock, in `uint64_t` microseconds, and a
-- value that is computed again after a time. What the clock reads at each call is an argument, and so is
-- the conversion to milliseconds.
pub mod Caching
pub mod Pace
use ckriopassthru.Base.{ℕ, ◌+◌, ◌-◌, ◌%◌, ◌^◌, Bool, true, false, if◌then◌else◌}
use ckriopassthru.Arithmetic.{Arithmetic}

-- The difference of two readings, as `RTTimer::hasElapseduS` returns it.
abbrev pub elapsed_us : ℕ → ℕ → ℕ
elapsed_us now start = (now + 2 ^ 64 - start) % 2 ^ 64

pub record TaskTimer : Type 0 where
  pub start_time_us : ℕ

-- The constructor without arguments makes and drops another timer, so this one is not started.
unfoldable pub task_timer : TaskTimer
task_timer = record { start_time_us = 0 }

unfoldable pub named_task_timer : ℕ → TaskTimer
named_task_timer now = record { start_time_us = now }

unfoldable pub start : ℕ → TaskTimer → TaskTimer
start now t = record t { start_time_us = now }

pub record TimeoutTimer (Value : Type 0) : Type 0 where
  pub timeout_ms : Value
  pub first_run : Bool
  pub timer : TaskTimer

pub record CachedValue (Value A : Type 0) : Type 0 where
  pub timeout_timer : TimeoutTimer Value
  pub cached_value : A

-- What the clock reads at a call: where the timer starts, and where the time is compared.
pub record Readings : Type 0 where
  pub at_start : ℕ
  pub at_test : ℕ

module _ {Value : Type 0} (arithmetic : Arithmetic Value) (to_ms : ℕ → Value) where
  open arithmetic use {less, subtract, decimal}

  unfoldable pub has_elapsed_ms : ℕ → TaskTimer → Value
  has_elapsed_ms now t = to_ms (elapsed_us now t.start_time_us)

  unfoldable pub timeout_timer : Value → TimeoutTimer Value
  unfolding task_timer
  timeout_timer timeout = record { timeout_ms = timeout; first_run = true; timer = task_timer }

  unfoldable pub is_timed_out : Readings → TimeoutTimer Value → Bool × TimeoutTimer Value
  unfolding has_elapsed_ms start
  is_timed_out at t =
      let t' : TimeoutTimer Value =
        if t.first_run
        then record t { first_run = false; timer = start at.at_start t.timer }
        else t in
      (less t'.timeout_ms (has_elapsed_ms at.at_test t'.timer), t')

  unfoldable pub reset : TimeoutTimer Value → TimeoutTimer Value
  reset t = record t { first_run = true }

  -- `std::fmax(…, 0.0)` of a number.
  unfoldable pub get_time_left : ℕ → TimeoutTimer Value → Value
  unfolding has_elapsed_ms
  get_time_left now t =
      let left = subtract t.timeout_ms (has_elapsed_ms now t.timer) in
      if less left (decimal 0 0) then decimal 0 0 else left

  unfoldable pub new_cached_value : {A : Type 0} → Value → A → CachedValue Value A
  unfolding timeout_timer
  new_cached_value timeout value = record {
    timeout_timer = timeout_timer timeout;
    cached_value = value;
  }

  -- `getValue`, with what `mUpdateFunction` would return.
  unfoldable pub get_value :
      {A : Type 0} → Readings → A → CachedValue Value A → A × CachedValue Value A
  unfolding is_timed_out reset
  get_value at fresh c =
      let (timed_out, t) = is_timed_out at c.timeout_timer in
      if timed_out
      then (fresh, record { timeout_timer = reset t; cached_value = fresh })
      else (c.cached_value, record c { timeout_timer = t })
