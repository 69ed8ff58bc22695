-- ===== src/Timers/Pace.antt =====
-- src/main/cpp/utils/ThreadRateControl.cpp, which keeps the loops of threads to a rate. The notifier of the HAL
-- is told when to wake the thread, and that it does not do so before is a hypothesis. The conversions
-- between the integers, `float` and `double` are parameters.
use ckriopassthru.Base.{
  ℕ, ◌≡◌, ◌≤◌, ◌<◌, ◌+◌, ◌*◌, ◌^◌, ◌%◌, Bool, true, false, Option, none, some, List, [], ◌∷◌,
  if◌then◌else◌,
}
use ckriopassthru.Arithmetic.{Arithmetic}
use ckriopassthru.Timers.{TaskTimer, task_timer, start, has_elapsed_ms}

pub record ThreadRateControl : Type 0 where
  pub started : Bool
  pub timer : TaskTimer

unfoldable pub thread_rate_control : ThreadRateControl
unfolding task_timer
thread_rate_control = record { started = false; timer = task_timer }

unfoldable pub start_rate : ℕ → ThreadRateControl → ThreadRateControl
unfolding start
start_rate now c = if c.started then c else record { started = true; timer = start now c.timer }

unfoldable pub restart_rate : Bool → ℕ → ThreadRateControl → ThreadRateControl
unfolding start_rate
restart_rate reset now c = start_rate now (if reset then record c { started = false } else c)

-- What the clock reads in a call: where the elapsed time is taken, where the alarm is set, and where
-- the timer is started again.
pub record Moments : Type 0 where
  pub at_test : ℕ
  pub at_alarm : ℕ
  pub at_end : ℕ

module _ {Float Double : Type 0} (float : Arithmetic Float) (double : Arithmetic Double)
    (to_ms : ℕ → Float) (to_double : Float → Double) (of_us : ℕ → Double) (to_us : Double → ℕ) where
  abbrev pub remaining_ms : ℕ → Float → Double
  remaining_ms min elapsed = to_double (float.subtract (float.decimal min 0) elapsed)

  abbrev pub is_early : ℕ → Float → Bool
  is_early min elapsed = double.less (double.decimal 0 0) (remaining_ms min elapsed)

  -- A `uint64_t`.
  abbrev pub alarm_us : ℕ → Float → ℕ → ℕ
  alarm_us min elapsed now =
      to_us (
        double.subtract
          (double.add (of_us now)
            (double.multiply (remaining_ms min elapsed) (double.decimal 1000 0)))
          (double.decimal 150 0))
      % 2 ^ 64

  -- With what the notifier is told, if it is.
  unfoldable pub do_rate_control : ℕ → Moments → ThreadRateControl → Option ℕ × ThreadRateControl
  unfolding has_elapsed_ms start
  do_rate_control min at c =
      let elapsed = has_elapsed_ms float to_ms at.at_test c.timer in
      (
        if is_early min elapsed then some (alarm_us min elapsed at.at_alarm) else none,
        record c { timer = start at.at_end c.timer },
      )

  -- The rounds of a loop that ends in a call.
  unfoldable pub run_rounds : ℕ → List Moments → ThreadRateControl → ThreadRateControl
  unfolding do_rate_control
  run_rounds min [] c = c
  run_rounds min (at ∷ ats) c = run_rounds min ats (do_rate_control min at c).1

  -- The clock does not go back, from a time on, and its microseconds are integers of a `double`, as they
  -- are for 285 years.
  abbrev pub AreOrdered : ℕ → List Moments → Type 0
  AreOrdered s [] = Unit
  AreOrdered s (at ∷ ats) =
      (s ≤ at.at_test)
      × (at.at_test ≤ at.at_alarm)
      × (at.at_alarm ≤ at.at_end)
      × (at.at_end < 2 ^ 53)
      × AreOrdered at.at_end ats

  abbrev pub HasWaited : Option ℕ → ℕ → Type 0
  HasWaited none now = Unit
  HasWaited (some alarm) now = alarm ≤ now

  -- The notifier wakes the thread at its alarm or later.
  abbrev pub Wakes : ℕ → List Moments → ThreadRateControl → Type 0
  Wakes min [] c = Unit
  Wakes min (at ∷ ats) c =
      HasWaited (do_rate_control min at c).0 at.at_end × Wakes min ats (do_rate_control min at c).1

  -- At such times the conversions and operations err by some microseconds at most, together with the
  -- 150 that are subtracted.
  pub record IsPrecise (min slack : ℕ) : Type 0 where
    pub late : (t : ℕ) → t < 2 ^ 53 → is_early min (to_ms t) ≡ false → min * 1000 ≤ t + slack
    pub early :
        (t now : ℕ)
        → t < 2 ^ 53
        → now < 2 ^ 53
        → is_early min (to_ms t) ≡ true
        → min * 1000 + now ≤ alarm_us min (to_ms t) now + t + slack
