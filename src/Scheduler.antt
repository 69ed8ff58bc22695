-- ===== src/Scheduler.antt =====
-- src/main/cpp/utils/TaskScheduler.cpp and src/main/include/tasks/Task.hpp: one pass of the
-- scheduler's loop over its tasks. Times are `uint64_t` microseconds, a rate is a `uint32_t` in
-- milliseconds; the sums wrap. Whether the `run` of a task throws is an argument.
pub mod Grid
pub mod Wake
pub mod Starvation
pub mod Thread
use ckriopassthru.Base.{
  ℕ, ◌+◌, ◌-◌, ◌*◌, ◌%◌, ◌^◌, Bool, true, false, Option, none, some, List, [], ◌∷◌, ◌++◌, ◌||◌, ltb,
  leb, ◌==◌, if◌then◌else◌,
}

pub record Task : Type 0 where
  pub task_rate_ms : ℕ
  pub time_next_update_us : ℕ
  pub time_last_update_us : ℕ

-- The constructor of a task: it is due at once.
unfoldable pub new_task : ℕ → Task
new_task rate = record { task_rate_ms = rate; time_next_update_us = 0; time_last_update_us = 0 }

unfoldable pub schedule_task : Task → List Task → List Task
schedule_task t tasks = tasks ++ t ∷ []

-- `scheduleTask` with a rate of its own.
unfoldable pub schedule_task_at : Task → ℕ → List Task → List Task
schedule_task_at t rate tasks = tasks ++ record t { task_rate_ms = rate } ∷ []

-- `std::numeric_limits<uint64_t>::max()`.
abbrev pub never : ℕ
never = 2 ^ 64 - 1

-- `ck::math::min`.
unfoldable pub min_time : ℕ → ℕ → ℕ
min_time a b = if ltb a b then a else b

abbrev pub is_due : ℕ → Task → Bool
is_due now t = ltb t.time_next_update_us now || t.time_next_update_us == 0

-- The update after a run; the product is of 32 bits.
unfoldable pub advance : Task → Task
advance t = record t {
  time_last_update_us = t.time_next_update_us;
  time_next_update_us = (t.time_next_update_us + t.task_rate_ms * 1000 % 2 ^ 32) % 2 ^ 64;
}

-- The argument of `run`: the difference of 64 bits, cut to 32.
unfoldable pub run_argument : ℕ → Task → ℕ
run_argument now t = (now + 2 ^ 64 - t.time_last_update_us) % 2 ^ 64 % 2 ^ 32

-- A task, with whether its `run` throws in this pass.
pub record Slot : Type 0 where
  pub task : Task
  pub throws : Bool

-- What a pass leaves: the tasks, the arguments of the calls of `run` with the position of the task,
-- and the time to wake at, or `none` if a task threw.
pub record Pass : Type 0 where
  pub tasks : List Task
  pub runs : List (ℕ × ℕ)
  pub wake : Option ℕ

abbrev pub tasks_of : List Slot → List Task
tasks_of [] = []
tasks_of (s ∷ ss) = s.task ∷ tasks_of ss

abbrev keep : Task → Pass → Pass
keep t p = record p { tasks = t ∷ p.tasks }

abbrev call : ℕ → ℕ → Pass → Pass
call i arg p = record p { runs = (i, arg) ∷ p.runs }

-- The `for` loop from position `i` on, with the wake time so far.
unfoldable pub pass_from : ℕ → ℕ → ℕ → List Slot → Pass
unfolding advance run_argument min_time
pass_from now i wake [] = record { tasks = []; runs = []; wake = some wake }
pass_from now i wake (s ∷ ss) =
    let t = s.task in
    let t' = if is_due now t then advance t else t in
    let skipped = keep t (pass_from now (i + 1) wake ss) in
    let idle = keep t (pass_from now (i + 1) (min_time t.time_next_update_us wake) ss) in
    let ran =
      call i (run_argument now t)
        (keep t' (pass_from now (i + 1) (min_time t'.time_next_update_us wake) ss)) in
    let threw : Pass = record {
      tasks = t ∷ tasks_of ss;
      runs = (i, run_argument now t) ∷ [];
      wake = none;
    } in
    if leb t.task_rate_ms 0
    then skipped
    else if is_due now t
    then (if s.throws then threw else ran)
    else idle

unfoldable pub pass : ℕ → List Slot → Pass
unfolding pass_from
pass now slots = pass_from now 0 never slots
