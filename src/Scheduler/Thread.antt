-- ===== src/Scheduler/Thread.antt =====
-- src/main/cpp/utils/TaskScheduler.cpp, `start`, `stop` and the loop of `run`: whether the thread exists and
-- is active, and the tasks that it passes over. An event is a call, or a round of the thread's loop.
use ckriopassthru.Base.{
  ℕ, ◌+◌, ◌≡◌, refl, Bool, true, false, List, [], ◌∷◌, ◌++◌, ◌&&◌, not, arith, ap, map, leb, ◌<◌,
  if◌then◌else◌,
}
use ckriopassthru.Scheduler.{
  Task, Slot, pass, pass_from, is_due, advance, min_time, never, schedule_task,
}

pub record TaskScheduler : Type 0 where
  pub task_list : List Task
  pub thread_active : Bool
  pub joinable : Bool

abbrev pub new_task_scheduler : TaskScheduler
new_task_scheduler = record { task_list = []; thread_active = false; joinable = false }

unfoldable pub start : TaskScheduler → TaskScheduler
start s = if not s.joinable then record s { thread_active = true; joinable = true } else s

-- The thread is joined, so its loop has ended.
unfoldable pub stop : TaskScheduler → TaskScheduler
stop s = record s { thread_active = false; joinable = false }

-- The tasks with whether their `run` throws; where nothing is said, it does not.
abbrev pub slots : List Task → List Bool → List Slot
slots [] throws = []
slots (t ∷ ts) [] = record { task = t; throws = false } ∷ slots ts []
slots (t ∷ ts) (b ∷ throws) = record { task = t; throws = b } ∷ slots ts throws

-- One round: the calls of `run`, and the scheduler.
unfoldable pub round : ℕ → List Bool → TaskScheduler → List (ℕ × ℕ) × TaskScheduler
unfolding pass
round now throws s =
    if s.thread_active && s.joinable
    then (let p = pass now (slots s.task_list throws) in (p.runs, record s { task_list = p.tasks }))
    else ([], s)

pub data Event : Type 0 where
  started stopped : Event
  scheduled : Task → Event
  woken : ℕ → List Bool → Event

unfoldable pub step : Event → TaskScheduler → List (ℕ × ℕ) × TaskScheduler
unfolding start stop round schedule_task
step started s = ([], start s)
step stopped s = ([], stop s)
step (scheduled t) s = ([], record s { task_list = schedule_task t s.task_list })
step (woken now throws) s = round now throws s

unfoldable pub run : List Event → TaskScheduler → List (ℕ × ℕ) × TaskScheduler
unfolding step
run [] s = ([], s)
run (e ∷ es) s = let (calls, s') = step e s in let (rest, s'') = run es s' in (calls ++ rest, s'')

-- No start among the events.
abbrev pub NeverStarted : List Event → Type 0
NeverStarted [] = Unit
NeverStarted (started ∷ es) = ⊥
NeverStarted (stopped ∷ es) = NeverStarted es
NeverStarted (scheduled t ∷ es) = NeverStarted es
NeverStarted (woken now throws ∷ es) = NeverStarted es

round-inactive :
    (now : ℕ) (throws : List Bool) (s : TaskScheduler)
    → s.thread_active ≡ false
    → round now throws s ≡ ([], s)
unfolding round
round-inactive now throws s e = ground (arith, e)

run-inactive :
    (es : List Event) (s : TaskScheduler)
    → NeverStarted es
    → s.thread_active ≡ false
    → (run es s).0 ≡ []
unfolding run step stop round
run-inactive [] s h e = refl
run-inactive (started ∷ es) s h e = absurd h
run-inactive (stopped ∷ es) s h e = run-inactive es (stop s) h refl
run-inactive (scheduled t ∷ es) s h e =
    run-inactive es (record s { task_list = schedule_task t s.task_list }) h e
run-inactive (woken now throws ∷ es) s h e =
    rw (round-inactive now throws s e) (run-inactive es s h e)

-- After the scheduler was stopped, no task is run, whatever is scheduled and however often its
-- thread would wake, until it is started again.
run-stop : (es : List Event) (s : TaskScheduler) → NeverStarted es → (run es (stop s)).0 ≡ []
unfolding stop
run-stop es s h = run-inactive es (stop s) h refl

-- Tasks that have a rate and have not run.
abbrev pub AllNew : List Task → Type 0
AllNew [] = Unit
AllNew (t ∷ ts) = (0 < t.task_rate_ms) × (t.time_next_update_us ≡ 0) × AllNew ts

abbrev pub positions : ℕ → List Task → List ℕ
positions i [] = []
positions i (t ∷ ts) = i ∷ positions (i + 1) ts

runs-pass_from :
    (now i wake : ℕ) (ts : List Task)
    → AllNew ts
    → map (λ call. call.0) (pass_from now i wake (slots ts [])).runs ≡ positions i ts
unfolding pass_from
runs-pass_from now i wake [] h = refl
runs-pass_from now i wake (t ∷ ts) h =
    let rated : leb t.task_rate_ms 0 ≡ false = ground (arith, h.0) in
    let due : is_due now t ≡ true = ground (arith, h.1) in
    rw (rated, due)
      (ap (λ rest. i ∷ rest)
        (runs-pass_from now (i + 1) (min_time (advance t).time_next_update_us wake) ts h.2))

pub round_new :
    (now : ℕ) (s : TaskScheduler)
    → s.thread_active ≡ true
    → s.joinable ≡ true
    → AllNew s.task_list
    → map (λ call. call.0) (round now [] s).0 ≡ positions 0 s.task_list
unfolding round pass
round_new now s a j h = rw (a, j) (runs-pass_from now 0 never s.task_list h)
