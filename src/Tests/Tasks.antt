-- ===== src/Tests/Tasks.antt =====
-- Runs of the scheduler on small lists of tasks.
use ckriopassthru.Base.{
  ℕ, ◌≡◌, refl, false, true, [], ◌∷◌, ◌++◌, some, none, arith, Bool, List, ltb, ◌-◌, ◌⊎◌, ◌*◌, ◌%◌,
  ◌||◌, ◌^◌, ◌==◌,
}
use ckriopassthru.Scheduler.{Slot, new_task, pass, run_argument, is_due, never, tasks_of}
use ckriopassthru.Scheduler.Wake.{pass-wakes, NoneBefore, SomeAt, passed}
use ckriopassthru.Scheduler.Grid.{after_runs, is_due-after_runs, run_argument-after_runs}
use ckriopassthru.Scheduler.Starvation.{pass-throws}

abbrev at_rate : ℕ → Bool → Slot
at_rate rate throws = record { task = new_task rate; throws = throws }

abbrev two_tasks : List Slot
two_tasks = at_rate 20 false ∷ at_rate 0 false ∷ []

pass-wakes_example :
    (wake : ℕ) × (((pass 100 two_tasks).tasks ≡ passed 100 two_tasks)
      × (((pass 100 two_tasks).wake ≡ some wake)
          × (NoneBefore wake (pass 100 two_tasks).tasks
              × ((wake ≡ never) ⊎ SomeAt wake (pass 100 two_tasks).tasks))))
pass-wakes_example = pass-wakes 100 two_tasks (refl, (refl, tt))

is_due-after_runs_example :
    is_due 70000 (after_runs 3 (new_task 20)) ≡ (ltb (3 * (20 * 1000)) 70000 || 3 == 0)
is_due-after_runs_example = is_due-after_runs 3 20 70000 (omega arith) (omega arith, omega arith)

run_argument-after_runs_example :
    run_argument 70000 (after_runs 3 (new_task 20)) ≡ (70000 - (3 - 1) * (20 * 1000)) % 2 ^ 32
run_argument-after_runs_example =
    run_argument-after_runs 3 20 70000 (omega arith, omega arith) (omega arith) (omega arith)

abbrev failing : Slot
failing = at_rate 10 true

pass-throws_example :
    ((pass 100 (two_tasks ++ failing ∷ two_tasks)).tasks
      ≡ passed 100 two_tasks ++ failing.task ∷ tasks_of two_tasks)
    × ((pass 100 (two_tasks ++ failing ∷ two_tasks)).wake ≡ none)
unfolding new_task
pass-throws_example =
    pass-throws 100 two_tasks failing two_tasks (refl, (refl, tt)) (refl, (refl, refl))
