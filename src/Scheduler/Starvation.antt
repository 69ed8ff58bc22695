-- ===== src/Scheduler/Starvation.antt =====
-- What src/main/cpp/utils/TaskScheduler.cpp does when the `run` of a task throws.
use ckriopassthru.Base.{
  ℕ, ◌+◌, ◌≡◌, refl, true, false, ◌++◌, List, [], ◌∷◌, ap, none, Bool-cases, leb, inl, inr,
}
use ckriopassthru.Scheduler.{Slot, never, is_due, pass_from, pass, advance, tasks_of, min_time}
use ckriopassthru.Scheduler.Wake.{NoThrow, passed}

-- A slot whose task has a rate, is due, and throws.
abbrev pub Fails : ℕ → Slot → Type 0
Fails now s = (leb s.task.task_rate_ms 0 ≡ false) × ((is_due now s.task ≡ true) × (s.throws ≡ true))

pass_from-throws :
    (now i wake : ℕ) (before : List Slot) (s : Slot) (rest : List Slot)
    → NoThrow before
    → Fails now s
    → ((pass_from now i wake (before ++ s ∷ rest)).tasks
        ≡ passed now before ++ s.task ∷ tasks_of rest)
      × ((pass_from now i wake (before ++ s ∷ rest)).wake ≡ none)
unfolding pass_from
pass_from-throws now i wake [] s rest n (r, (d, e)) = (rw (r, d, e) refl, rw (r, d, e) refl)
pass_from-throws now i wake (b ∷ before) s rest (f, n) h =
    let ih : (w : ℕ)
        → ((pass_from now (i + 1) w (before ++ s ∷ rest)).tasks
            ≡ passed now before ++ s.task ∷ tasks_of rest)
          × ((pass_from now (i + 1) w (before ++ s ∷ rest)).wake ≡ none) =
      λ w. pass_from-throws now (i + 1) w before s rest n h in
    elim (Bool-cases (leb b.task.task_rate_ms 0)) [
      | inl r ↦ let (p, q) = ih wake in rw (r) (ap (λ ts. b.task ∷ ts) p, q)
      | inr r ↦ elim (Bool-cases (is_due now b.task)) [
        | inl d ↦
            let (p, q) = ih (min_time (advance b.task).time_next_update_us wake) in
            rw (r, d, f) (ap (λ ts. advance b.task ∷ ts) p, q)
        | inr d ↦
            let (p, q) = ih (min_time b.task.time_next_update_us wake) in
            rw (r, d) (ap (λ ts. b.task ∷ ts) p, q)
      ]
    ]

-- When a due task throws and none before it does, the tasks before it have run as usual, but it and
-- all the tasks after it are left as they were, and the pass sets no time to wake at.
pub pass-throws :
    (now : ℕ) (before : List Slot) (s : Slot) (rest : List Slot)
    → NoThrow before
    → Fails now s
    → ((pass now (before ++ s ∷ rest)).tasks ≡ passed now before ++ s.task ∷ tasks_of rest)
      × ((pass now (before ++ s ∷ rest)).wake ≡ none)
unfolding pass
pass-throws now before s rest n h = pass_from-throws now 0 never before s rest n h
