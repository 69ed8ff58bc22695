-- ===== src/Scheduler/Wake.antt =====
-- When the loop of src/main/cpp/utils/TaskScheduler.cpp wakes up next, and what a pass does to each task.
use ckriopassthru.Base.{
  ℕ, ◌+◌, ◌≤◌, ◌<◌, ◌≡◌, ◌⊎◌, inl, inr, refl, true, false, some, List, [], ◌∷◌, arith, ltb, leb,
  if◌then◌else◌, Bool-cases, ap, subst, sym,
}
use ckriopassthru.Scheduler.{Task, Slot, never, min_time, is_due, advance, pass_from, pass}

-- No task throws.
abbrev pub NoThrow : List Slot → Type 0
NoThrow [] = Unit
NoThrow (s ∷ ss) = (s.throws ≡ false) × NoThrow ss

-- What a pass makes of one task: a task with a rate that is due advances.
abbrev pub passed_task : ℕ → Task → Task
passed_task now t = if leb t.task_rate_ms 0 then t else if is_due now t then advance t else t

-- The tasks of a pass, each on its own.
abbrev pub passed : ℕ → List Slot → List Task
passed now [] = []
passed now (s ∷ ss) = passed_task now s.task ∷ passed now ss

-- The earliest next update of the tasks with a rate, and `limit` if that is earlier.
abbrev pub earliest : ℕ → List Task → ℕ
earliest limit [] = limit
earliest limit (t ∷ ts) =
    if leb t.task_rate_ms 0
    then earliest limit ts
    else earliest (min_time t.time_next_update_us limit) ts

earliest-skip :
    (limit : ℕ) (t : Task) (ts : List Task)
    → leb t.task_rate_ms 0 ≡ true
    → earliest limit (t ∷ ts) ≡ earliest limit ts
earliest-skip limit t ts e = rw (e) refl

earliest-take :
    (limit : ℕ) (t : Task) (ts : List Task)
    → leb t.task_rate_ms 0 ≡ false
    → earliest limit (t ∷ ts) ≡ earliest (min_time t.time_next_update_us limit) ts
earliest-take limit t ts e = rw (e) refl

pass_from-tasks :
    (now i wake : ℕ) (ss : List Slot) → NoThrow ss → (pass_from now i wake ss).tasks ≡ passed now ss
unfolding pass_from
pass_from-tasks now i wake [] h = refl
pass_from-tasks now i wake (s ∷ ss) (e, h) =
    let p : (w : ℕ) → (pass_from now (i + 1) w ss).tasks ≡ passed now ss =
      λ w. pass_from-tasks now (i + 1) w ss h in
    elim (Bool-cases (leb s.task.task_rate_ms 0)) [
      | inl r ↦ rw (r) (ap (λ ts. s.task ∷ ts) (p wake))
      | inr r ↦ elim (Bool-cases (is_due now s.task)) [
        | inl d ↦
            rw (r, d, e)
              (ap (λ ts. advance s.task ∷ ts)
                (p (min_time (advance s.task).time_next_update_us wake)))
        | inr d ↦ rw (r, d) (ap (λ ts. s.task ∷ ts) (p (min_time s.task.time_next_update_us wake)))
      ]
    ]

pass_from-wake :
    (now i wake : ℕ) (ss : List Slot)
    → NoThrow ss
    → (pass_from now i wake ss).wake ≡ some (earliest wake (passed now ss))
unfolding pass_from advance
pass_from-wake now i wake [] h = refl
pass_from-wake now i wake (s ∷ ss) (e, h) =
    let ts = passed now ss in
    let p : (w : ℕ) → (pass_from now (i + 1) w ss).wake ≡ some (earliest w ts) =
      λ w. pass_from-wake now (i + 1) w ss h in
    elim (Bool-cases (leb s.task.task_rate_ms 0)) [
      | inl r ↦ rw (r, p wake, earliest-skip wake s.task ts r) refl
      | inr r ↦ elim (Bool-cases (is_due now s.task)) [
        | inl d ↦
            rw
              (
                r,
                d,
                e,
                p (min_time (advance s.task).time_next_update_us wake),
                earliest-take wake (advance s.task) ts r,
              )
              refl
        | inr d ↦
            rw (r, d, p (min_time s.task.time_next_update_us wake), earliest-take wake s.task ts r)
              refl
      ]
    ]

-- No task with a rate is to be updated before `wake`.
abbrev pub NoneBefore : ℕ → List Task → Type 0
NoneBefore wake [] = Unit
NoneBefore wake (t ∷ ts) = (0 < t.task_rate_ms → wake ≤ t.time_next_update_us) × NoneBefore wake ts

-- Some task with a rate is to be updated at `wake`.
abbrev pub SomeAt : ℕ → List Task → Type 0
SomeAt wake [] = ⊥
SomeAt wake (t ∷ ts) = ((0 < t.task_rate_ms) × (wake ≡ t.time_next_update_us)) ⊎ SomeAt wake ts

earliest-le : (limit : ℕ) (ts : List Task) → earliest limit ts ≤ limit
unfolding min_time
earliest-le limit [] = ground arith
earliest-le limit (t ∷ ts) =
    let a = earliest-le limit ts in
    let b = earliest-le (min_time t.time_next_update_us limit) ts in ground arith

NoneBefore-earliest : (limit : ℕ) (ts : List Task) → NoneBefore (earliest limit ts) ts
unfolding min_time
NoneBefore-earliest limit [] = tt
NoneBefore-earliest limit (t ∷ ts) =
    let next = min_time t.time_next_update_us limit in
    let P : ℕ → Type 0 = λ w. NoneBefore w (t ∷ ts) in
    let skip : leb t.task_rate_ms 0 ≡ true
        → 0 < t.task_rate_ms
        → earliest limit ts ≤ t.time_next_update_us =
      λ e h. ground arith in
    let le : earliest next ts ≤ t.time_next_update_us = ground (arith, earliest-le next ts) in
    elim (Bool-cases (leb t.task_rate_ms 0)) [
      | inl e ↦ subst P (sym (earliest-skip limit t ts e)) (skip e, NoneBefore-earliest limit ts)
      | inr e ↦ subst P (sym (earliest-take limit t ts e)) ((λ h. le), NoneBefore-earliest next ts)
    ]

SomeAt-earliest :
    (limit : ℕ) (ts : List Task) → (earliest limit ts ≡ limit) ⊎ SomeAt (earliest limit ts) ts
unfolding min_time
SomeAt-earliest limit [] = inl refl
SomeAt-earliest limit (t ∷ ts) =
    let next = min_time t.time_next_update_us limit in
    let P : ℕ → Type 0 = λ w. (w ≡ limit) ⊎ SomeAt w (t ∷ ts) in
    let skip : (earliest limit ts ≡ limit) ⊎ SomeAt (earliest limit ts) ts → P (earliest limit ts) =
      λ o. elim o [ inl e ↦ inl e | inr h ↦ inr (inr h) ] in
    let take : leb t.task_rate_ms 0 ≡ false
        → (earliest next ts ≡ next) ⊎ SomeAt (earliest next ts) ts
        → P (earliest next ts) =
      λ r o. elim o [
        | inl e ↦ elim (Bool-cases (ltb t.time_next_update_us limit)) [
          | inl l ↦ inr (inl (ground arith, ground arith))
          | inr l ↦ inl (ground arith)
        ]
        | inr h ↦ inr (inr h)
      ] in
    elim (Bool-cases (leb t.task_rate_ms 0)) [
      | inl e ↦ subst P (sym (earliest-skip limit t ts e)) (skip (SomeAt-earliest limit ts))
      | inr e ↦ subst P (sym (earliest-take limit t ts e)) (take e (SomeAt-earliest next ts))
    ]

-- A pass in which no task throws leaves every task that has no rate or is not due as it was and
-- advances each other one; it then sleeps until a time before which no task with a rate is to be
-- updated, and at which one is, unless there is no task with a rate, when it sleeps for ever.
pub pass-wakes :
    (now : ℕ) (ss : List Slot)
    → NoThrow ss
    → (wake : ℕ) × (((pass now ss).tasks ≡ passed now ss)
        × (((pass now ss).wake ≡ some wake)
            × (NoneBefore wake (pass now ss).tasks
                × ((wake ≡ never) ⊎ SomeAt wake (pass now ss).tasks))))
unfolding pass
pass-wakes now ss h =
    let wake = earliest never (passed now ss) in
    let p = pass_from-tasks now 0 never ss h in
    let P : List Task → Type 0 = λ ts. NoneBefore wake ts × ((wake ≡ never) ⊎ SomeAt wake ts) in
    let now_P : P (passed now ss) =
      (NoneBefore-earliest never (passed now ss), SomeAt-earliest never (passed now ss)) in
    (wake, (p, (pass_from-wake now 0 never ss h, subst P (sym p) now_P)))
