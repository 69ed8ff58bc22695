-- ===== src/Scheduler/Grid.antt =====
-- The times at which a task of src/main/cpp/utils/TaskScheduler.cpp runs.
use ckriopassthru.Base.{
  ℕ, zero, suc, ◌≡◌, refl, ◌+◌, ◌-◌, ◌*◌, ◌%◌, ◌^◌, ◌<◌, ◌≤◌, ◌==◌, ltb, ◌||◌, arith, ap,
}
use ckriopassthru.Scheduler.{Task, new_task, is_due, advance, run_argument}

-- `n` runs of a task.
abbrev pub after_runs : ℕ → Task → Task
after_runs zero t = t
after_runs (suc n) t = advance (after_runs n t)

-- The product of a period of `rate` ms and the sums of the first `n` runs do not wrap.
abbrev pub Fits : ℕ → ℕ → Type 0
Fits n rate = (rate * 1000 < 2 ^ 32) × (n * (rate * 1000) < 2 ^ 64)

-- What the times of a task are after `n` runs.
record Times (n rate : ℕ) (t : Task) : Type 0 where
  rate_eq : t.task_rate_ms ≡ rate
  next_eq : t.time_next_update_us ≡ n * (rate * 1000)
  last_eq : t.time_last_update_us ≡ (n - 1) * (rate * 1000)

next-advance :
    (n p : ℕ) → p < 2 ^ 32 → suc n * p < 2 ^ 64 → (n * p + p % 2 ^ 32) % 2 ^ 64 ≡ suc n * p
next-advance n p a b = ground arith

after_runs-Times : (n rate : ℕ) → Fits n rate → Times n rate (after_runs n (new_task rate))
unfolding advance new_task
after_runs-Times zero rate f = record {
  rate_eq = refl;
  next_eq = omega arith;
  last_eq = omega arith;
}
after_runs-Times (suc n) rate (a, b) =
    let p = rate * 1000 in
    let le : n * p < 2 ^ 64 = ground arith in
    let h = after_runs-Times n rate (a, le) in
    let e : suc n - 1 ≡ n = omega arith in
    record {
      rate_eq = h.rate_eq;
      next_eq = rw (h.next_eq, h.rate_eq) (next-advance n p a b);
      last_eq = rw (h.next_eq, e) refl;
    }

product_zero : (n p : ℕ) → 0 < p → (n * p == 0) ≡ (n == 0)
product_zero zero p h = ground arith
product_zero (suc n) p h = ground arith

-- A task of a positive rate, whose period in microseconds fits 32 bits and whose first n periods
-- fit 64, is due after n runs exactly when n periods have passed, or at once when it has not run:
-- runs neither drift with the time that they start at nor are left out.
pub is_due-after_runs :
    (n rate now : ℕ)
    → 0 < rate
    → Fits n rate
    → is_due now (after_runs n (new_task rate)) ≡ (ltb (n * (rate * 1000)) now || n == 0)
is_due-after_runs n rate now r f =
    let h = after_runs-Times n rate f in
    let z : (n * (rate * 1000) == 0) ≡ (n == 0) = product_zero n (rate * 1000) (omega arith) in
    rw (h.next_eq) (ap (λ b. ltb (n * (rate * 1000)) now || b) z)

unwrap :
    (now x : ℕ) → now < 2 ^ 64 → x ≤ now → (now + 2 ^ 64 - x) % 2 ^ 64 % 2 ^ 32 ≡ (now - x) % 2 ^ 32
unwrap now x b le = let e : (now + 2 ^ 64 - x) % 2 ^ 64 ≡ now - x = omega arith in rw (e) refl

-- For a task whose period in microseconds fits 32 bits and whose first n periods fit 64, the next
-- run after n of them is given the microseconds since the time the run before it was due, n - 1
-- periods after the start, cut to 32 bits, at any time of 64 bits that is not before that.
pub run_argument-after_runs :
    (n rate now : ℕ)
    → Fits n rate
    → now < 2 ^ 64
    → (n - 1) * (rate * 1000) ≤ now
    → run_argument now (after_runs n (new_task rate)) ≡ (now - (n - 1) * (rate * 1000)) % 2 ^ 32
unfolding run_argument
run_argument-after_runs n rate now f b le =
    let h = after_runs-Times n rate f in rw (h.last_eq) (unwrap now ((n - 1) * (rate * 1000)) b le)
