-- ===== src/Timers/Caching.antt =====
-- How long the value of src/main/include/utils/CachedValue.hpp is kept.
use ckriopassthru.Base.{ℕ, ◌≡◌, refl, true, false, List, [], ◌∷◌, arith}
use ckriopassthru.Arithmetic.{Arithmetic}
use ckriopassthru.Timers.{
  elapsed_us, Readings, CachedValue, has_elapsed_ms, is_timed_out, start, get_value,
}

module _ {Value A : Type 0} (arithmetic : Arithmetic Value) (to_ms : ℕ → Value) where
  open arithmetic use {less}

  -- Calls of `getValue`: the values returned, and the cache after them.
  unfoldable pub get_values :
      List (Readings × A) → CachedValue Value A → List A × CachedValue Value A
  unfolding get_value
  get_values [] c = ([], c)
  get_values ((at, fresh) ∷ calls) c =
      let (v, c') = get_value arithmetic to_ms at fresh c in
      let (vs, c'') = get_values calls c' in (v ∷ vs, c'')

  -- No call comes later than the timeout after `start_time`.
  abbrev pub AllEarly : Value → ℕ → List (Readings × A) → Type 0
  AllEarly timeout start_time [] = Unit
  AllEarly timeout start_time ((at, fresh) ∷ calls) =
      (less timeout (to_ms (elapsed_us at.at_test start_time)) ≡ false)
      × AllEarly timeout start_time calls

  abbrev pub repeated : A → List (Readings × A) → List A
  repeated v [] = []
  repeated v (call ∷ calls) = v ∷ repeated v calls

  get_value_kept :
      (at : Readings) (fresh : A) (c : CachedValue Value A)
      → c.timeout_timer.first_run ≡ false
      → less c.timeout_timer.timeout_ms
          (to_ms (elapsed_us at.at_test c.timeout_timer.timer.start_time_us))
        ≡ false
      → get_value arithmetic to_ms at fresh c ≡ (c.cached_value, c)
  unfolding get_value is_timed_out has_elapsed_ms
  get_value_kept at fresh c f h = ground (arith, f, h)

  get_values-started :
      (calls : List (Readings × A)) (c : CachedValue Value A)
      → c.timeout_timer.first_run ≡ false
      → AllEarly c.timeout_timer.timeout_ms c.timeout_timer.timer.start_time_us calls
      → get_values calls c ≡ (repeated c.cached_value calls, c)
  unfolding get_values
  get_values-started [] c f h = refl
  get_values-started ((at, fresh) ∷ calls) c f h =
      rw (get_value_kept at fresh c f h.0, get_values-started calls c f h.1)

  get_value_expired :
      (at : Readings) (fresh : A) (c : CachedValue Value A)
      → c.timeout_timer.first_run ≡ false
      → less c.timeout_timer.timeout_ms
          (to_ms (elapsed_us at.at_test c.timeout_timer.timer.start_time_us))
        ≡ true
      → (get_value arithmetic to_ms at fresh c).0 ≡ fresh
  unfolding get_value is_timed_out has_elapsed_ms
  get_value_expired at fresh c f h = ground (arith, f, h)

  -- The first call after the value was computed starts the timer.
  get_value_first :
      (at : Readings) (fresh : A) (c : CachedValue Value A)
      → c.timeout_timer.first_run ≡ true
      → less c.timeout_timer.timeout_ms (to_ms (elapsed_us at.at_test at.at_start)) ≡ false
      → get_value arithmetic to_ms at fresh c ≡ (
        c.cached_value,
        record c {
          timeout_timer = record c.timeout_timer {
            first_run = false;
            timer = record { start_time_us = at.at_start };
          };
        },
      )
  unfolding get_value is_timed_out has_elapsed_ms start
  get_value_first at fresh c f h = ground (arith, f, h)

  -- After a value was computed, the calls that come no later than the timeout after the first of
  -- them return it, and the next call that comes later returns a new one.
  pub get_values-kept :
      (at : Readings) (fresh : A) (calls : List (Readings × A)) (late : Readings) (new : A)
      (c : CachedValue Value A)
      → c.timeout_timer.first_run ≡ true
      → AllEarly c.timeout_timer.timeout_ms at.at_start ((at, fresh) ∷ calls)
      → less c.timeout_timer.timeout_ms (to_ms (elapsed_us late.at_test at.at_start)) ≡ true
      → let (vs, c') = get_values ((at, fresh) ∷ calls) c in
        (vs ≡ repeated c.cached_value ((at, fresh) ∷ calls))
        × ((get_value arithmetic to_ms late new c').0 ≡ new)
  unfolding get_values
  get_values-kept at fresh calls late new c f early expired =
      let c1 : CachedValue Value A = record c {
        timeout_timer = record c.timeout_timer {
          first_run = false;
          timer = record { start_time_us = at.at_start };
        };
      } in
      rw (get_value_first at fresh c f early.0, get_values-started calls c1 refl early.1)
        (refl, get_value_expired late new c1 refl expired)
