-- ===== src/Failover/Ramp.antt =====
-- src/main/cpp/failover/utils/ValueRamper.cpp: a value that follows a wanted one at a limited rate. The
-- clock's reading is an argument.
use ckriopassthru.Base.{◌≡◌, true, ◌&&◌, not, ◌⊎◌, inl, inr, arith, if◌then◌else◌}
use ckriopassthru.Arithmetic.{Arithmetic, number, min, max}
use ckriopassthru.Arithmetic.Order.{◌≼◌, IsNumber, IsOrdered, less-le, min-bounds, max-bounds}

pub record ValueRamper (Value : Type 0) : Type 0 where
  pub accel_ramp_rate : Value
  pub decel_ramp_rate : Value
  pub zero_value : Value
  pub max_value : Value
  pub prev_time : Value
  pub prev_value : Value

module _ {Value : Type 0} (arithmetic : Arithmetic Value) where
  open arithmetic use {add, subtract, multiply, divide, less, less_equal, equal}

  unfoldable pub value_ramper : Value → Value → Value → Value → ValueRamper Value
  value_ramper accel decel zero_value max_value = record {
    accel_ramp_rate = accel;
    decel_ramp_rate = decel;
    zero_value = zero_value;
    max_value = max_value;
    prev_time = number arithmetic 0;
    prev_value = number arithmetic 0;
  }

  -- What a step of a ramp rate comes to at a time.
  abbrev pub ramp_step : ValueRamper Value → Value → Value → Value
  ramp_step r now rate =
      divide (multiply (subtract r.max_value r.zero_value) (subtract now r.prev_time)) rate

  -- The new `mPrevValue`, for the steps and the wanted value.
  unfoldable pub ramp : Value → Value → Value → Value → Value
  unfolding min max
  ramp accel_step decel_step prev wanted =
      if less prev wanted && less_equal (number arithmetic 0) wanted
      then min arithmetic (add prev accel_step) wanted
      else if less wanted prev && less_equal (number arithmetic 0) wanted
      then max arithmetic (subtract prev decel_step) wanted
      else if less wanted prev && less_equal wanted (number arithmetic 0)
      then max arithmetic (subtract prev accel_step) wanted
      else if less prev wanted && less_equal wanted (number arithmetic 0)
      then min arithmetic (add prev decel_step) wanted
      else wanted

  -- `calculateOutput`: the output and the ramper.
  unfoldable pub calculate_output : Value → Value → ValueRamper Value → Value × ValueRamper Value
  unfolding ramp
  calculate_output now wanted r =
      let v =
        ramp (ramp_step r now r.accel_ramp_rate) (ramp_step r now r.decel_ramp_rate) r.prev_value
          wanted in
      if not (equal r.prev_time (number arithmetic 0))
      then (v, record r { prev_time = now; prev_value = v })
      else (number arithmetic 0, record r { prev_time = now })

  -- From `p` towards `c`, and not past it.
  abbrev pub IsBetween : Value → Value → Value → Type 0
  IsBetween p v c =
      (◌≼◌ arithmetic p v × ◌≼◌ arithmetic v c) ⊎ (◌≼◌ arithmetic c v × ◌≼◌ arithmetic v p)

  -- The steps are not negative, and the sums with them are numbers.
  pub record IsStep (p s : Value) : Type 0 where
    pub not_negative : ◌≼◌ arithmetic (number arithmetic 0) s
    pub sum : IsNumber arithmetic (add p s)
    pub difference : IsNumber arithmetic (subtract p s)

  rise :
      IsOrdered arithmetic
      → (p s c : Value) → IsNumber arithmetic p
      → IsNumber arithmetic c
      → IsStep p s
      → less p c ≡ true
      → IsBetween p (min arithmetic (add p s) c) c
  rise o p s c np nc h e = inl (
      min-bounds arithmetic o p (add p s) c h.sum nc (o.le-add p s h.not_negative h.sum)
        (less-le arithmetic o p c np nc e))

  fall :
      IsOrdered arithmetic
      → (p s c : Value) → IsNumber arithmetic p
      → IsNumber arithmetic c
      → IsStep p s
      → less c p ≡ true
      → IsBetween p (max arithmetic (subtract p s) c) c
  fall o p s c np nc h e = inr (
      max-bounds arithmetic o p (subtract p s) c h.difference nc
        (o.subtract-le p s h.not_negative h.difference) (less-le arithmetic o c p nc np e))

  -- For numbers of an ordered arithmetic and steps that are not negative, the new value of the ramp
  -- is between the one before and the wanted value: it moves towards what is wanted and not past
  -- it.
  pub ramp-IsBetween :
      IsOrdered arithmetic
      → (a d p c : Value) → IsNumber arithmetic p
      → IsNumber arithmetic c
      → IsStep p a
      → IsStep p d
      → IsBetween p (ramp a d p c) c
  unfolding ramp
  ramp-IsBetween o a d p c np nc ha hd =
      let stay : IsBetween p c c = elim (o.le_total p c np nc) [
        | inl e ↦ inl (e, nc)
        | inr e ↦ inr (nc, e)
      ] in
      ground (
        arith,
        stay,
        rise o p a c np nc ha,
        rise o p d c np nc hd,
        fall o p a c np nc ha,
        fall o p d c np nc hd,
      )
