-- ===== src/Yaw/Range.antt =====
-- When `normalizeYaw` of src/main/include/utils/CKMath.hpp ends, and where its result is.
use ckriopassthru.Base.{
  ℕ, zero, suc, ◌<◌, ◌≡◌, refl, true, false, none, some, arith, inl, inr, Bool-cases, Option-cases,
  is_some,
}
use ckriopassthru.Arithmetic.{Arithmetic}
use ckriopassthru.Yaw.{half_turn, turn, turn_back, turn_on, normalize_yaw}

module _ {Value : Type 0} (arithmetic : Arithmetic Value) where
  open arithmetic use {negate, add, subtract, less}

  -- Neither above 180 degrees nor below -180.
  abbrev pub IsNormal : Value → Type 0
  IsNormal v =
      (less (half_turn arithmetic) v ≡ false) × (less v (negate (half_turn arithmetic)) ≡ false)

  -- A turn from below -180 degrees does not lead above 180.
  abbrev pub TurnsShort : Type 0
  TurnsShort =
      (v : Value)
      → less v (negate (half_turn arithmetic)) ≡ true
      → less (half_turn arithmetic) (add v (turn arithmetic)) ≡ false

  turn_back-below :
      (fuel : ℕ) (v w : Value)
      → turn_back arithmetic fuel v ≡ some w
      → less (half_turn arithmetic) w ≡ false
  unfolding turn_back
  turn_back-below zero v w h = ground (arith, h)
  turn_back-below (suc fuel) v w h = elim (Bool-cases (less (half_turn arithmetic) v)) [
    | inl e ↦ turn_back-below fuel (subtract v (turn arithmetic)) w (rw e at h)
    | inr e ↦ let q : some v ≡ some w = rw e at h in ground (arith, q, e)
  ]

  turn_on-IsNormal :
      TurnsShort
      → (fuel : ℕ) (v w : Value) → turn_on arithmetic fuel v ≡ some w
      → less (half_turn arithmetic) v ≡ false
      → IsNormal w
  unfolding turn_on
  turn_on-IsNormal short zero v w h below = ground (arith, h)
  turn_on-IsNormal short (suc fuel) v w h below =
      elim (Bool-cases (less v (negate (half_turn arithmetic)))) [
        | inl e ↦ turn_on-IsNormal short fuel (add v (turn arithmetic)) w (rw e at h) (short v e)
        | inr e ↦ let q : some v ≡ some w = rw e at h in ground (arith, q, e, below)
      ]

  -- The angles that the first loop goes through from `v`, and the second.
  abbrev pub back : ℕ → Value → Value
  back zero v = v
  back (suc n) v = back n (subtract v (turn arithmetic))

  abbrev pub on : ℕ → Value → Value
  on zero v = v
  on (suc n) v = on n (add v (turn arithmetic))

  turn_back-ends :
      (fuel n : ℕ) (v : Value)
      → n < fuel
      → less (half_turn arithmetic) (back n v) ≡ false
      → is_some (turn_back arithmetic fuel v) ≡ true
  unfolding turn_back
  turn_back-ends zero n v lt h = absurd (omega arith)
  turn_back-ends (suc fuel) zero v lt h = ground (arith, h)
  turn_back-ends (suc fuel) (suc n) v lt h =
      ground (arith, turn_back-ends fuel n (subtract v (turn arithmetic)) (omega arith) h)

  turn_on-ends :
      (fuel n : ℕ) (v : Value)
      → n < fuel
      → less (on n v) (negate (half_turn arithmetic)) ≡ false
      → is_some (turn_on arithmetic fuel v) ≡ true
  unfolding turn_on
  turn_on-ends zero n v lt h = absurd (omega arith)
  turn_on-ends (suc fuel) zero v lt h = ground (arith, h)
  turn_on-ends (suc fuel) (suc n) v lt h =
      ground (arith, turn_on-ends fuel n (add v (turn arithmetic)) (omega arith) h)

  -- A turn from above 180 degrees does not lead below -180.
  abbrev pub TurnsBackShort : Type 0
  TurnsBackShort =
      (v : Value)
      → less (half_turn arithmetic) v ≡ true
      → less (subtract v (turn arithmetic)) (negate (half_turn arithmetic)) ≡ false

  turn_back-IsNormal :
      TurnsBackShort
      → (fuel : ℕ) (v w : Value) → turn_back arithmetic fuel v ≡ some w
      → less v (negate (half_turn arithmetic)) ≡ false
      → IsNormal w
  unfolding turn_back
  turn_back-IsNormal short zero v w h above = ground (arith, h)
  turn_back-IsNormal short (suc fuel) v w h above =
      elim (Bool-cases (less (half_turn arithmetic) v)) [
        | inl e ↦
            turn_back-IsNormal short fuel (subtract v (turn arithmetic)) w (rw e at h) (short v e)
        | inr e ↦ let q : some v ≡ some w = rw e at h in ground (arith, q, e, above)
      ]

  -- The second loop ends at once where there is nothing to do.
  turn_on-done :
      (fuel : ℕ) (w : Value)
      → less w (negate (half_turn arithmetic)) ≡ false
      → turn_on arithmetic (suc fuel) w ≡ some w
  unfolding turn_on
  turn_on-done fuel w h = ground (arith, h)

  above-ends :
      TurnsBackShort
      → (fuel n : ℕ) (v : Value) → n < suc fuel
      → less (half_turn arithmetic) (back n v) ≡ false
      → less v (negate (half_turn arithmetic)) ≡ false
      → (w : Value) × (normalize_yaw arithmetic (suc fuel) v ≡ some w) × IsNormal w
  unfolding normalize_yaw
  above-ends short fuel n v lt h above = elim (Option-cases (turn_back arithmetic (suc fuel) v)) [
    | inl e ↦ let ends = turn_back-ends (suc fuel) n v lt h in ground (arith, e, ends)
    | inr (w, e) ↦
        let normal = turn_back-IsNormal short (suc fuel) v w e above in
        (w, rw (e, normalize_yaw) (turn_on-done fuel w normal.1), normal)
  ]

  below-ends :
      TurnsShort
      → (fuel n : ℕ) (v : Value) → n < suc fuel
      → less (on n v) (negate (half_turn arithmetic)) ≡ false
      → less (half_turn arithmetic) v ≡ false
      → (w : Value) × (normalize_yaw arithmetic (suc fuel) v ≡ some w) × IsNormal w
  unfolding normalize_yaw turn_back
  below-ends short fuel n v lt h below = elim (Option-cases (turn_on arithmetic (suc fuel) v)) [
    | inl e ↦ let ends = turn_on-ends (suc fuel) n v lt h in ground (arith, e, ends)
    | inr (w, e) ↦ (w, rw (below, normalize_yaw) e, turn_on-IsNormal short (suc fuel) v w e below)
  ]

  -- Normalizing an angle ends, and with an angle that is neither above 180 degrees nor below -180,
  -- if turns back from it lead to an angle that is not above 180 and turns on from it to one that
  -- is not below -180, each in fewer turns than the fuel, no angle above 180 is below -180, and a
  -- turn from beyond one end does not lead beyond the other.
  pub normalize_yaw-IsNormal :
      (fuel n m : ℕ) (v : Value)
      → TurnsShort
      → TurnsBackShort
      → (less (half_turn arithmetic) v ≡ true → less v (negate (half_turn arithmetic)) ≡ false)
      → n < fuel
      → less (half_turn arithmetic) (back n v) ≡ false
      → m < fuel
      → less (on m v) (negate (half_turn arithmetic)) ≡ false
      → (w : Value) × (normalize_yaw arithmetic fuel v ≡ some w) × IsNormal w
  normalize_yaw-IsNormal zero n m v short back_short one_side ln hn lm hm = absurd (omega arith)
  normalize_yaw-IsNormal (suc fuel) n m v short back_short one_side ln hn lm hm =
      elim (Bool-cases (less (half_turn arithmetic) v)) [
        | inl e ↦ above-ends back_short fuel n v ln hn (one_side e)
        | inr e ↦ below-ends short fuel m v lm hm e
      ]

  turn_back-hangs :
      (fuel : ℕ) (v : Value)
      → less (half_turn arithmetic) v ≡ true
      → subtract v (turn arithmetic) ≡ v
      → turn_back arithmetic fuel v ≡ none
  unfolding turn_back
  turn_back-hangs zero v h same = refl
  turn_back-hangs (suc fuel) v h same = rw (same, h) (turn_back-hangs fuel v h same)

  -- Normalizing an angle above 180 degrees that is so large that subtracting a turn leaves it as it
  -- is, as an infinite one, never ends.
  pub normalize_yaw-hangs :
      (fuel : ℕ) (v : Value)
      → less (half_turn arithmetic) v ≡ true
      → subtract v (turn arithmetic) ≡ v
      → normalize_yaw arithmetic fuel v ≡ none
  unfolding normalize_yaw
  normalize_yaw-hangs fuel v h same = rw (turn_back-hangs fuel v h same, normalize_yaw) refl
