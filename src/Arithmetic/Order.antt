-- ===== src/Arithmetic/Order.antt =====
-- What is relied on of the order of C++'s `double` and of its sums: a value that is less than or equal to
-- itself is not a NaN, and away from NaNs the order is total.
use ckriopassthru.Base.{◌≡◌, true, false, not, ◌⊎◌, inl, inr, arith, Bool-cases}
use ckriopassthru.Arithmetic.{Arithmetic, number, min, max}

module _ {Value : Type 0} (arithmetic : Arithmetic Value) where
  open arithmetic use {negate, add, subtract, less, less_equal}

  infix 4 ◌≼◌
  abbrev pub ◌≼◌ : Value → Value → Type 0
  x ≼ y = less_equal x y ≡ true

  -- Not a NaN.
  abbrev pub IsNumber : Value → Type 0
  IsNumber x = x ≼ x

  pub record IsOrdered : Type 0 where
    pub le_trans : (x y z : Value) → x ≼ y → y ≼ z → x ≼ z
    pub le_total : (x y : Value) → x ≼ x → y ≼ y → (x ≼ y) ⊎ (y ≼ x)
    pub numbers_of_le : (x y : Value) → x ≼ y → (x ≼ x) × (y ≼ y)
    pub less-eq-not-le : (x y : Value) → x ≼ x → y ≼ y → less x y ≡ not (less_equal y x)
    -- A sum with a step that is not negative, unless it is a NaN.
    pub le-add : (x s : Value) → number arithmetic 0 ≼ s → add x s ≼ add x s → x ≼ add x s
    pub subtract-le :
        (x s : Value) → number arithmetic 0 ≼ s → subtract x s ≼ subtract x s → subtract x s ≼ x
    -- -1, 0 and 1 are numbers, in this order.
    pub minus_one-le-zero : negate (number arithmetic 1) ≼ number arithmetic 0
    pub zero-le-one : number arithmetic 0 ≼ number arithmetic 1

  pub less-le : IsOrdered → (x y : Value) → IsNumber x → IsNumber y → less x y ≡ true → x ≼ y
  less-le o x y nx ny h = elim (o.le_total x y nx ny) [
    | inl e ↦ e
    | inr e ↦ ground (arith, o.less-eq-not-le x y nx ny, e, h)
  ]

  pub not_less-le : IsOrdered → (x y : Value) → IsNumber x → IsNumber y → less x y ≡ false → y ≼ x
  not_less-le o x y nx ny h = ground (arith, o.less-eq-not-le x y nx ny, h)

  pub min-bounds :
      IsOrdered
      → (p v c : Value) → IsNumber v
      → IsNumber c
      → p ≼ v
      → p ≼ c
      → (p ≼ min arithmetic v c) × (min arithmetic v c ≼ c)
  unfolding min
  min-bounds o p v c nv nc hv hc = elim (Bool-cases (less c v)) [
    | inl e ↦ rw e (hc, nc)
    | inr e ↦ rw e (hv, not_less-le o c v nc nv e)
  ]

  pub max-bounds :
      IsOrdered
      → (p v c : Value) → IsNumber v
      → IsNumber c
      → v ≼ p
      → c ≼ p
      → (c ≼ max arithmetic v c) × (max arithmetic v c ≼ p)
  unfolding max
  max-bounds o p v c nv nc hv hc = elim (Bool-cases (less v c)) [
    | inl e ↦ rw e (nc, hc)
    | inr e ↦ rw e (not_less-le o v c nv nc e, hv)
  ]
