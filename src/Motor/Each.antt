-- ===== src/Motor/Each.antt =====
-- Properties that every motor of src/main/cpp/MotorManager.cpp has at its id, and the operations that keep
-- them.
use ckriopassthru.Base.{ℕ, sym, subst, none, some, Option, arith, ◌==◌, inl, inr, Bool-cases, ==-eq}
use ckriopassthru.Base.Map.{lookup}
use ckriopassthru.Registry.Walk.{visited, devices-on_device, lookup-walk}
use ckriopassthru.Talon.{Talon, MotorType, talon_fx}
use ckriopassthru.Motor.{Motors, on_motor, for_each_motor, process_heartbeat}
use ckriopassthru.Motor.Lease.{entry-process_heartbeat}
use ckriopassthru.Motor.Invariant.{IsValid, IsValid-IsTyped}

abbrev pub Each {ℓ} : {A : Type ℓ} → (A → Type 0) → Option A → Type 0
Each P none = Unit
Each P (some a) = P a

module _ (talon : Talon) where
  open talon use {Motor}

  abbrev pub AllAt : {Msg : Type 0} → (ℕ → Motor → Type 0) → Motors Motor Msg → Type 0
  AllAt P w = (k : ℕ) → Each (P k) (lookup k w.manager.devices)

module _ (talon : Talon) (P : ℕ → talon.Motor → Type 0) where
  open talon use {Motor}

  visited-Each :
      (func : ℕ → Motor → MotorType → Motor) (k : ℕ) (m : Option Motor) (t : Option MotorType)
      → ((d : Motor) (t' : MotorType) → P k d → P k (func k d t'))
      → Each (P k) m
      → Each (P k) (visited func k m t)
  visited-Each func k none t keep h = tt
  visited-Each func k (some d) none keep h = h
  visited-Each func k (some d) (some t) keep h = keep d t h

  pub on_motor-AllAt :
      {Msg : Type 0} (id : ℕ) (func : ℕ → Motor → MotorType → Motor) (w : Motors Motor Msg)
      → IsValid w
      → ((d : Motor) (t : MotorType) → P id d → P id (func id d t))
      → AllAt talon P w
      → AllAt talon P (on_motor id func w)
  unfolding on_motor
  on_motor-AllAt id func w v keep all k =
      let func' : ℕ → Motor → MotorType → Unit {0} → Motor × Unit {0} =
        λ i d t s. (func i d t, s) in
      rw (devices-on_device talon_fx id k func' w.manager tt (IsValid-IsTyped talon w v))
        (elim (Bool-cases (id == k)) [
          | inl e ↦
              let keep' : (d : Motor) (t : MotorType) → P k d → P k (func k d t) =
                subst (λ i. (d : Motor) (t : MotorType) → P i d → P i (func i d t)) (==-eq id k e)
                  keep in
              rw e (visited-Each func k _ _ keep' (all k))
          | inr e ↦ rw e (all k)
        ])

  pub for_each_motor-AllAt :
      {Msg : Type 0} (func : ℕ → Motor → MotorType → Motor) (w : Motors Motor Msg)
      → IsValid w
      → ((k : ℕ) (d : Motor) (t : MotorType) → P k d → P k (func k d t))
      → AllAt talon P w
      → AllAt talon P (for_each_motor func w)
  unfolding for_each_motor
  for_each_motor-AllAt func w v keep all k =
      rw (lookup-walk talon_fx func k w.manager.devices w.manager.types (IsValid-IsTyped talon w v))
        (visited-Each func k _ _ (keep k) (all k))

  pub process_heartbeat-AllAt :
      {Msg : Type 0} (w : Motors Motor Msg)
      → IsValid w
      → AllAt talon P w
      → AllAt talon P (process_heartbeat w)
  process_heartbeat-AllAt w v all k =
      let q : Each (P k) (lookup k w.manager.devices) = all k in
      subst (λ e. Each (P k) e.motor) (sym (entry-process_heartbeat k w v.sorted))
        (ground (arith, q))
