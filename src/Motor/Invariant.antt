-- ===== src/Motor/Invariant.antt =====
-- The invariant of src/main/cpp/MotorManager.cpp, and how long a motor lives, over any sequence of
-- calls.
use ckriopassthru.Base.{
  ℕ, ◌≤◌, ◌<◌, ◌≡◌, sym, subst, Option, none, some, arith, ◌==◌, inl, inr, Bool-cases, ==-eq,
}
use ckriopassthru.Base.Map.{IsSorted, lookup}
use ckriopassthru.Registry.Walk.{
  IsTyped, visited, walk-types, lookup-walk, types-on_device, heartbeats-on_device,
  devices-on_device,
}
use ckriopassthru.Phoenix.{CanInterface}
use ckriopassthru.Talon.{Talon, MotorType, talon_fx}
use ckriopassthru.Motor.{
  Motors, delete_motor, no_motors, process_heartbeat, register_motor, on_motor, for_each_motor,
}
use ckriopassthru.Motor.Lease.{
  Entry, entry, entry-process_heartbeat, entry-register_motor, process_heartbeat-Sorted,
  register_motor-Sorted, register, tick, devices-delete_motor, types-delete_motor,
  heartbeats-delete_motor,
}

module _ {Motor : Type 0} where
  -- An id has a motor, a type and a counter, or a counter that `deleteMotor` has left, or none of
  -- them; ids are below 64 and counters from 1 to 250.
  abbrev pub IsLease : ℕ → Option Motor → Option MotorType → Option ℕ → Type 0
  IsLease k none none none = Unit
  IsLease k none none (some n) = (k < 64) × (1 ≤ n) × (n ≤ 250)
  IsLease k none (some t) n = ⊥
  IsLease k (some m) none n = ⊥
  IsLease k (some m) (some t) none = ⊥
  IsLease k (some m) (some t) (some n) = (k < 64) × (1 ≤ n) × (n ≤ 250)

  visited-IsLease :
      (func : ℕ → Motor → MotorType → Motor) (k : ℕ) (m : Option Motor) (t : Option MotorType)
      (n : Option ℕ)
      → IsLease k m t n
      → IsLease k (visited func k m t) t n
  visited-IsLease func k m t n h = ground arith

  deleted-IsLease :
      (k : ℕ) (m : Option Motor) (t : Option MotorType) (n : Option ℕ)
      → IsLease k m t n
      → IsLease k none none n
  deleted-IsLease k m t n h = ground arith

  pub record IsValid {Msg : Type 0} (w : Motors Motor Msg) : Type 0 where
    pub sorted : IsSorted w.manager.heartbeats
    pub lease :
        (k : ℕ)
        → IsLease k
            (lookup k w.manager.devices)
            (lookup k w.manager.types)
            (lookup k w.manager.heartbeats)

  abbrev pub EntryLease : {Msg : Type 0} → ℕ → Entry Motor Msg → Type 0
  EntryLease k e = IsLease k e.motor e.kind e.ticks

module _ (talon : Talon) {Msg : Type 0} where
  open talon use {Motor}

  pub no_motors-IsValid : IsValid {Motor = Motor} {Msg = Msg} no_motors
  unfolding no_motors lookup
  no_motors-IsValid = record { sorted = tt; lease = λ k. tt }

  tick-IsLease : (k : ℕ) (e : Entry Motor Msg) → EntryLease k e → EntryLease k (tick e)
  tick-IsLease k e h = ground arith

  register-IsLease :
      (id k : ℕ) (motor_type : MotorType) (can : CanInterface) (e : Entry Motor Msg)
      → id ≡ k
      → EntryLease k e
      → EntryLease k (register talon id motor_type can e)
  register-IsLease id k motor_type can e same h = ground arith

  pub process_heartbeat-IsValid : (w : Motors Motor Msg) → IsValid w → IsValid (process_heartbeat w)
  process_heartbeat-IsValid w v = record {
    sorted = process_heartbeat-Sorted w v.sorted;
    lease = λ k.
        subst (EntryLease k) (sym (entry-process_heartbeat k w v.sorted))
          (tick-IsLease k (entry k w) (v.lease k));
  }

  pub register_motor-IsValid :
      (id : ℕ) (motor_type : MotorType) (can : CanInterface) (w : Motors Motor Msg)
      → IsValid w
      → IsValid (register_motor talon id motor_type can w)
  register_motor-IsValid id motor_type can w v = record {
    sorted = register_motor-Sorted talon id motor_type can w v.sorted;
    lease = λ k.
        subst (EntryLease k) (sym (entry-register_motor talon id k motor_type can w))
          (elim (Bool-cases (id == k)) [
            | inl e ↦
                rw e (register-IsLease id k motor_type can (entry k w) (==-eq id k e) (v.lease k))
            | inr e ↦ rw e (v.lease k)
          ]);
  }

  pub delete_motor-IsValid :
      (id : ℕ) (w : Motors Motor Msg) → IsValid w → IsValid (delete_motor id w)
  delete_motor-IsValid id w v = record {
    sorted = rw (heartbeats-delete_motor id w) v.sorted;
    lease = λ k.
        rw (devices-delete_motor id k w, types-delete_motor id k w, heartbeats-delete_motor id w)
          (elim (Bool-cases (id == k)) [
            | inl e ↦ rw e (deleted-IsLease k _ _ _ (v.lease k))
            | inr e ↦ rw e (v.lease k)
          ]);
  }

  pub IsValid-IsTyped :
      (w : Motors Motor Msg) → IsValid w → IsTyped w.manager.devices w.manager.types
  IsValid-IsTyped w v k h = ground (arith, v.lease k)

  pub on_motor-IsValid :
      (id : ℕ) (func : ℕ → Motor → MotorType → Motor) (w : Motors Motor Msg)
      → IsValid w
      → IsValid (on_motor id func w)
  unfolding on_motor
  on_motor-IsValid id func w v =
      let typed = IsValid-IsTyped w v in
      let func' : ℕ → Motor → MotorType → Unit {0} → Motor × Unit {0} =
        λ i d t s. (func i d t, s) in
      record {
        sorted = rw (heartbeats-on_device talon_fx id func' w.manager tt) v.sorted;
        lease = λ k.
            rw
              (
                heartbeats-on_device talon_fx id func' w.manager tt,
                types-on_device talon_fx id func' w.manager tt typed,
                devices-on_device talon_fx id k func' w.manager tt typed,
              )
              (elim (Bool-cases (id == k)) [
                | inl e ↦ rw e (visited-IsLease func k _ _ _ (v.lease k))
                | inr e ↦ rw e (v.lease k)
              ]);
      }

  pub for_each_motor-IsValid :
      (func : ℕ → Motor → MotorType → Motor) (w : Motors Motor Msg)
      → IsValid w
      → IsValid (for_each_motor func w)
  unfolding for_each_motor
  for_each_motor-IsValid func w v =
      let typed = IsValid-IsTyped w v in
      record {
        sorted = v.sorted;
        lease = λ k.
            rw
              (
                walk-types talon_fx func w.manager.devices w.manager.types typed,
                lookup-walk talon_fx func k w.manager.devices w.manager.types typed,
              )
              (visited-IsLease func k _ _ _ (v.lease k));
      }
