-- ===== src/Solenoid/Manager.antt =====
-- How long a solenoid of src/main/cpp/SolenoidManager.cpp lives.
use ckriopassthru.Base.{
  Bool, Option, none, false, ◌&&◌, Bool-cases, Option-cases, inl, inr, ==-refl, ℕ, ◌≡◌, arith,
  is_some, ltb, List, true, ◌≢◌, some,
}
use ckriopassthru.Base.Map.{lookup, has, lookup-insert, insert-From, IsSorted}
use ckriopassthru.Registry.{Registry}
use ckriopassthru.Registry.Lifetime.{Manager, Call, heartbeats, run, IsSilent, device_exists-run}
use ckriopassthru.Solenoid.{
  Pneumatics, Solenoid, ModuleType, SolenoidType, single, register_solenoid, new_solenoid,
  needs_channel,
}

-- The arguments of a registration.
pub record Registration : Type 0 where
  pub module_type : ModuleType
  pub id : ℕ
  pub solenoid_type : SolenoidType
  -- Whether WPILib's constructor throws, if it is called.
  pub throws : Bool

module _ (pneumatics : Pneumatics) where
  -- The maps after a call, returned or thrown out of.
  abbrev pub register :
      Registration
      → Registry (Solenoid pneumatics) SolenoidType
      → Registry (Solenoid pneumatics) SolenoidType
  register a r = elim (register_solenoid pneumatics a.throws a.module_type a.id a.solenoid_type r) [
    | none ↦ r
    | some r' ↦ r'
  ]

  abbrev made : Registration → Option (Solenoid pneumatics)
  made a = new_solenoid pneumatics a.throws a.module_type a.id a.solenoid_type

  -- The constructor does not throw.
  abbrev pub Returns : Registration → Type 0
  Returns a = (a.throws && needs_channel pneumatics a.module_type a.id a.solenoid_type) ≡ false

  made-Returns : (a : Registration) → Returns a → is_some (made a) ≡ true
  unfolding new_solenoid
  made-Returns a h = ground (arith, h)

  pub register-Sorted_lem :
      (a : Registration) (r : Registry (Solenoid pneumatics) SolenoidType)
      → IsSorted r.heartbeats
      → IsSorted (register a r).heartbeats
  unfolding register_solenoid
  register-Sorted_lem a r h =
      let p = insert-From 0 a.id 250 r.heartbeats (omega arith) h in
      elim (Bool-cases (has a.id r.devices)) [
        | inl b ↦ rw (register, register_solenoid, b) p
        | inr b ↦ elim (Option-cases (made a)) [
          | inl e ↦ rw (register, register_solenoid, b, e) h
          | inr (s, e) ↦ rw (register, register_solenoid, b, e) p
        ]
      ]

  pub devices-register_solenoid :
      (a : Registration) (j : ℕ) (r : Registry (Solenoid pneumatics) SolenoidType)
      → a.id ≢ j
      → lookup j (register a r).devices ≡ lookup j r.devices
  unfolding register_solenoid
  devices-register_solenoid a j r ne = elim (Option-cases (made a)) [
    | inl e ↦ ground (arith, e)
    | inr (s, e) ↦ ground (arith, e, ne, lookup-insert a.id j s r.devices)
  ]

  pub heartbeats-register_solenoid :
      (a : Registration) (j : ℕ) (r : Registry (Solenoid pneumatics) SolenoidType)
      → a.id ≢ j
      → lookup j (register a r).heartbeats ≡ lookup j r.heartbeats
  unfolding register_solenoid
  heartbeats-register_solenoid a j r ne = ground (arith, ne, lookup-insert a.id j 250 r.heartbeats)

  pub heartbeats-register_made :
      (a : Registration) (r : Registry (Solenoid pneumatics) SolenoidType)
      → Returns a
      → lookup a.id (register a r).heartbeats ≡ some 250
  unfolding register_solenoid
  heartbeats-register_made a r h =
      ground (arith, made-Returns a h, lookup-insert a.id a.id 250 r.heartbeats, ==-refl a.id)

  pub register_solenoid-makes :
      (a : Registration) (r : Registry (Solenoid pneumatics) SolenoidType)
      → Returns a
      → is_some (lookup a.id (register a r).devices) ≡ true
  unfolding register_solenoid has
  register_solenoid-makes a r h = elim (Option-cases (made a)) [
    | inl e ↦ ground (arith, e, made-Returns a h)
    | inr (s, e) ↦ ground (arith, e, lookup-insert a.id a.id s r.devices, ==-refl a.id)
  ]

  abbrev pub solenoid_manager : Manager (Solenoid pneumatics) SolenoidType Registration
  solenoid_manager = record {
    initial = single;
    register = register;
    key = λ a. a.id;
    Makes = Returns;
    register-Sorted = register-Sorted_lem;
    devices-register_other = devices-register_solenoid;
    heartbeats-register_other = heartbeats-register_solenoid;
    heartbeats-register_made = heartbeats-register_made;
    register-makes = register_solenoid-makes;
  }

  -- Where the counters are sorted by id, a solenoid whose registration makes no call of a
  -- constructor of WPILib that throws exists for the next 249 heartbeats and is gone with the
  -- 250th, whatever operations of the manager are called, as long as no call registers the id again
  -- or deletes it; registrations of other ids may throw.
  pub solenoid_exists-run :
      (a : Registration) (r : Registry (Solenoid pneumatics) SolenoidType)
      (cs : List (Call (Solenoid pneumatics) SolenoidType Registration))
      → IsSorted r.heartbeats
      → Returns a
      → IsSilent solenoid_manager a.id cs
      → is_some (lookup a.id (run solenoid_manager (register a r) cs).devices)
        ≡ ltb (heartbeats cs) 250
  solenoid_exists-run a r cs sorted returned silent =
      device_exists-run solenoid_manager a r cs sorted returned silent
