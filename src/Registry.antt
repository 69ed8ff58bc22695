-- ===== src/Registry.antt =====
-- The state and the code that MotorManager, SolenoidManager, CKEncoderManager and CKIMUManager
-- (src/main/cpp/*Manager.cpp) have in common: three maps by id, for the device objects, their types
-- and their heartbeat counters. A device object is owned by its map, so the pointer in the map is
-- modelled by the object itself, and a callback that uses the pointer returns the new object.
pub mod Entry
pub mod Walk
pub mod Lifetime
use ckriopassthru.Base.{ℕ, ◌≡◌, Bool, Option, none, some, [], ◌∷◌, if◌then◌else◌}
use ckriopassthru.Base.Map.{Map, lookup, has, insert, erase}
use ckriopassthru.Heartbeat.{sweep}

pub record Registry {ℓ κ} (D : Type ℓ) (T : Type κ) : Type (ℓ ⊔ κ) where
  pub devices : Map D
  pub types : Map T
  pub heartbeats : Map ℕ

-- `types[k]`, which stores the value-initialised type under a key that is missing.
unfoldable pub index {ℓ} : {T : Type ℓ} → T → ℕ → Map T → T × Map T
index initial k m = elim (lookup k m) [ some t ↦ (t, m) | none ↦ (initial, insert k initial m) ]

module _ {ℓ κ} {D : Type ℓ} {T : Type κ} where
  unfoldable pub empty : Registry D T
  empty = record { devices = []; types = []; heartbeats = [] }

  -- The loop of `forEach`.
  unfoldable pub walk : T → (ℕ → D → T → D) → Map D → Map T → Map D × Map T
  unfolding index
  walk initial func [] ts = ([], ts)
  walk initial func ((k, d) ∷ ds) ts =
      let (t, ts') = index initial k ts in
      let (ds', ts'') = walk initial func ds ts' in ((k, func k d t) ∷ ds', ts'')

  unfoldable pub for_each : T → (ℕ → D → T → D) → Registry D T → Registry D T
  for_each initial func r =
      let (ds, ts) = walk initial func r.devices r.types in record r { devices = ds; types = ts }

  -- `onMotor`, `onSolenoid`, `onEncoder`, `onIMU` by id; the callback may change a state of the caller.
  unfoldable pub on_device {ι} :
      {S : Type ι} → T → ℕ → (ℕ → D → T → S → D × S) → Registry D T → S → Registry D T × S
  unfolding index
  on_device initial id func r s = elim (lookup id r.devices) [
    | none ↦ (r, s)
    | some d ↦
        let (t, ts) = index initial id r.types in
        let (d', s') = func id d t s in
        (record r { devices = insert id d' r.devices; types = ts }, s')
  ]

  -- `deleteSolenoid`, `deleteEncoder`, `deleteIMU`, and the part of `deleteMotor` on these maps. The
  -- stored pointers are results of `new`, so they are not null.
  unfoldable pub delete : ℕ → Registry D T → Registry D T
  delete id r = record r {
    devices = if has id r.devices then erase id r.devices else r.devices;
    types = if has id r.types then erase id r.types else r.types;
  }

  unfoldable pub process_heartbeat : Registry D T → Registry D T
  unfolding delete
  process_heartbeat r = let (hs, r') = sweep delete r.heartbeats r in record r' { heartbeats = hs }
