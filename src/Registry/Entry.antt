-- ===== src/Registry/Entry.antt =====
-- The registry seen one id at a time.
use ckriopassthru.Base.{ℕ, ◌≡◌, Option, none, arith, ◌==◌, if◌then◌else◌}
use ckriopassthru.Base.Map.{IsSorted, lookup, has, lookup-erase}
use ckriopassthru.Heartbeat.{expires, age, lookup-sweep, obs-sweep}
use ckriopassthru.Registry.{Registry, delete, process_heartbeat}

-- What the three maps hold of one id.
pub record Entry {ℓ κ} (D : Type ℓ) (T : Type κ) : Type (ℓ ⊔ κ) where
  pub device : Option D
  pub kind : Option T
  pub ticks : Option ℕ

module _ {ℓ κ} {D : Type ℓ} {T : Type κ} where
  abbrev pub entry : ℕ → Registry D T → Entry D T
  entry k r = record {
    device = lookup k r.devices;
    kind = lookup k r.types;
    ticks = lookup k r.heartbeats;
  }

  -- One tick of the specification.
  abbrev pub tick : Entry D T → Entry D T
  tick e =
      if expires e.ticks
      then record { device = none; kind = none; ticks = none }
      else record e { ticks = age e.ticks }

  pub devices-delete :
      (k j : ℕ) (r : Registry D T)
      → lookup j (delete k r).devices ≡ (if k == j then none else lookup j r.devices)
  unfolding delete has
  devices-delete k j r = ground (arith, lookup-erase k j r.devices)

  pub types-delete :
      (k j : ℕ) (r : Registry D T)
      → lookup j (delete k r).types ≡ (if k == j then none else lookup j r.types)
  unfolding delete has
  types-delete k j r = ground (arith, lookup-erase k j r.types)

  -- Every entry ages by one tick.
  pub entry-process_heartbeat :
      (j : ℕ) (r : Registry D T)
      → IsSorted r.heartbeats
      → entry j (process_heartbeat r) ≡ tick (entry j r)
  unfolding process_heartbeat
  entry-process_heartbeat j r h = ground (
    arith,
    lookup-sweep delete 0 j r.heartbeats r h,
    obs-sweep delete (λ i s. lookup i s.devices) none devices-delete 0 j r.heartbeats r h,
    obs-sweep delete (λ i s. lookup i s.types) none types-delete 0 j r.heartbeats r h,
  )
