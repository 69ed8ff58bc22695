-- ===== src/Registry/Lifetime.antt =====
-- How long a device lives in a manager with three maps, whatever its registration makes: the interface
-- that the managers of solenoids, encoders and IMUs fill, and what follows from it.
use ckriopassthru.Base.{
  ℕ, suc, ◌-◌, ◌≡◌, ◌≢◌, refl, Bool, true, false, Option, none, some, List, [], ◌∷◌, arith, ltb,
  if◌then◌else◌, is_some, ap, ◌∙◌, ==-eq, inl, inr, Option-cases, ==-ne, ◌+◌,
}
use ckriopassthru.Base.Map.{Map, lookup, IsSorted, lookup-insert}
use ckriopassthru.Heartbeat.{expires, age, sweep-From}
use ckriopassthru.Registry.{Registry, delete, process_heartbeat, on_device, for_each, walk, index}
use ckriopassthru.Registry.Entry.{entry-process_heartbeat, devices-delete}
use ckriopassthru.Registry.Walk.{heartbeats-on_device}

-- Whether an id has a device, and its counter.
pub record Life : Type 0 where
  pub present : Bool
  pub ticks : Option ℕ

-- What a manager promises of its registration, for the ways `A` to call it.
pub record Manager (D T A : Type 0) : Type 1 where
  pub initial : T
  pub register : A → Registry D T → Registry D T
  pub key : A → ℕ
  -- The calls that leave a device.
  pub Makes : A → Type 0
  pub register-Sorted :
      (a : A) (r : Registry D T) → IsSorted r.heartbeats → IsSorted (register a r).heartbeats
  pub devices-register_other :
      (a : A) (j : ℕ) (r : Registry D T)
      → key a ≢ j
      → lookup j (register a r).devices ≡ lookup j r.devices
  pub heartbeats-register_other :
      (a : A) (j : ℕ) (r : Registry D T)
      → key a ≢ j
      → lookup j (register a r).heartbeats ≡ lookup j r.heartbeats
  pub heartbeats-register_made :
      (a : A) (r : Registry D T) → Makes a → lookup (key a) (register a r).heartbeats ≡ some 250
  pub register-makes :
      (a : A) (r : Registry D T) → Makes a → is_some (lookup (key a) (register a r).devices) ≡ true

pub data Call (D T A : Type 0) : Type 0 where
  registers : A → Call D T A
  heartbeat : Call D T A
  reaches : ℕ → (ℕ → D → T → D) → Call D T A
  reaches_all : (ℕ → D → T → D) → Call D T A
  deletes : ℕ → Call D T A

unfoldable pub heartbeats : {D T A : Type 0} → List (Call D T A) → ℕ
heartbeats [] = 0
heartbeats (heartbeat ∷ cs) = suc (heartbeats cs)
heartbeats (c ∷ cs) = heartbeats cs

-- The life after a tick, and after some.
abbrev pub tick : Life → Life
tick l =
    if expires l.ticks
    then record { present = false; ticks = none }
    else record l { ticks = age l.ticks }

abbrev pub left : ℕ → ℕ → Life
left h n =
    if ltb h n
    then record { present = true; ticks = some (n - h) }
    else record { present = false; ticks = none }

module _ {D T : Type 0} where
  abbrev pub life : ℕ → Registry D T → Life
  life k r = record { present = is_some (lookup k r.devices); ticks = lookup k r.heartbeats }

  life-process_heartbeat :
      (k : ℕ) (r : Registry D T)
      → IsSorted r.heartbeats
      → life k (process_heartbeat r) ≡ tick (life k r)
  life-process_heartbeat k r h =
      ap (λ e. record { present = is_some e.device; ticks = e.ticks })
        (entry-process_heartbeat k r h)
      ∙ ground arith

  pub walk-present :
      (initial : T) (func : ℕ → D → T → D) (j : ℕ) (ds : Map D) (ts : Map T)
      → is_some (lookup j (walk initial func ds ts).0) ≡ is_some (lookup j ds)
  unfolding walk lookup
  walk-present initial func j [] ts = refl
  walk-present initial func j ((k, d) ∷ ds) ts =
      ground (arith, walk-present initial func j ds (index initial k ts).1)

  abbrev pub pass_through : (ℕ → D → T → D) → ℕ → D → T → Unit {0} → D × Unit {0}
  pass_through func i d t s = (func i d t, s)

  pub on_device-present :
      (initial : T) (id j : ℕ) (func : ℕ → D → T → D) (r : Registry D T)
      → is_some (lookup j (on_device initial id (pass_through func) r tt).0.devices)
        ≡ is_some (lookup j r.devices)
  unfolding on_device
  on_device-present initial id j func r = elim (Option-cases (lookup id r.devices)) [
    | inl e ↦ rw (e, on_device)
    | inr (d, e) ↦
        let t = (index initial id r.types).0 in
        rw (e, on_device)
          (ground (arith, e, ==-eq id j, lookup-insert id j (func id d t) r.devices))
  ]

pub sum_suc : (a b : ℕ) → a + suc b ≡ suc a + b
sum_suc a b = omega arith

module _ {D T A : Type 0} (manager : Manager D T A) where
  open manager use {initial, register, key, Makes}

  unfoldable pub step : Registry D T → Call D T A → Registry D T
  step r (registers a) = register a r
  step r heartbeat = process_heartbeat r
  step r (reaches id func) = (on_device initial id (pass_through func) r tt).0
  step r (reaches_all func) = for_each initial func r
  step r (deletes id) = delete id r

  unfoldable pub run : Registry D T → List (Call D T A) → Registry D T
  unfolding step
  run r [] = r
  run r (c ∷ cs) = run (step r c) cs

  -- No call of the sequence registers or deletes the id.
  abbrev pub IsSilent : ℕ → List (Call D T A) → Type 0
  IsSilent k [] = Unit {0}
  IsSilent k (registers a ∷ cs) = (key a ≢ k) × IsSilent k cs
  IsSilent k (deletes id ∷ cs) = (id ≢ k) × IsSilent k cs
  IsSilent k (c ∷ cs) = IsSilent k cs

  step-Sorted :
      (r : Registry D T) (c : Call D T A) → IsSorted r.heartbeats → IsSorted (step r c).heartbeats
  unfolding step process_heartbeat for_each delete
  step-Sorted r (registers a) h = manager.register-Sorted a r h
  step-Sorted r heartbeat h = sweep-From delete 0 r.heartbeats r h
  step-Sorted r (reaches id func) h =
      rw (heartbeats-on_device initial id (pass_through func) r tt) h
  step-Sorted r (reaches_all func) h = h
  step-Sorted r (deletes id) h = h

  -- The part of the life that a call leaves alone.
  life-step :
      (k : ℕ) (r : Registry D T) (c : Call D T A)
      → IsSorted r.heartbeats
      → IsSilent k (c ∷ [])
      → life k (step r c) ≡ elim c [ heartbeat ↦ tick (life k r) | _ ↦ life k r ]
  unfolding step for_each delete
  life-step k r (registers a) h s =
      rw (manager.devices-register_other a k r s.0, manager.heartbeats-register_other a k r s.0)
  life-step k r heartbeat h s = life-process_heartbeat k r h
  life-step k r (reaches id func) h s = rw (
    on_device-present initial id k func r,
    heartbeats-on_device initial id (pass_through func) r tt,
  )
  life-step k r (reaches_all func) h s = rw (walk-present initial func k r.devices r.types)
  life-step k r (deletes id) h s = rw (devices-delete id k r, ==-ne id k s.0)

  present-run :
      (k n h : ℕ) (r : Registry D T) (cs : List (Call D T A))
      → IsSorted r.heartbeats
      → IsSilent k cs
      → life k r ≡ left h n
      → life k (run r cs) ≡ left (heartbeats cs + h) n
  unfolding run heartbeats
  present-run k n h r [] sorted s e = e ∙ ground arith
  present-run k n h r (heartbeat ∷ cs) sorted s e =
      let e' : tick (left h n) ≡ left (suc h) n = ground arith in
      let next = life-step k r heartbeat sorted tt ∙ ap tick e ∙ e' in
      let rest =
        present-run k n (suc h) (step r heartbeat) cs (step-Sorted r heartbeat sorted) s next in
      rest ∙ ap (λ i. left i n) (sum_suc (heartbeats cs) h)
  present-run k n h r (registers a ∷ cs) sorted s e =
      present-run k n h (step r (registers a)) cs (step-Sorted r (registers a) sorted) s.1
        (life-step k r (registers a) sorted (s.0, tt) ∙ e)
  present-run k n h r (reaches id func ∷ cs) sorted s e =
      present-run k n h (step r (reaches id func)) cs (step-Sorted r (reaches id func) sorted) s
        (life-step k r (reaches id func) sorted tt ∙ e)
  present-run k n h r (reaches_all func ∷ cs) sorted s e =
      present-run k n h (step r (reaches_all func)) cs (step-Sorted r (reaches_all func) sorted) s
        (life-step k r (reaches_all func) sorted tt ∙ e)
  present-run k n h r (deletes id ∷ cs) sorted s e =
      present-run k n h (step r (deletes id)) cs (step-Sorted r (deletes id) sorted) s.1
        (life-step k r (deletes id) sorted (s.0, tt) ∙ e)

  -- A device that a registration leaves exists for the next 249 heartbeats and is gone with the
  -- 250th, whatever else is called, as long as no call registers its id again or deletes it.
  pub device_exists-run :
      (a : A) (r : Registry D T) (cs : List (Call D T A))
      → IsSorted r.heartbeats
      → Makes a
      → IsSilent (key a) cs
      → is_some (lookup (key a) (run (register a r) cs).devices) ≡ ltb (heartbeats cs) 250
  device_exists-run a r cs sorted made silent =
      let r' = register a r in
      let begin : life (key a) r' ≡ left 0 250 =
        rw (manager.register-makes a r made, manager.heartbeats-register_made a r made) in
      ap (λ l. l.present)
        (present-run (key a) 250 0 r' cs (manager.register-Sorted a r sorted) silent begin)
      ∙ ground arith
