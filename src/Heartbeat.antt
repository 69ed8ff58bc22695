-- ===== src/Heartbeat.antt =====
-- The heartbeat loop that MotorManager, SolenoidManager, CKEncoderManager, CKIMUManager and
-- CANdleManager share (`processHeartbeat` in src/main/cpp/*Manager.cpp): each tick lowers every
-- counter, and an entry whose counter has run out is deleted. A counter is an `int` that is at
-- least 1 while it is stored, so truncated subtraction is exact.
use ckriopassthru.Base.{
  ℕ, suc, ◌-◌, ◌≡◌, refl, Bool, false, Option, none, some, [], ◌∷◌, arith, leb, ◌==◌, if◌then◌else◌,
}
use ckriopassthru.Base.Map.{Map, lookup, From, From-mono, lookup_below}

-- 20 ms to a tick, so 5 s.
abbrev pub max_heartbeat_ticks : ℕ
max_heartbeat_ticks = 250

module _ {ℓ} {S : Type ℓ} (delete : ℕ → S → S) where
  -- The loop: `delete` removes the entry from the manager's other maps.
  unfoldable pub sweep : Map ℕ → S → Map ℕ × S
  sweep [] s = ([], s)
  sweep ((k, t) ∷ m) s =
      let ticks = t - 1 in
      let gone = leb ticks 0 in
      let (m', s') = sweep m (if gone then delete k s else s) in
      (if gone then m' else (k, ticks) ∷ m', s')

-- What one tick does to a counter.
abbrev pub expires : Option ℕ → Bool
expires none = false
expires (some t) = leb (t - 1) 0

abbrev pub age : Option ℕ → Option ℕ
age none = none
age (some t) = if leb (t - 1) 0 then none else some (t - 1)

module _ {ℓ} {S : Type ℓ} (delete : ℕ → S → S) where
  pub sweep-From : (n : ℕ) (m : Map ℕ) (s : S) → From n m → From n (sweep delete m s).0
  unfolding sweep
  sweep-From n [] s h = tt
  sweep-From n ((k, t) ∷ m) s h =
      let s' : S = if leb (t - 1) 0 then delete k s else s in
      let rest = sweep-From (suc k) m s' h.1 in
      ground (arith, rest, From-mono {a = n} {b = suc k} (sweep delete m s').0)

  pub lookup-sweep :
      (n j : ℕ) (m : Map ℕ) (s : S) → From n m → lookup j (sweep delete m s).0 ≡ age (lookup j m)
  unfolding sweep lookup
  lookup-sweep n j [] s h = refl
  lookup-sweep n j ((k, t) ∷ m) s h =
      let s' : S = if leb (t - 1) 0 then delete k s else s in
      ground (arith, lookup-sweep (suc k) j m s' h.1, lookup_below (suc k) j m h.1)

  -- An observation that `delete` blanks at its key, and leaves alone at any other.
  module _ {κ} {E : Type κ} (obs : ℕ → S → E) (blank : E)
      (obs-delete : (k j : ℕ) (s : S)
        → obs j (delete k s) ≡ (if k == j then blank else obs j s)) where
    pub obs-sweep :
        (n j : ℕ) (m : Map ℕ) (s : S)
        → From n m
        → obs j (sweep delete m s).1 ≡ (if expires (lookup j m) then blank else obs j s)
    unfolding sweep lookup
    obs-sweep n j [] s h = refl
    obs-sweep n j ((k, t) ∷ m) s h =
        let s' : S = if leb (t - 1) 0 then delete k s else s in
        ground (arith, obs-sweep (suc k) j m s' h.1, lookup_below (suc k) j m h.1, obs-delete k j s)
