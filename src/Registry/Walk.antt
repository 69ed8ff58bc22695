-- ===== src/Registry/Walk.antt =====
-- What `forEach` and `onMotor` (src/main/cpp/*Manager.cpp) do to the maps where every device has a
-- type: the callback reaches each device with its own type, and no type is made up.
use ckriopassthru.Base.{
  ℕ, ◌≡◌, refl, true, Option, none, some, [], ◌∷◌, arith, ◌==◌, if◌then◌else◌, is_some, inl, inr,
  Option-cases, ==-eq,
}
use ckriopassthru.Base.Map.{Map, lookup, lookup-insert}
use ckriopassthru.Registry.{Registry, index, walk, on_device}

pub index_found {ℓ} :
    {T : Type ℓ} (initial : T) (k : ℕ) (ts : Map T) (t : T)
    → lookup k ts ≡ some t
    → index initial k ts ≡ (t, ts)
unfolding index
index_found initial k ts t e = rw (e, index)

module _ {ℓ κ} {D : Type ℓ} {T : Type κ} where
  abbrev pub IsTyped : Map D → Map T → Type 0
  IsTyped ds ts = (k : ℕ) → is_some (lookup k ds) ≡ true → is_some (lookup k ts) ≡ true

  -- The device after the callback.
  abbrev pub visited : (ℕ → D → T → D) → ℕ → Option D → Option T → Option D
  visited func j none ot = none
  visited func j (some d) none = some d
  visited func j (some d) (some t) = some (func j d t)

  pub IsTyped-tail :
      (k : ℕ) (d : D) (ds : Map D) (ts : Map T) → IsTyped ((k, d) ∷ ds) ts → IsTyped ds ts
  unfolding lookup
  IsTyped-tail k d ds ts h j e = h j (ground arith)

  pub IsTyped-head :
      (k : ℕ) (d : D) (ds : Map D) (ts : Map T)
      → IsTyped ((k, d) ∷ ds) ts
      → (t : T) × (lookup k ts ≡ some t)
  unfolding lookup
  IsTyped-head k d ds ts h = elim (Option-cases (lookup k ts)) [
    | inr found ↦ found
    | inl e ↦ ground (arith, e, h k (ground arith))
  ]

  pub walk-types :
      (initial : T) (func : ℕ → D → T → D) (ds : Map D) (ts : Map T)
      → IsTyped ds ts
      → (walk initial func ds ts).1 ≡ ts
  unfolding walk
  walk-types initial func [] ts h = refl
  walk-types initial func ((k, d) ∷ ds) ts h =
      let (t, e) = IsTyped-head k d ds ts h in
      rw (index_found initial k ts t e) (walk-types initial func ds ts (IsTyped-tail k d ds ts h))

  pub lookup-walk :
      (initial : T) (func : ℕ → D → T → D) (j : ℕ) (ds : Map D) (ts : Map T)
      → IsTyped ds ts
      → lookup j (walk initial func ds ts).0 ≡ visited func j (lookup j ds) (lookup j ts)
  unfolding walk lookup
  lookup-walk initial func j [] ts h = refl
  lookup-walk initial func j ((k, d) ∷ ds) ts h =
      let (t, e) = IsTyped-head k d ds ts h in
      rw (index_found initial k ts t e)
        (ground (arith, e, ==-eq j k, lookup-walk initial func j ds ts (IsTyped-tail k d ds ts h)))

  pub types-on_device {ι} :
      {S : Type ι} (initial : T) (id : ℕ) (func : ℕ → D → T → S → D × S) (r : Registry D T) (s : S)
      → IsTyped r.devices r.types
      → (on_device initial id func r s).0.types ≡ r.types
  unfolding on_device
  types-on_device initial id func r s h = elim (Option-cases (lookup id r.devices)) [
    | inl e ↦ rw (e, on_device)
    | inr (d, e) ↦ elim (Option-cases (lookup id r.types)) [
      | inl e' ↦ ground (arith, e, e', h id)
      | inr (t, e') ↦ rw (e, on_device) (rw (index_found initial id r.types t e'))
    ]
  ]

  pub devices-on_device {ι} :
      {S : Type ι} (initial : T) (id j : ℕ) (func : ℕ → D → T → S → D × S) (r : Registry D T)
      (s : S)
      → IsTyped r.devices r.types
      → lookup j (on_device initial id func r s).0.devices ≡ (
          if id == j
          then visited (λ i d t. (func i d t s).0) j (lookup j r.devices) (lookup j r.types)
          else lookup j r.devices)
  unfolding on_device
  devices-on_device initial id j func r s h = elim (Option-cases (lookup id r.devices)) [
    | inl e ↦ rw (e, on_device) (ground (arith, e, ==-eq id j))
    | inr (d, e) ↦ elim (Option-cases (lookup id r.types)) [
      | inl e' ↦ ground (arith, e, e', h id)
      | inr (t, e') ↦
          rw (e, on_device)
            (rw (index_found initial id r.types t e')
              (ground (arith, e, e', ==-eq id j, lookup-insert id j (func id d t s).0 r.devices)))
    ]
  ]

  pub heartbeats-on_device {ι} :
      {S : Type ι} (initial : T) (id : ℕ) (func : ℕ → D → T → S → D × S) (r : Registry D T) (s : S)
      → (on_device initial id func r s).0.heartbeats ≡ r.heartbeats
  unfolding on_device
  heartbeats-on_device initial id func r s = elim (Option-cases (lookup id r.devices)) [
    | inl e ↦ rw (e, on_device)
    | inr (d, e) ↦ rw (e, on_device)
  ]
