-- ===== src/Solenoid/Address.antt =====
-- The keys that src/main/cpp/SolenoidManager.cpp keeps solenoids by, and the modules and channels that the
-- constructor of src/main/cpp/utils/drivers/CKSolenoid.cpp reads from them.
use mathlib.Core.Quot
use mathlib.Core.Quot.{Quot, Quot-set}
use mathlib.Core.Equiv.{Iso}
use mathlib.Core.HLevel.{Σ_prop_path}
use native.Mathlib.Bridge.{le_prop}
use native.Mathlib.Nat.{ℕ_set}
use ckriopassthru.Base.{
  ℕ, ◌≡◌, refl, sym, ap, false, arith, ◌≤◌, ◌<◌, ◌*◌, ◌^◌, ◌+◌, ◌%◌, ◌/◌, ◌==◌, inl, inr,
  Bool-cases,
}
use ckriopassthru.Solenoid.{
  ModuleType, ctrepcm, revph, other_module, get_module_id, get_solenoid_id,
}

-- A `uint32_t`.
abbrev pub Key : Type 0
Key = (id : ℕ) × (id < 2 ^ 32)

-- On a REV module, a key of module 0 and the key of module 1 with the same channel.
abbrev pub Alias : ModuleType → Key → Key → Type 0
Alias revph a b = (a.0 < 2 ^ 16) × (b.0 ≡ a.0 + 2 ^ 16)
Alias _ a b = ⊥

abbrev pub first_module : ModuleType → ℕ
first_module revph = 1
first_module _ = 0

-- A module and a channel in 16 bits each, where the modules of a REV type start at 1.
abbrev pub IsAddress : ModuleType → ℕ × ℕ → Type 0
IsAddress t p = (first_module t ≤ p.0) × (p.0 < 2 ^ 16) × (p.1 < 2 ^ 16)

abbrev pub Address : ModuleType → Type 0
Address t = (p : ℕ × ℕ) × IsAddress t p

IsAddress-prop : (t : ModuleType) (p : ℕ × ℕ) → IsProp (IsAddress t p)
IsAddress-prop t p = hlevel le_prop

Address-set : (t : ModuleType) → IsSet (Address t)
Address-set t = hlevel (ℕ_set, le_prop)

Address-ext : (t : ModuleType) (a b : Address t) → a.0.0 ≡ b.0.0 → a.0.1 ≡ b.0.1 → a ≡ b
Address-ext t a b m c = Σ_prop_path (IsAddress-prop t) (λ i. (m i, c i))

Key-ext : (a b : Key) → a.0 ≡ b.0 → a ≡ b
Key-ext a b h = Σ_prop_path (λ n. le_prop) h

pub get_module_id-IsAddress :
    (t : ModuleType) (id : ℕ) → IsAddress t (get_module_id t id, get_solenoid_id id)
unfolding get_module_id get_solenoid_id
get_module_id-IsAddress ctrepcm id = (omega arith, omega arith, omega arith)
get_module_id-IsAddress (other_module n) id = (omega arith, omega arith, omega arith)
get_module_id-IsAddress revph id = elim (Bool-cases (id / 2 ^ 16 % 2 ^ 16 == 0)) [
  | inl e ↦ rw e (omega arith, omega arith, omega arith)
  | inr e ↦ rw e (ground (arith, e), omega arith, omega arith)
]

unfoldable pub address : (t : ModuleType) → Key → Address t
address t a = ((get_module_id t a.0, get_solenoid_id a.0), get_module_id-IsAddress t a.0)

address-Alias : (t : ModuleType) (a b : Key) → Alias t a b → address t a ≡ address t b
unfolding address get_module_id get_solenoid_id
address-Alias ctrepcm a b h = absurd h
address-Alias (other_module n) a b h = absurd h
address-Alias revph a b h =
    let zero_module : a.0 / 2 ^ 16 % 2 ^ 16 ≡ 0 = omega (arith, h.0) in
    let one_module : b.0 / 2 ^ 16 % 2 ^ 16 ≡ 1 = omega (arith, h.0, h.1) in
    let same_channel : a.0 % 2 ^ 16 ≡ b.0 % 2 ^ 16 = omega (arith, h.1) in
    Address-ext revph (address revph a) (address revph b) (rw (zero_module, one_module) refl)
      same_channel

unfoldable key : (t : ModuleType) → Address t → Key
key t a = (a.0.0 * 2 ^ 16 + a.0.1, omega (arith, a.1.1, a.1.2))

pub module_of : (m c : ℕ) → m < 2 ^ 16 → c < 2 ^ 16 → (m * 2 ^ 16 + c) / 2 ^ 16 % 2 ^ 16 ≡ m
module_of m c a b = omega arith

pub channel_of : (m c : ℕ) → c < 2 ^ 16 → (m * 2 ^ 16 + c) % 2 ^ 16 ≡ c
channel_of m c b = omega arith

get_module_id-key : (t : ModuleType) (a : Address t) → get_module_id t (key t a).0 ≡ a.0.0
unfolding key get_module_id
get_module_id-key ctrepcm a = module_of a.0.0 a.0.1 a.1.1 a.1.2
get_module_id-key (other_module n) a = module_of a.0.0 a.0.1 a.1.1 a.1.2
get_module_id-key revph a =
    let rest : (a.0.0 == 0) ≡ false = ground (arith, a.1.0) in
    rw (module_of a.0.0 a.0.1 a.1.1 a.1.2, rest) refl

address-key : (t : ModuleType) (a : Address t) → address t (key t a) ≡ a
unfolding address key get_solenoid_id
address-key t a =
    Address-ext t (address t (key t a)) a (get_module_id-key t a) (channel_of a.0.0 a.0.1 a.1.2)

mk-key :
    (t : ModuleType) (a : Key)
    → ◌≡◌ {A = Quot (Alias t)} (Quot.mk (key t (address t a))) (Quot.mk a)
unfolding address key get_module_id get_solenoid_id
mk-key ctrepcm a = ap Quot.mk (Key-ext (key ctrepcm (address ctrepcm a)) a (omega (arith, a.1)))
mk-key (other_module n) a =
    ap Quot.mk (Key-ext (key (other_module n) (address (other_module n) a)) a (omega (arith, a.1)))
mk-key revph a = elim (Bool-cases (a.0 / 2 ^ 16 % 2 ^ 16 == 0)) [
  | inl e ↦ sym (Quot.sound (ground (arith, e, a.1), rw e (ground (arith, e, a.1))))
  | inr e ↦ ap Quot.mk (Key-ext (key revph (address revph a)) a (rw e (omega (arith, a.1))))
]

-- For every module type, the keys of 32 bits, where on a REV module a key of module 0 and the one
-- of module 1 with the same channel are taken for one, are isomorphic to the pairs of a module and
-- a channel of 16 bits each, where modules of a REV type start at 1, and the isomorphism is the
-- module and channel that the code reads from a key.
pub addresses :
    (t : ModuleType)
    → (same : Iso (Quot (Alias t)) (Address t)) × ((a : Key)
        → (same.fun (Quot.mk a)).0 ≡ (get_module_id t a.0, get_solenoid_id a.0))
unfolding address
addresses t = (
  record {
    fun = Quot.lift (Address-set t) (address t) (address-Alias t);
    inv = λ p. Quot.mk (key t p);
    rinv = address-key t;
    linv = Quot.ind (λ q. Quot-set _ _) (mk-key t);
  },
  λ a. refl,
)
