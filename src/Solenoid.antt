-- ===== src/Solenoid.antt =====
-- src/main/cpp/utils/drivers/CKSolenoid.cpp and src/main/cpp/SolenoidManager.cpp: a solenoid, and the
-- solenoids by id with a heartbeat. The objects of WPILib that drive a channel are a parameter. The
-- value that the solenoid is told is kept as the message's number. Error reports are left out.
pub mod Address
pub mod Manager
pub mod Values
use ckriopassthru.Base.{
  ℕ, ◌+◌, ◌/◌, ◌%◌, ◌^◌, Bool, true, false, Option, none, some, ◌&&◌, ◌||◌, not, ltb, leb, ◌==◌,
  if◌then◌else◌, is_some,
}
use ckriopassthru.Base.Map.{lookup, has, insert}
use ckriopassthru.Heartbeat.{max_heartbeat_ticks}
use ckriopassthru.Registry.{Registry, delete}

pub data ModuleType : Type 0 where
  ctrepcm revph : ModuleType
  other_module : ℕ → ModuleType

pub data SolenoidType : Type 0 where
  single double : SolenoidType
  other_solenoid : ℕ → SolenoidType

pub data SolenoidValue : Type 0 where
  off on forward reverse : SolenoidValue
  other_value : ℕ → SolenoidValue

-- `frc::Solenoid` and `frc::DoubleSolenoid`: made from a module, its type and one or two channels.
pub record Pneumatics : Type 1 where
  pub Single : Type 0
  pub Double : Type 0
  pub new_single : ℕ → ModuleType → ℕ → Single
  pub new_double : ℕ → ModuleType → ℕ → ℕ → Double
  pub set_single : Bool → Single → Single
  pub set_double : SolenoidValue → Double → Double

abbrev is_revph : ModuleType → Bool
is_revph revph = true
is_revph _ = false

-- `(mSolenoidId >> 16) & 0xFFFF`, and 1 for 0 on a REV module; `mSolenoidId & 0xFFFF`.
unfoldable pub get_module_id : ModuleType → ℕ → ℕ
get_module_id module_type id =
    let module_id = id / 2 ^ 16 % 2 ^ 16 in
    if is_revph module_type && module_id == 0 then 1 else module_id

unfoldable pub get_solenoid_id : ℕ → ℕ
get_solenoid_id id = id % 2 ^ 16

-- The tests of the constructor's ids.
unfoldable pub is_refused : ModuleType → ℕ → ℕ → Bool
is_refused ctrepcm module_id channel = leb 64 module_id || leb 8 channel
is_refused revph module_id channel = leb 63 module_id || leb 16 channel
is_refused (other_module n) module_id channel = false

abbrev is_on : SolenoidValue → Bool
is_on on = true
is_on _ = false

-- The values that a single and a double solenoid take.
abbrev pub suits_single : SolenoidValue → Bool
suits_single on = true
suits_single off = true
suits_single _ = false

abbrev pub suits_double : SolenoidValue → Bool
suits_double off = true
suits_double forward = true
suits_double reverse = true
suits_double _ = false

module _ (pneumatics : Pneumatics) where
  open pneumatics use {Single, Double, new_single, new_double, set_single, set_double}

  pub record Solenoid : Type 0 where
    pub value : SolenoidValue
    pub module_type : ModuleType
    pub solenoid_id : ℕ
    pub solenoid_type : SolenoidType
    pub single_solenoid : Option Single
    pub double_solenoid : Option Double

  -- Whether the constructor makes an object of WPILib.
  unfoldable pub needs_channel : ModuleType → ℕ → SolenoidType → Bool
  unfolding get_module_id get_solenoid_id is_refused
  needs_channel module_type id solenoid_type =
      let refused = is_refused module_type (get_module_id module_type id) (get_solenoid_id id) in
      elim solenoid_type [ single ↦ not refused | double ↦ not refused | _ ↦ false ]

  -- The constructor: no channel is made for ids that are refused, nor for another type. `throws` is
  -- whether WPILib's constructor throws, as for a channel that the module does not have or that is
  -- taken; there is no solenoid then.
  unfoldable pub new_solenoid : Bool → ModuleType → ℕ → SolenoidType → Option Solenoid
  unfolding needs_channel get_module_id get_solenoid_id
  new_solenoid throws module_type id solenoid_type =
      let m = get_module_id module_type id in
      let c = get_solenoid_id id in
      let needed = needs_channel module_type id solenoid_type in
      if throws && needed
      then none
      else some (record {
        value = off;
        module_type = module_type;
        solenoid_id = id;
        solenoid_type = solenoid_type;
        single_solenoid = elim solenoid_type [
          | single ↦ if needed then some (new_single m module_type c) else none
          | _ ↦ none
        ];
        double_solenoid = elim solenoid_type [
          | double ↦ if needed then some (new_double m module_type c (c + 1)) else none
          | _ ↦ none
        ];
      })

  unfoldable pub set_single_value : SolenoidValue → Option Single → Option Single
  set_single_value v none = none
  set_single_value v (some s) = some (if suits_single v then set_single (is_on v) s else s)

  unfoldable pub set_double_value : SolenoidValue → Option Double → Option Double
  set_double_value v none = none
  set_double_value v (some d) = some (if suits_double v then set_double v d else d)

  unfoldable pub set : SolenoidValue → Solenoid → Solenoid
  unfolding set_single_value set_double_value
  set v s =
      if not (is_some s.single_solenoid) && not (is_some s.double_solenoid)
      then s
      else elim s.solenoid_type [
        | single ↦ record s { value = v; single_solenoid = set_single_value v s.single_solenoid }
        | double ↦ record s { value = v; double_solenoid = set_double_value v s.double_solenoid }
        | other_solenoid n ↦ record s { value = v }
      ]

  -- `none` is the exception of the constructor, which leaves the maps as they were.
  unfoldable pub register_solenoid :
      Bool
      → ModuleType
      → ℕ
      → SolenoidType
      → Registry Solenoid SolenoidType
      → Option (Registry Solenoid SolenoidType)
  unfolding new_solenoid
  register_solenoid throws module_type id solenoid_type r =
      let hs = insert id max_heartbeat_ticks r.heartbeats in
      if has id r.devices
      then some (record r { heartbeats = hs })
      else elim (new_solenoid throws module_type id solenoid_type) [
        | none ↦ none
        | some s ↦ some (record {
          devices = insert id s r.devices;
          types = insert id solenoid_type r.types;
          heartbeats = hs;
        })
      ]

  unfoldable pub delete_solenoid :
      ℕ → Registry Solenoid SolenoidType → Registry Solenoid SolenoidType
  unfolding delete
  delete_solenoid id r = delete id r

  unfoldable pub get_solenoid : ℕ → Registry Solenoid SolenoidType → Option Solenoid
  get_solenoid id r = lookup id r.devices
