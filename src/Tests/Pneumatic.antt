-- ===== src/Tests/Pneumatic.antt =====
-- Runs of the solenoids and of the compressor.
use mathlib.Core.Quot.{Quot}
use mathlib.Core.Equiv.{Iso}
use ckriopassthru.Base.{
  ℕ, ◌≡◌, refl, Bool, true, false, Option, none, some, List, [], ◌∷◌, arith, is_some, ltb, not,
}
use ckriopassthru.Base.Map.{lookup}
use ckriopassthru.External.{external_control_initial}
use ckriopassthru.Mode.{teleop}
use ckriopassthru.Network.{Network, Bytes, get_message}
use ckriopassthru.Network.Inbox
use ckriopassthru.Registry.{Registry}
use ckriopassthru.Registry.Lifetime.{Call, heartbeat, deletes, registers, heartbeats, run}
use ckriopassthru.Solenoid.{
  Pneumatics, Solenoid, ctrepcm, revph, SolenoidType, single, on, get_module_id, get_solenoid_id,
}
use ckriopassthru.Solenoid.Address.{Key, Alias, Address, addresses}
use ckriopassthru.Solenoid.Manager.{Registration, register, solenoid_manager, solenoid_exists-run}
use ckriopassthru.Solenoid.Values.{SolenoidsControl, Compressors, SolenoidTask}
use ckriopassthru.Solenoid.Values
use ckriopassthru.Solenoid.Values.Compressor.{IsSettled, must_stop, run-IsSettled}

-- A channel is its module and number, with whether it is on.
pub record Channel : Type 0 where
  module_id : ℕ
  number : ℕ
  is_on : Bool

abbrev valves : Pneumatics
valves = record {
  Single = Channel;
  Double = Channel;
  new_single = λ m t c. record { module_id = m; number = c; is_on = false };
  new_double = λ m t c d. record { module_id = m; number = d; is_on = false };
  set_single = λ b c. record c { is_on = b };
  set_double = λ v c. c;
}

abbrev no_solenoids : Registry (Solenoid valves) SolenoidType
no_solenoids = record { devices = []; types = []; heartbeats = [] }

abbrev third : Registration
third = record { module_type = ctrepcm; id = 3; solenoid_type = single; throws = false }

abbrev two_beats : List (Call (Solenoid valves) SolenoidType Registration)
two_beats =
    heartbeat ∷ deletes 5 ∷ registers (record third { id = 5; throws = true }) ∷ heartbeat ∷ []

solenoid_exists-run_example :
    is_some (
      lookup 3
        (run (solenoid_manager valves) (register valves third no_solenoids) two_beats).devices)
    ≡ ltb (heartbeats two_beats) 250
solenoid_exists-run_example =
    solenoid_exists-run valves third no_solenoids two_beats tt refl
      (λ e. ground (arith, e), (λ e. ground (arith, e), tt))

-- A compressor is whether it runs.
abbrev switches : Compressors
switches = record {
  Compressor = Bool;
  new_compressor = false;
  disable = λ b. false;
  enable_digital = λ b. true;
}

abbrev open_third : SolenoidsControl
open_third = record {
  compressor_is_enabled_for_auto = false;
  solenoids =
      record { module_type = ctrepcm; id = 3; solenoid_type = single; output_value = on } ∷ [];
}

abbrev empty_control : SolenoidsControl
empty_control = record { compressor_is_enabled_for_auto = false; solenoids = [] }

abbrev start : SolenoidTask valves switches
start = record {
  prev_solenoid_msg = empty_control;
  compressor = none;
  compressor_state = false;
  manager = no_solenoids;
}

abbrev network : Network
network = record {
  recv_msg_map = ("solenoidcontrol", 1 ∷ []) ∷ [];
  external = external_control_initial;
}

-- The constructors throw for the ids above 7.
abbrev throws : ℕ → Bool
throws id = ltb 7 id

abbrev parse : Bytes → Option SolenoidsControl
parse bytes = some open_third

abbrev never_same : SolenoidsControl → SolenoidsControl → Bool
never_same a b = false

run-IsSettled_example :
    IsSettled valves switches
      (not (must_stop valves switches teleop open_third))
      (Values.run valves switches throws parse never_same true teleop empty_control
        (network, start)).1
unfolding get_message Inbox.lookup
run-IsSettled_example =
    run-IsSettled valves switches throws parse never_same true teleop empty_control network start
      (1 ∷ []) open_third tt refl refl (omega arith)

addresses_example :
    (same : Iso (Quot (Alias revph)) (Address revph)) × ((a : Key)
      → (same.fun (Quot.mk a)).0 ≡ (get_module_id revph a.0, get_solenoid_id a.0))
addresses_example = addresses revph
