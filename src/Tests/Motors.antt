-- ===== src/Tests/Motors.antt =====
-- Runs of the motor manager and of the tasks that use it.
use ckriopassthru.Base.{
  ℕ, ◌≡◌, refl, false, true, [], ◌∷◌, some, arith, List, ltb, Option, ◌⊎◌, ◌==◌,
}
use ckriopassthru.Base.Map.{lookup, has, insert}
use ckriopassthru.Mode.{teleop}
use ckriopassthru.External.{external_control_initial}
use ckriopassthru.Network.Inbox
use ckriopassthru.Registry.{walk}
use ckriopassthru.Network.{get_message, Network, Bytes}
use ckriopassthru.Phoenix.{rio_canivore}
use ckriopassthru.Talon.{talon_fx}
use ckriopassthru.Motor.{on_motor, for_each_motor, Motors, no_motors, register_motor, motor_exists}
use ckriopassthru.Motor.Invariant.{IsValid, no_motors-IsValid, register_motor-IsValid}
use ckriopassthru.Motor.Trace.{
  Call, heartbeat, deletes, forgets, registers, heartbeats, reaches, run, run-IsValid,
  motor_exists-run,
}
use ckriopassthru.Motor.Values
use ckriopassthru.Motor.Values.{MotorControl}
use ckriopassthru.Motor.Values.Safety.{run_disabled, IsStopped}
use ckriopassthru.Motor.Values.Finite.{IsKept, AllMotors, run-AllMotors}
use ckriopassthru.Motor.Values.Configured.{motor_exists-run_values}
use ckriopassthru.Tests.Bench.{
  bench, Reading, Command, created, commanded, AllFinite, canivore, drive_four, finite, infinite,
  not_a_number, mode_of,
}

abbrev Bench : Type 0
Bench = Motors (List Command) ℕ

abbrev none_yet : Bench
none_yet = no_motors

none_yet-IsValid : IsValid none_yet
none_yet-IsValid = no_motors-IsValid bench

abbrev two_calls : List (Call (List Command) ℕ)
two_calls = heartbeat ∷ reaches 4 (λ id d t. d) ∷ deletes 5 ∷ forgets 4 ∷ []

motor_exists-run_example :
    motor_exists 4
      (run bench (λ m. m) (register_motor bench 4 talon_fx rio_canivore none_yet) two_calls)
    ≡ ltb (heartbeats two_calls) 250
motor_exists-run_example =
    motor_exists-run bench (λ m. m) 4 talon_fx rio_canivore none_yet two_calls none_yet-IsValid
      (omega arith) tt ((λ e. ground (arith, e)), tt)

-- Motor 4 is deleted and keeps its counter.
abbrev one_motor : Bench
one_motor = register_motor bench 4 talon_fx rio_canivore none_yet

abbrev deleting : List (Call (List Command) ℕ)
deleting = deletes 4 ∷ heartbeat ∷ registers 6 talon_fx rio_canivore ∷ []

run-IsValid_example : IsValid (run bench (λ m. m) one_motor deleting)
run-IsValid_example =
    run-IsValid bench (λ m. m) one_motor deleting
      (register_motor-IsValid bench 4 talon_fx rio_canivore none_yet none_yet-IsValid)

-- Motor 4 is configured.
abbrev configured : Bench
configured = record none_yet { configs = record { motor_msgs = (4, 4) ∷ []; prev_motor_msgs = [] } }

configured-IsValid : IsValid configured
configured-IsValid = record { sorted = none_yet-IsValid.sorted; lease = none_yet-IsValid.lease }

abbrev network : Network
network = record {
  recv_msg_map = ("motorcontrol", 1 ∷ []) ∷ [];
  external = external_control_initial;
}

abbrev parse : Bytes → Option (List (MotorControl Reading))
parse bytes = some (drive_four ∷ [])

abbrev driven : List Command
driven = commanded 0 (finite 0) ∷ commanded 1 (finite 7) ∷ created ∷ []

run_disabled_example : ((mode_of driven == 5) ≡ true) ⊎ IsStopped bench canivore driven
unfolding Values.run no_motors get_message Inbox.lookup on_motor register_motor insert lookup
    for_each_motor walk has
run_disabled_example =
    run_disabled bench canivore parse true network configured 4 driven configured-IsValid refl

AllFinite-IsKept : IsKept bench AllFinite
AllFinite-IsKept = record {
  made_fx = λ id name. tt;
  made_srx = λ id. tt;
  driven = λ mode v ff d.
      elim v
        as (λ v.
          bench.is_inf v ≡ false
          → bench.is_nan v ≡ false
          → AllFinite d
          → AllFinite (commanded mode v ∷ d)) [
            | finite n ↦ λ a b h. h
            | infinite ↦ λ a b h. cc
            | not_a_number ↦ λ a b h. cc
          ];
  followed = λ master d p h. h;
  stopped = λ d h. h;
}

none_yet-AllMotors : AllMotors bench AllFinite configured
unfolding no_motors lookup
none_yet-AllMotors k = tt

run-AllMotors_example :
    AllMotors bench AllFinite (Values.run bench canivore parse true teleop (network, configured)).1
run-AllMotors_example =
    run-AllMotors bench canivore AllFinite AllFinite-IsKept parse true teleop network configured
      configured-IsValid none_yet-AllMotors

motor_exists-run_values_example :
    (motor_exists 4 configured ≡ true) ⊎ (has 4 configured.configs.motor_msgs ≡ true)
unfolding Values.run no_motors motor_exists has get_message Inbox.lookup on_motor register_motor
    insert
motor_exists-run_values_example =
    motor_exists-run_values bench canivore parse true teleop network configured 4 configured-IsValid
      refl
