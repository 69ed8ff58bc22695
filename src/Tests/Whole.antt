-- ===== src/Tests/Whole.antt =====
-- Runs of the main thread and of the tasks of the motors together.
use ckriopassthru.Base.{
  ◌⊎◌, is_some, ℕ, zero, suc, ◌≡◌, refl, true, some, List, [], ◌∷◌, arith, Every, subst,
}
use ckriopassthru.Talon.{talon_fx}
use ckriopassthru.Phoenix.{rio_canivore}
use ckriopassthru.External.{is_external_control_connected}
use ckriopassthru.Failover.{teleop_failover_init, robot_failover_init}
use ckriopassthru.Network.{message, get_message}
use ckriopassthru.Network.Inbox
use ckriopassthru.Motor.Values.{MotorControl, apply_motors}
use ckriopassthru.Mode.{set_control_mode, set_ds_attached}
use ckriopassthru.Robot.{robot_periodic, teleop_init, robot_loop, teleop_begins}
use ckriopassthru.System.{
  System, Event, main_thread, next_call, receive_messages, process_heartbeat, apply_motor_configs,
  apply_motor_values, start_up, run, step, begin_callback, drive_motors,
}
use ckriopassthru.System.Safety.{BringsAllowed}
use ckriopassthru.System.Provenance.{Completes, Stops, AreGood, run-AllAt_motors}
use ckriopassthru.System.Takeover.{after_pass, pass, held, takeover-values}
use ckriopassthru.Tests.Numbers.{Sign, nought, plus}
use ckriopassthru.Tests.Failing.{inputs}
use ckriopassthru.Tests.World.{
  tell, encode, decode-encode, world, reads_back, Stands, SparesArm, respected,
}

-- A message for motor 2 arrives.
abbrev for_second : MotorControl Sign
for_second = record {
  id = 2;
  control_mode = 0;
  output_value = plus;
  arbitrary_feedforward = nought;
  controller_type = talon_fx;
}

abbrev calls : ℕ → List (Event world) → List (Event world)
calls zero es = es
calls (suc n) es = next_call inputs ∷ calls n es

-- The tasks run between the calls of a pass of the main loop.
abbrev driving : List (Event world)
driving =
    main_thread teleop_begins
    ∷ main_thread (robot_loop true)
    ∷ calls 3 (
        apply_motor_configs true
        ∷ calls 5 (
            apply_motor_values true
            ∷ calls 20 (
                receive_messages (message "motorcontrol" (encode (for_second ∷ [])) ∷ [])
                ∷ process_heartbeat
                ∷ main_thread (robot_loop true)
                ∷ calls 9 (apply_motor_values true ∷ []))))

brings : BringsAllowed world SparesArm driving
brings =
    let one : Every SparesArm (for_second ∷ []) = ((λ high. ground (arith, high)), tt) in
    (
      (
        (λ same ms e.
            let p : for_second ∷ [] ≡ ms = ground (arith, e) in subst (Every SparesArm) p one),
        tt,
      ),
      tt,
    )

run-AllAt_motors_example :
    Completes world (AreGood world Stands) (start_up world) driving
    ⊎ Stops world (AreGood world Stands) (start_up world) driving
run-AllAt_motors_example =
    run-AllAt_motors world SparesArm Stands respected reads_back driving brings

-- This run is one that ends.
run-driving : is_some (run world (start_up world) driving) ≡ true
unfolding run get_message Inbox.lookup start_up teleop_init is_external_control_connected
    teleop_failover_init robot_periodic set_ds_attached robot_failover_init
run-driving = refl

abbrev enabled : System world
enabled = begin_callback world teleop_begins (start_up world)

takeover-values_example :
    (run world enabled (pass world inputs true enabled)
      ≡ some (after_pass world inputs true enabled))
    × ((after_pass world inputs true enabled).robot.failover_active ≡ true)
    × ((drive_motors world true (after_pass world inputs true enabled)).motors
        ≡ apply_motors tell (λ m. rio_canivore) (held world inputs true enabled) enabled.motors)
unfolding run start_up begin_callback step teleop_init set_control_mode
    is_external_control_connected teleop_failover_init
takeover-values_example =
    takeover-values world (start_up world) enabled (main_thread teleop_begins ∷ []) inputs true
      (encode (held world inputs true enabled)) refl refl tt (omega arith) refl refl
      (decode-encode (held world inputs true enabled))
