-- ===== src/Tests/Control.antt =====
-- Runs of the robot's callbacks and of the external control timeout.
use ckriopassthru.Base.{◌≡◌, true, [], ◌∷◌, some, List, leb}
use ckriopassthru.External.{is_external_control_connected}
use ckriopassthru.External.Watchdog
use ckriopassthru.External.Watchdog.{
  is_external_control_connected-replay, replay, since_message, within_timeout,
}
use ckriopassthru.Failover.{arm}
use ckriopassthru.Robot.{
  robot_initial, Event, robot_loop, message, heartbeat, teleop_begins, teleop_loop, run,
  robot_periodic,
}
use ckriopassthru.Robot.Takeover.{protocol, protocol-run, takeover, quiet}

is_external_control_connected-replay_example :
    is_external_control_connected (replay (Watchdog.tick ∷ Watchdog.message ∷ []))
    ≡ within_timeout (since_message (Watchdog.tick ∷ Watchdog.message ∷ []))
is_external_control_connected-replay_example =
    is_external_control_connected-replay (Watchdog.tick ∷ Watchdog.message ∷ [])

abbrev some_events : List Event
some_events =
    teleop_begins ∷ robot_loop true ∷ teleop_loop ∷ message ∷ robot_loop true ∷ heartbeat ∷ []

protocol-run_example :
    protocol arm robot_initial.failover_active (run robot_initial some_events).1
    ≡ some (run robot_initial some_events).0.failover_active
protocol-run_example = protocol-run arm robot_initial some_events

takeover_example :
    (robot_periodic true (run robot_initial (quiet 2)).0).0.failover_active
    ≡ leb robot_initial.external.last_connection_time 2
takeover_example = takeover 2 robot_initial true
