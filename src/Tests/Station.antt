-- ===== src/Tests/Station.antt =====
-- What the robot reports of its driver station.
use ckriopassthru.Base.{◌≡◌, true, some, Option, List, [], ◌∷◌}
use ckriopassthru.Network.{Bytes}
use ckriopassthru.Mode.{disabled, teleop}
use ckriopassthru.Telemetry.{report, handed_over}
use ckriopassthru.Telemetry.Devices.{red, blue, RobotStatus}
use ckriopassthru.DriverStation.{
  returned, exception, unknown, start_up, Event, round, update, entered, run, send_status,
}
use ckriopassthru.DriverStation.Status.{send_status-run}
use ckriopassthru.Tests.Numbers.{Sign, minus, nought, plus, signs}

-- A message is the sign of its time, the alliance and the mode.
abbrev encode : RobotStatus Sign → Option Bytes
encode m = some (
    elim m.match_time [ minus ↦ 0 | nought ↦ 1 | plus ↦ 2 ]
    ∷ elim m.alliance [ red ↦ 0 | _ ↦ 1 ]
    ∷ elim m.robot_state [ disabled ↦ 0 | _ ↦ 1 ]
    ∷ [])

-- A round that reads both, and one that fails at the time by an unknown throw.
abbrev events : List (Event signs (λ v. v))
events =
    round exception unknown
    ∷ update true
    ∷ round (returned blue) (returned plus)
    ∷ entered teleop
    ∷ round (returned red) unknown
    ∷ round unknown (returned minus)
    ∷ []

send_status-run_example :
    send_status signs (λ v. v) encode (run signs (λ v. v) events (start_up signs (λ v. v)))
    ≡ handed_over "robotstatus" (2 ∷ 0 ∷ 1 ∷ [])
unfolding report
send_status-run_example = send_status-run signs (λ v. v) encode events
