-- ===== src/Robot.antt =====
-- src/main/cpp/Robot.cpp, the callbacks: external control from the network, and failover control while
-- no message comes. A callback returns the new state and what it did.
pub mod Takeover
pub mod Tasks
use ckriopassthru.Base.{Bool, true, false, List, [], ◌∷◌, ◌++◌, ◌&&◌, not, map, if◌then◌else◌}
use ckriopassthru.External.{
  ExternalControl, external_control_initial, external_control_msg_received,
  is_external_control_connected, process_heartbeat,
}
use ckriopassthru.Mode.{
  ControlMode, disabled, teleop, autonomous, test, ModeHelper, mode_initial, set_control_mode,
  set_ds_attached,
}
use ckriopassthru.Failover.{
  Call, robot_failover_init, robot_failover_periodic, autonomous_failover_init,
  autonomous_failover_periodic, teleop_failover_init, teleop_failover_periodic,
  disabled_failover_init, disabled_failover_periodic, reset,
}

-- The robot's members, and the two singletons that its callbacks use.
pub record Robot : Type 0 where
  pub failover_active : Bool
  pub initial_startup_ros_completed : Bool
  pub mode : ModeHelper
  pub external : ExternalControl

abbrev pub robot_initial : Robot
robot_initial = record {
  failover_active = false;
  initial_startup_ros_completed = false;
  mode = mode_initial;
  external = external_control_initial;
}

-- What a callback does: a line to the driver station, or a call of the failover control.
pub data Effect : Type 0 where
  ros_connection_resumed failover_control_activated : Effect
  failover : Call → Effect

abbrev pub is_external_control : Robot → Bool
is_external_control r = is_external_control_connected r.external

abbrev calls : List Call → List Effect
calls = map failover

-- The two branches of `RobotPeriodic`, after the driver station was read.
unfoldable pub external_periodic : Robot → Robot × List Effect
external_periodic r =
    if r.failover_active
    then (
      record r { failover_active = false },
      (if r.mode.ds_attached then ros_connection_resumed ∷ [] else []) ++ calls reset,
    )
    else if not r.initial_startup_ros_completed && r.mode.ds_attached && not r.failover_active
    then (record r { initial_startup_ros_completed = true }, ros_connection_resumed ∷ [])
    else (r, [])

unfoldable pub failover_periodic : Robot → Robot × List Effect
failover_periodic r =
    if not r.failover_active
    then (
      record r { failover_active = true },
      (if r.mode.ds_attached then failover_control_activated ∷ [] else [])
          ++ (calls robot_failover_init ++ calls robot_failover_periodic),
    )
    else (r, calls robot_failover_periodic)

-- `attached` is what `IsDSAttached` returns.
unfoldable pub robot_periodic : Bool → Robot → Robot × List Effect
unfolding external_periodic failover_periodic
robot_periodic attached r =
    let r' = record r { mode = set_ds_attached attached r.mode } in
    if is_external_control r' then external_periodic r' else failover_periodic r'

unfoldable pub unless_external : List Call → Robot → List Effect
unless_external cs r = if not (is_external_control r) then calls cs else []

unfoldable pub enter : ControlMode → List Call → Robot → Robot × List Effect
unfolding unless_external
enter m cs r = (record r { mode = set_control_mode m r.mode }, unless_external cs r)

unfoldable pub autonomous_init : Robot → Robot × List Effect
unfolding enter
autonomous_init r = enter autonomous autonomous_failover_init r

unfoldable pub autonomous_periodic : Robot → Robot × List Effect
unfolding unless_external
autonomous_periodic r = (r, unless_external autonomous_failover_periodic r)

unfoldable pub teleop_init : Robot → Robot × List Effect
unfolding enter
teleop_init r = enter teleop teleop_failover_init r

unfoldable pub teleop_periodic : Robot → Robot × List Effect
unfolding unless_external
teleop_periodic r = (r, unless_external teleop_failover_periodic r)

unfoldable pub disabled_init : Robot → Robot × List Effect
unfolding enter
disabled_init r = enter disabled disabled_failover_init r

unfoldable pub disabled_periodic : Robot → Robot × List Effect
unfolding unless_external
disabled_periodic r = (r, unless_external disabled_failover_periodic r)

unfoldable pub test_init : Robot → Robot × List Effect
test_init r = (record r { mode = set_control_mode test r.mode }, [])

unfoldable pub test_periodic : Robot → Robot × List Effect
test_periodic r = (r, [])

-- What happens to the robot: a callback, a message or a heartbeat.
pub data Event : Type 0 where
  robot_loop : Bool → Event
  autonomous_begins autonomous_loop teleop_begins teleop_loop : Event
  disabled_begins disabled_loop test_begins test_loop : Event
  message heartbeat : Event

unfoldable pub step : Robot → Event → Robot × List Effect
step r (robot_loop attached) = robot_periodic attached r
step r autonomous_begins = autonomous_init r
step r autonomous_loop = autonomous_periodic r
step r teleop_begins = teleop_init r
step r teleop_loop = teleop_periodic r
step r disabled_begins = disabled_init r
step r disabled_loop = disabled_periodic r
step r test_begins = test_init r
step r test_loop = test_periodic r
step r message = (record r { external = external_control_msg_received r.external }, [])
step r heartbeat = (record r { external = process_heartbeat r.external }, [])

unfoldable pub run : Robot → List Event → Robot × List Effect
unfolding step
run r [] = (r, [])
run r (e ∷ es) = let (r', done) = step r e in let (r'', rest) = run r' es in (r'', done ++ rest)
