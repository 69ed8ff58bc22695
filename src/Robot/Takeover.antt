-- ===== src/Robot/Takeover.antt =====
-- The change between external and failover control in src/main/cpp/Robot.cpp.
use ckriopassthru.Base.{
  ℕ, zero, suc, ◌-◌, ◌≡◌, refl, Bool, true, false, Option, none, some, List, [], ◌∷◌, ◌++◌, not,
  arith, if◌then◌else◌, ◌∙◌, inl, inr, Option-cases, leb,
}
use ckriopassthru.External.{is_external_control_connected, process_heartbeat}
use ckriopassthru.Failover.{
  Subsystem, Method, subsystem, publish_messages, init, periodic, run, uninit, robot_failover_init,
  robot_failover_periodic, reset, teleop_failover_periodic, swerve_drivetrain, arm, intake, led,
  autonomous_failover_init, autonomous_failover_periodic, teleop_failover_init,
  disabled_failover_init, disabled_failover_periodic,
}
use ckriopassthru.Robot.{
  Robot, Effect, failover, ros_connection_resumed, failover_control_activated, is_external_control,
  robot_periodic, Event, robot_loop, heartbeat, teleop_loop, step, run as run_robot, teleop_init,
  teleop_periodic, autonomous_init, autonomous_periodic, disabled_init, disabled_periodic,
  test_init, test_periodic,
}

-- After every pass of the main loop, failover control is active exactly if there is no external
-- control.
pub failover_active-robot_periodic :
    (attached : Bool) (r : Robot)
    → (robot_periodic attached r).0.failover_active ≡ not (is_external_control r)
unfolding robot_periodic
failover_active-robot_periodic attached r = ground arith

abbrev same : Subsystem → Subsystem → Bool
same swerve_drivetrain swerve_drivetrain = true
same arm arm = true
same intake intake = true
same led led = true
same _ _ = false

-- The protocol of a subsystem, seen in what the robot did: from a state (started or not), `init`
-- only when it is not started, `uninit` and `periodic` only when it is, `run` at any time. The
-- result is the state at the end, or `none` if the protocol is broken.
abbrev advance : Method → Bool → Option Bool
advance init started = if started then none else some true
advance uninit started = if started then some false else none
advance periodic started = if started then some true else none
advance run started = some started

abbrev respond : Subsystem → Bool → Effect → Option Bool
respond s started ros_connection_resumed = some started
respond s started failover_control_activated = some started
respond s started (failover publish_messages) = some started
respond s started (failover (subsystem t method)) =
    if same s t then advance method started else some started

unfoldable pub protocol : Subsystem → Bool → List Effect → Option Bool
protocol s started [] = some started
protocol s started (e ∷ es) = elim (respond s started e) [
  | none ↦ none
  | some started' ↦ protocol s started' es
]

protocol-append :
    (s : Subsystem) (a b : Bool) (xs ys : List Effect)
    → protocol s a xs ≡ some b
    → protocol s a (xs ++ ys) ≡ protocol s b ys
unfolding protocol
protocol-append s a b [] ys h = ground (arith, h)
protocol-append s a b (x ∷ xs) ys h = elim (Option-cases (respond s a x)) [
  | inl e ↦ ground (arith, e, h)
  | inr (c, e) ↦ ground (arith, e, h, protocol-append s c b xs ys)
]

protocol-robot_periodic :
    (s : Subsystem) (attached : Bool) (r : Robot)
    → protocol s r.failover_active (robot_periodic attached r).1
      ≡ some (robot_periodic attached r).0.failover_active
unfolding protocol robot_periodic robot_failover_init robot_failover_periodic reset
protocol-robot_periodic swerve_drivetrain attached r = ground arith
protocol-robot_periodic _ attached r = ground arith

protocol-step :
    (s : Subsystem) (r : Robot) (e : Event)
    → protocol s r.failover_active (step r e).1 ≡ some (step r e).0.failover_active
unfolding step protocol teleop_init teleop_periodic autonomous_init autonomous_periodic
    disabled_init disabled_periodic test_init test_periodic autonomous_failover_init
    autonomous_failover_periodic teleop_failover_init teleop_failover_periodic
    disabled_failover_init disabled_failover_periodic
protocol-step s r (robot_loop attached) = protocol-robot_periodic s attached r
protocol-step swerve_drivetrain r teleop_loop = ground arith
protocol-step _ r teleop_loop = ground arith
protocol-step s r _ = ground arith

-- Over any sequence of callbacks, messages and heartbeats, every failover subsystem sees init and
-- uninit in turn, beginning with init, and periodic only between the two; at the end it is started
-- exactly if failover control is active.
pub protocol-run :
    (s : Subsystem) (r : Robot) (es : List Event)
    → protocol s r.failover_active (run_robot r es).1 ≡ some (run_robot r es).0.failover_active
unfolding run_robot protocol
protocol-run s r [] = refl
protocol-run s r (e ∷ es) =
    protocol-append s r.failover_active (step r e).0.failover_active (step r e).1
      (run_robot (step r e).0 es).1 (protocol-step s r e)
    ∙ protocol-run s (step r e).0 es

abbrev pub quiet : ℕ → List Event
quiet zero = []
quiet (suc n) = heartbeat ∷ quiet n

time_left-quiet :
    (n : ℕ) (r : Robot)
    → (run_robot r (quiet n)).0.external.last_connection_time ≡ r.external.last_connection_time - n
unfolding run_robot step process_heartbeat
time_left-quiet zero r = omega arith
time_left-quiet (suc n) r = ground (arith, time_left-quiet n (step r heartbeat).0)

-- A pass of the main loop after n heartbeats without a message leaves failover control active if
-- the external control counter had at most n ticks left, and inactive otherwise.
pub takeover :
    (n : ℕ) (r : Robot) (attached : Bool)
    → (robot_periodic attached (run_robot r (quiet n)).0).0.failover_active
      ≡ leb r.external.last_connection_time n
unfolding is_external_control_connected
takeover n r attached =
    failover_active-robot_periodic attached (run_robot r (quiet n)).0
    ∙ ground (arith, time_left-quiet n r)
