-- ===== src/Failover.antt =====
-- src/main/cpp/failover/RobotFailover.cpp and src/main/include/failover/utils/FailoverSubsystem.hpp:
-- the calls that the failover control makes to its four subsystems and to the message manager, in
-- the order in which it makes them.
pub mod Messages
pub mod Standstill
pub mod Drivetrain
pub mod DriveHelper
pub mod Ramp
pub mod Delivery
pub mod Publishing
pub mod Resumption
pub mod Inactive
pub mod Shape
pub mod Control
pub mod Contents
pub mod Swerve
pub mod Intake
pub mod Arm
use ckriopassthru.Base.{List, [], ◌∷◌}

pub data Subsystem : Type 0 where
  swerve_drivetrain arm intake led : Subsystem

-- The virtual functions of a subsystem.
pub data Method : Type 0 where
  init periodic run uninit : Method

pub data Call : Type 0 where
  publish_messages : Call
  subsystem : Subsystem → Method → Call

abbrev pub subsystem_init : Subsystem → Call
subsystem_init s = subsystem s init

abbrev pub subsystem_periodic : Subsystem → Call
subsystem_periodic s = subsystem s periodic

abbrev pub subsystem_run : Subsystem → Call
subsystem_run s = subsystem s run

abbrev pub subsystem_reset : Subsystem → Call
subsystem_reset s = subsystem s uninit

unfoldable pub robot_failover_init : List Call
robot_failover_init =
    subsystem_init swerve_drivetrain
    ∷ subsystem_init arm
    ∷ subsystem_init intake
    ∷ subsystem_init led
    ∷ []

unfoldable pub robot_failover_periodic : List Call
robot_failover_periodic =
    publish_messages
    ∷ subsystem_periodic swerve_drivetrain
    ∷ subsystem_periodic arm
    ∷ subsystem_periodic intake
    ∷ subsystem_periodic led
    ∷ []

unfoldable pub autonomous_failover_init : List Call
autonomous_failover_init = []

unfoldable pub autonomous_failover_periodic : List Call
autonomous_failover_periodic = []

unfoldable pub teleop_failover_init : List Call
teleop_failover_init = []

unfoldable pub teleop_failover_periodic : List Call
teleop_failover_periodic =
    subsystem_run swerve_drivetrain
    ∷ subsystem_run arm
    ∷ subsystem_run intake
    ∷ subsystem_run led
    ∷ []

unfoldable pub disabled_failover_init : List Call
disabled_failover_init = []

unfoldable pub disabled_failover_periodic : List Call
disabled_failover_periodic = []

unfoldable pub reset : List Call
reset =
    subsystem_reset swerve_drivetrain
    ∷ subsystem_reset arm
    ∷ subsystem_reset intake
    ∷ subsystem_reset led
    ∷ []
