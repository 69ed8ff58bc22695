-- ===== src/Failover/Control.antt =====
-- src/main/cpp/failover/RobotFailover.cpp, its calls carried out: the four subsystems with the messages
-- that they hold, and the callbacks of src/main/cpp/Robot.cpp that make the calls.
use ckriopassthru.Base.{ℕ, false, List, [], ◌∷◌}
use ckriopassthru.Arithmetic.{Arithmetic}
use ckriopassthru.Network.{Network}
use ckriopassthru.Failover.{
  Call, Method, publish_messages, subsystem, swerve_drivetrain, arm, intake, led, init, periodic,
  run, uninit,
}
use ckriopassthru.Failover.Messages
use ckriopassthru.Failover.Messages.{Generated, Serializer, Messages, Build, ◌>>=◌, return}
use ckriopassthru.Failover.Swerve
use ckriopassthru.Failover.Swerve.{
  Kinematics, Inputs, SwervePointers, SwerveDrivetrain, swerve_drivetrain_failover, idle,
}
use ckriopassthru.Failover.Arm
use ckriopassthru.Failover.Arm.{ArmFailover, arm_failover}
use ckriopassthru.Failover.Intake
use ckriopassthru.Failover.Intake.{IntakeFailover, intake_failover, led_failover}
use ckriopassthru.Robot.{Robot, Event, Effect, failover, step}

-- The pointers of all four subsystems.
pub record Wiring : Type 0 where
  pub swerve : SwervePointers
  pub arm : ArmFailover
  pub intake : IntakeFailover
  pub led : ℕ

-- The drive's members, the messages, and the map that they are placed in.
pub record Control (Value : Type 0) : Type 0 where
  pub swerve : SwerveDrivetrain Value
  pub messages : Messages Value
  pub network : Network

abbrev pub no_messages : {Value : Type 0} → Messages Value
no_messages = record {
  motor_configuration = [];
  motor_control = [];
  solenoid_control = record { compressor_is_enabled_for_auto = false; solenoids = [] };
  imu_config = [];
  led_control = [];
  loop_counter = 0;
}

module _ {Value : Type 0} (arithmetic : Arithmetic Value) (generated : Generated Value) where
  -- The constructor makes the subsystems in this order.
  unfoldable pub robot_failover : Build Value Wiring
  unfolding swerve_drivetrain_failover arm_failover intake_failover led_failover
  robot_failover = do
    swerve_object ← swerve_drivetrain_failover arithmetic generated
    arm_object ← arm_failover arithmetic generated
    intake_object ← intake_failover arithmetic generated
    led_object ← led_failover arithmetic generated
    return (record {
      swerve = swerve_object;
      arm = arm_object;
      intake = intake_object;
      led = led_object;
    })

  -- What the constructor makes.
  unfoldable pub wiring : Wiring
  unfolding robot_failover
  wiring = (robot_failover no_messages).0

  unfoldable pub perform_arm : Method → Messages Value → Messages Value
  unfolding Arm.run Arm.uninit
  perform_arm init s = s
  perform_arm periodic s = s
  perform_arm run s = Arm.run arithmetic generated wiring.arm s
  perform_arm uninit s = Arm.uninit arithmetic generated wiring.arm s

  unfoldable pub perform_intake : Method → Messages Value → Messages Value
  unfolding Intake.run Intake.uninit
  perform_intake init s = s
  perform_intake periodic s = s
  perform_intake run s = Intake.run arithmetic generated wiring.intake s
  perform_intake uninit s = Intake.uninit arithmetic generated wiring.intake s

  module _ (serializer : Serializer Value) (kinematics : Kinematics Value) where
    unfoldable pub initial : Network → Control Value
    unfolding robot_failover
    initial n = record {
      swerve = idle arithmetic kinematics wiring.swerve;
      messages = (robot_failover no_messages).1;
      network = n;
    }

    unfoldable pub perform_swerve : Inputs Value → Method → Control Value → Control Value
    unfolding Swerve.init Swerve.periodic Swerve.run Swerve.uninit
    perform_swerve inputs init c =
        let (d, s) =
          Swerve.init arithmetic kinematics wiring.swerve inputs (c.swerve, c.messages) in
        record c { swerve = d; messages = s }
    perform_swerve inputs periodic c = record c {
      swerve = Swerve.periodic arithmetic kinematics wiring.swerve inputs c.swerve;
    }
    perform_swerve inputs run c =
        let (d, s) = Swerve.run arithmetic kinematics wiring.swerve inputs (c.swerve, c.messages) in
        record c { swerve = d; messages = s }
    perform_swerve inputs uninit c =
        let (d, s) = Swerve.uninit arithmetic kinematics wiring.swerve (c.swerve, c.messages) in
        record c { swerve = d; messages = s }

    unfoldable pub perform : Inputs Value → Call → Control Value → Control Value
    unfolding perform_swerve perform_arm perform_intake Messages.publish_messages
    perform inputs publish_messages c =
        let (s, n) = Messages.publish_messages serializer (c.messages, c.network) in
        record c { messages = s; network = n }
    perform inputs (subsystem swerve_drivetrain m) c = perform_swerve inputs m c
    perform inputs (subsystem arm m) c = record c { messages = perform_arm m c.messages }
    perform inputs (subsystem intake m) c = record c { messages = perform_intake m c.messages }
    perform inputs (subsystem led m) c = c

    -- The effects of a callback: the calls change the subsystems, the lines to the driver station do not.
    unfoldable pub perform_effects : Inputs Value → List Effect → Control Value → Control Value
    unfolding perform
    perform_effects inputs [] c = c
    perform_effects inputs (failover call ∷ es) c =
        perform_effects inputs es (perform inputs call c)
    perform_effects inputs (e ∷ es) c = perform_effects inputs es c

    -- The robot with its subsystems: each event comes with what the inputs read then.
    unfoldable pub run_robot :
        Robot × Control Value → List (Inputs Value × Event) → Robot × Control Value
    unfolding step perform_effects
    run_robot (r, c) [] = (r, c)
    run_robot (r, c) ((inputs, e) ∷ es) =
        let (r', effects) = step r e in run_robot (r', perform_effects inputs effects c) es
