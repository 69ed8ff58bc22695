-- ===== src/Lib.antt =====
-- CKRIOPassthru: the program on a robot's controller (src/main/cpp and src/main/include) that passes commands
-- from the network to motors and other devices, and takes control itself while no command comes.
--
-- How the parts interact. TaskScheduler runs the tasks, each at its rate. One task pumps messages from
-- the socket into NetworkManager, which keeps the newest of each group and tells
-- ExternalControlManager that one came. The other tasks take their group's message out, and register
-- and command devices through the managers. A manager deletes, in its heartbeats, a device
-- whose registration was not renewed. Robot watches ExternalControlManager, and starts and stops the failover
-- subsystems, whose messages go into the same NetworkManager.
--
-- Which file models which part (paths below src/main/cpp):
--   Base            shared names, tests on numbers, `std::map` with integer keys (Base.Map)
--   Heartbeat       the loop of every manager's `processHeartbeat`
--   Registry        the maps that the managers of motors, solenoids, encoders and IMUs share
--   Motor           MotorManager.cpp; MotorConfig: MotorConfigManager.cpp; Talon: the Phoenix motors
--   Motor.Values    tasks/ApplyMotorValuesTask.cpp
--   Network         NetworkManager.cpp
--   External        ExternalControlManager.cpp
--   Mode            utils/RobotControlModeHelper.cpp
--   Failover        failover/RobotFailover.cpp; Robot: Robot.cpp
--   Scheduler       utils/TaskScheduler.cpp, tasks/Task.hpp
--   Phoenix         utils/PhoenixHelper.cpp
--   Solenoid        utils/drivers/CKSolenoid.cpp, SolenoidManager.cpp
--   Solenoid.Values tasks/ApplySolenoidValuesTask.cpp
--   Sensor          CKEncoderManager.cpp, CKIMUManager.cpp
--   Sensor.Config   tasks/ApplyIMUConfigTask.cpp, tasks/ApplyEncoderConfigTask.cpp
--   Candle          CANdleManager.cpp; Candle.Led: tasks/ApplyLEDControlTask.cpp
--   MotorSettings   tasks/ApplyMotorConfigTask.cpp, its two kinds of update and its run; .Commands: what is told
--   Managers        tasks/ProcessHeartbeatTask.cpp
--   Scheduler.Thread  start, stop and run of the scheduler; Robot.Tasks: the tasks of RobotInit
--   Failover.Messages failover/FailoverMessageManager.cpp
--   Failover.Swerve, .Arm, .Intake  failover/subsystems of these names, LEDFailover.cpp in the last;
--                   Swerve.Construction is the constructor of the first
--   Failover.Control  RobotFailover's constructor, and Robot's calls carried out on the subsystems
--   Failover.Drivetrain, .Ramp, .DriveHelper  DrivetrainFailover.cpp, ValueRamper.cpp, drive_helper.cpp
--   Deadband        include/utils/CKMath.hpp; Arithmetic: the operations of double as a parameter
--   CanLed          utils/drivers/CKLEDController.cpp, CKCANServer.cpp; CanLed.Server: the thread of the latter with
--                   its lock, as a step relation; CanLed.Morse: MorseCodeTranslator.cpp
--   Telemetry       tasks/Send*DataTask.cpp
--   DriverStation   RobotDataHelper.cpp, utils/DSConnectionMonitor.cpp, tasks/UpdateDSConnectionStatusTask.cpp
--   Timers          utils/TaskTimer.cpp, utils/RTTimer.cpp, utils/TimeoutTimer.cpp, CachedValue.hpp;
--                   Timers.Pace: utils/ThreadRateControl.cpp
--   Logging         utils/CKLogger.cpp
--   Drivers         utils/drivers/CKCANCoder.cpp, utils/drivers/CKPigeon2.cpp; Yaw: `normalizeYaw` of CKMath.hpp
--   System          the callbacks of Robot.cpp with the tasks ReceiveMessagesTask.cpp, ProcessHeartbeatTask.cpp,
--                   ApplyMotorConfigTask.cpp and ApplyMotorValuesTask.cpp on one state, in any order
-- Functions keep the source's names in lower case. State is passed explicitly. The managers' locks are
-- recursive and held for whole operations, so each operation is one step; `try_lock` is an argument.
-- Objects that subsystems point to are in the messages, and a pointer is the place of the motor or
-- solenoid. The joystick of a subsystem is null at first, since its static storage starts with zeros.
--
-- Parameters: doubles and their operations (Arithmetic, and IsOrdered where a theorem needs an order; NaN
-- may be a value), the constants and initial values of generated messages (Generated), serializers and
-- parsers, ZeroMQ's sockets, the Phoenix devices and what they read, the swerve kinematics, joystick and
-- steering sensors (Kinematics, Inputs), the clock. Fuel is given
-- to the retry loop, four rounds, which are enough: its counter starts at 0 and stops it at 3; and to the loops of
-- `normalizeYaw`, as much as is asked for, since these end for some angles and not for others. The loop of setMorse
-- has the rounds that its own test of the counter leaves. In System a callback decides on its calls when it
-- begins and then makes them one by one, with whole runs of tasks between them; a run of a task, and one call,
-- is one step.
--
-- `RobotInit` schedules no task that registers encoders, so System has none. Whether a constructor of
-- WPILib throws is an argument of the registration of a solenoid and of the task that applies their values.
--
-- Not modelled: the vendored libraries (protobuf, ZeroMQ, the robot loop, the death handler), console output,
-- threads and calls of the operating system, and the thread of the logger. Delays of the
-- CAN thread and of the scheduler are left out. utils/drivers/LEDMorseController.cpp is commented out as a whole.
pub mod Base
pub mod Heartbeat
pub mod Registry
pub mod Phoenix
pub mod External
pub mod Network
pub mod Talon
pub mod MotorConfig
pub mod Motor
pub mod Mode
pub mod Failover
pub mod Robot
pub mod Scheduler
pub mod Tests
pub mod Solenoid
pub mod Sensor
pub mod Candle
pub mod Managers
pub mod MotorSettings
pub mod Arithmetic
pub mod Deadband
pub mod CanLed
pub mod Telemetry
pub mod Timers
pub mod Logging
pub mod System
pub mod Yaw
pub mod Drivers
pub mod DriverStation
