-- ===== src/System.antt =====
-- The way from the network and the failover control to the motors: the callbacks of src/main/cpp/Robot.cpp on
-- the main thread, and four tasks of the scheduler's, src/main/cpp/tasks/ReceiveMessagesTask.cpp,
-- ProcessHeartbeatTask.cpp, ApplyMotorConfigTask.cpp and ApplyMotorValuesTask.cpp. A callback decides
-- on its calls of the failover control when it begins, and makes them one by one; whole runs of tasks
-- come between them. The other managers of the heartbeat task have no part in this.
pub mod Provenance
pub mod Safety
pub mod Silence
pub mod Takeover
use ckriopassthru.Base.{ℕ, Bool, true, false, Option, none, some, List, [], ◌∷◌, if◌then◌else◌}
use ckriopassthru.Arithmetic.{Arithmetic}
use ckriopassthru.External.{external_control_initial}
use ckriopassthru.External
use ckriopassthru.Network.{Network, Bytes, Delivery, receive_message_pump}
use ckriopassthru.Phoenix.{ErrorCode, CanInterface}
use ckriopassthru.Talon.{Talon}
use ckriopassthru.Motor.{Motors, no_motors, process_heartbeat as age_motors}
use ckriopassthru.Motor.Values.{MotorControl}
use ckriopassthru.Motor.Values
use ckriopassthru.Candle.Led.{Difference}
use ckriopassthru.MotorSettings.{Scale, Command, MotorField}
use ckriopassthru.MotorSettings.Task.{MotorConfiguration}
use ckriopassthru.MotorSettings.Task
use ckriopassthru.Failover.Messages.{Generated, Serializer}
use ckriopassthru.Failover.Swerve.{Kinematics, Inputs}
use ckriopassthru.Failover.Control.{Control, initial, perform_effects}
use ckriopassthru.Robot.{Robot, Effect, robot_initial, message, heartbeat}
use ckriopassthru.Robot

-- All that these parts rely on outside the program: `double`, the generated messages with their
-- parsers and serializer, the Phoenix library, and the kinematics.
pub record Outside : Type 1 where
  pub talon : Talon
  pub arithmetic : Arithmetic (talon.Value)
  pub generated : Generated (talon.Value)
  pub serializer : Serializer (talon.Value)
  pub kinematics : Kinematics (talon.Value)
  pub parse_controls : Bytes → Option (List (MotorControl (talon.Value)))
  pub scale : Scale
  pub call : Command (scale.Value) → talon.Motor → talon.Motor × ErrorCode
  pub general_error : ErrorCode
  pub default_msg : MotorConfiguration (scale.Value)
  pub differences :
      MotorConfiguration (scale.Value)
      → MotorConfiguration (scale.Value)
      → List (Difference MotorField)
  pub parse_configs : Bytes → Option (List (MotorConfiguration (scale.Value)))
  pub can_network : MotorConfiguration (scale.Value) → CanInterface
  -- The error number that the pump compares sizes with.
  pub eagain : ℕ

-- `RobotInit` schedules no task that registers encoders, so `getEncoder` finds none.
abbrev pub has_encoder : ℕ → Bool
has_encoder id = false

-- The events of `Robot.Event` that are callbacks.
abbrev pub is_callback : Robot.Event → Bool
is_callback message = false
is_callback heartbeat = false
is_callback _ = true

module _ (outside : Outside) where
  open outside use {
    talon, arithmetic, generated, serializer, kinematics, parse_controls, scale, call,
    general_error, default_msg, differences, parse_configs, can_network, eagain,
  }
  open talon use {Value, Motor}

  -- The counter of the external control manager is the robot's; the one in `control.network` is
  -- set from it for a pump.
  pub record System : Type 0 where
    pub robot : Robot
    -- What the callback that has begun has yet to do.
    pub pending : List Effect
    pub control : Control Value
    pub motors : Motors Motor (MotorConfiguration (scale.Value))

  -- A callback begins, which is nothing for what is no callback or while one is at work; its next
  -- call, with what the inputs read then; the run of a task, with what the pump finds, or with
  -- whether the lock is got.
  pub data Event : Type 0 where
    main_thread : Robot.Event → Event
    next_call : Inputs Value → Event
    receive_messages : List Delivery → Event
    process_heartbeat : Event
    apply_motor_configs apply_motor_values : Bool → Event

  unfoldable pub start_up : System
  unfolding initial no_motors
  start_up = record {
    robot = robot_initial;
    pending = [];
    control =
        initial arithmetic generated serializer kinematics
          (record { recv_msg_map = []; external = external_control_initial });
    motors = no_motors;
  }

  unfoldable pub begin_callback : Robot.Event → System → System
  unfolding Robot.step
  begin_callback e s =
      let (r, effects) = Robot.step s.robot e in record s { robot = r; pending = effects }

  unfoldable pub perform_next : Inputs Value → System → System
  unfolding perform_effects
  perform_next inputs s = elim s.pending [
    | [] ↦ s
    | effect ∷ rest ↦ record s {
      pending = rest;
      control =
          perform_effects arithmetic generated serializer kinematics inputs (effect ∷ []) s.control;
    }
  ]

  -- A callback of which all calls are made with nothing between them.
  unfoldable pub perform_callback : Inputs Value → Robot.Event → System → System
  unfolding perform_effects Robot.step
  perform_callback inputs e s =
      let (r, effects) = Robot.step s.robot e in
      record s {
        robot = r;
        pending = [];
        control =
            perform_effects arithmetic generated serializer kinematics inputs effects s.control;
      }

  unfoldable pub pump_messages : List Delivery → System → System
  unfolding receive_message_pump
  pump_messages q s =
      let n = record s.control.network { external = s.robot.external } in
      let n' = (receive_message_pump eagain q n).0 in
      record s {
        robot = record s.robot { external = n'.external };
        control = record s.control { network = n' };
      }

  unfoldable pub age_all : System → System
  unfolding External.process_heartbeat age_motors
  age_all s = record s {
    robot = record s.robot { external = External.process_heartbeat s.robot.external };
    motors = age_motors s.motors;
  }

  unfoldable pub configure_motors : Bool → System → Option System
  unfolding Task.run
  configure_motors locked s =
      let (n, done) =
        Task.run scale call general_error has_encoder default_msg differences parse_configs locked
          (s.control.network, s.motors) in
      elim done [
        | none ↦ none
        | some w ↦ some (record s { control = record s.control { network = n }; motors = w })
      ]

  unfoldable pub drive_motors : Bool → System → System
  unfolding Values.run
  drive_motors locked s =
      let (n, w) =
        Values.run talon can_network parse_controls locked s.robot.mode.control_mode
          (s.control.network, s.motors) in
      record s { control = record s.control { network = n }; motors = w }

  -- `none` is a null pointer that is dereferenced.
  unfoldable pub step : System → Event → Option System
  unfolding begin_callback perform_next pump_messages age_all configure_motors drive_motors
  step s (main_thread e) =
      some (elim s.pending [
        | [] ↦ if is_callback e then begin_callback e s else s
        | effect ∷ rest ↦ s
      ])
  step s (next_call inputs) = some (perform_next inputs s)
  step s (receive_messages q) = some (pump_messages q s)
  step s process_heartbeat = some (age_all s)
  step s (apply_motor_configs locked) = configure_motors locked s
  step s (apply_motor_values locked) = some (drive_motors locked s)

  unfoldable pub run : System → List Event → Option System
  unfolding step
  run s [] = some s
  run s (e ∷ es) = elim (step s e) [ none ↦ none | some s' ↦ run s' es ]
