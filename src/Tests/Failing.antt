-- ===== src/Tests/Failing.antt =====
-- Runs of the failover control with its subsystems, and of the tasks that read its messages.
use ckriopassthru.Base.{ℕ, ◌≡◌, refl, true, false, none, some, List, [], ◌∷◌, arith, ◌<◌, suc}
use ckriopassthru.Network.{Network}
use ckriopassthru.External.{
  external_control_initial, is_external_control_connected, external_control_msg_received,
}
use ckriopassthru.Network.Inbox.{lookup}
use ckriopassthru.Failover.Control.{run_robot}
use ckriopassthru.Phoenix.{rio_canivore}
use ckriopassthru.Talon.{talon_fx}
use ckriopassthru.MotorSettings.{MotorSettings, CurrentLimit, master}
use ckriopassthru.Solenoid.{ctrepcm, single, off}
use ckriopassthru.Sensor.{pigeon2}
use ckriopassthru.Candle.Led.{static}
use ckriopassthru.Failover.Messages.{Generated, Serializer, Messages}
use ckriopassthru.Failover.Swerve.{Kinematics, Inputs, ModuleState}
use ckriopassthru.Failover.Shape.{Are, wired, standing}
use ckriopassthru.Failover.Resumption.{reached, run_robot-standing, run_robot-wired}
use ckriopassthru.Failover.Publishing.{publish_times, publish_times-configs}
use ckriopassthru.Failover.Control.{no_messages, run_robot}
use ckriopassthru.Robot.{
  Event, step, robot_periodic, teleop_periodic, robot_loop, teleop_loop, message, step,
  robot_periodic,
}
use ckriopassthru.Tests.Bench.{Reading, drive_four}
use ckriopassthru.Tests.Numbers.{Sign, nought, signs}

-- A new configuration, with a value for its numbers.
abbrev blank_limit : {V : Type 0} → V → CurrentLimit V
blank_limit z = record {
  enable = false;
  current_limit = z;
  trigger_threshold_current = z;
  trigger_threshold_time = z;
}

abbrev blank_settings : {V : Type 0} → V → MotorSettings V
blank_settings z = record {
  controller_mode = master;
  kp = z;
  ki = z;
  kd = z;
  kf = z;
  kp_1 = z;
  ki_1 = z;
  kd_1 = z;
  kf_1 = z;
  izone = z;
  max_i_accum = z;
  allowed_closed_loop_error = z;
  max_closed_loop_peak_output = z;
  motion_cruise_velocity = z;
  motion_acceleration = z;
  forward_soft_limit = z;
  reverse_soft_limit = z;
  feedback_sensor_coefficient = z;
  voltage_compensation_saturation = z;
  open_loop_ramp = z;
  closed_loop_ramp = z;
  peak_output_forward = z;
  peak_output_reverse = z;
  motion_s_curve_strength = 0;
  invert_type = 0;
  neutral_mode = 0;
  forward_limit_switch_source = 0;
  forward_limit_switch_normal = 0;
  reverse_limit_switch_source = 0;
  reverse_limit_switch_normal = 0;
  feedback_sensor_can_id = 0;
  active_gain_slot = 0;
  forward_soft_limit_enable = false;
  reverse_soft_limit_enable = false;
  voltage_compensation_enabled = false;
  sensor_phase_inverted = false;
  supply_current_limit_config = blank_limit z;
  stator_current_limit_config = blank_limit z;
}

abbrev pub generated : Generated Sign
generated = record {
  new_motor_control = record {
    id = 0;
    control_mode = 0;
    output_value = nought;
    arbitrary_feedforward = nought;
    controller_type = talon_fx;
  };
  new_motor_config = record {
    id = 0;
    controller_type = talon_fx;
    can_network = rio_canivore;
    settings = blank_settings nought;
  };
  new_solenoid_control = record {
    module_type = ctrepcm;
    id = 0;
    solenoid_type = single;
    output_value = off;
  };
  new_imu_config = record {
    id = 0;
    imu_type = pigeon2;
    can_network = rio_canivore;
    mount_pose_axis_forward = 0;
    mount_pose_axis_up = 0;
  };
  new_led_control = record {
    id = 0;
    can_network = rio_canivore;
    led_type = 0;
    vbat_config = 0;
    vbat_duty_cycle = nought;
    led_control_mode = static;
    color = record { r = 0; g = 0; b = 0; w = 0 };
    start_index = 0;
    num_leds = 0;
    animations = [];
  };
  percent_output = 0;
  velocity = 2;
  position = 1;
  follower = 5;
  invert_none = 0;
  invert_motor_output = 1;
  oppose_master = 2;
  follow_master = 3;
  brake = 0;
  coast = 1;
  limit_switch_deactivated = 0;
  limit_switch_disabled = 0;
  grbw = 0;
  vbat_off = 0;
}

-- Every message is one byte.
abbrev serializer : {V : Type 0} → Serializer V
serializer = record {
  motor_control_bytes = λ ms. some (1 ∷ []);
  motor_configuration_bytes = λ ms. some (2 ∷ []);
  solenoid_control_bytes = λ ms. some (3 ∷ []);
  led_control_bytes = λ ms. some (4 ∷ []);
}

-- A drive whose wheels all go as fast as the joystick says.
abbrev pub kinematics : Kinematics Sign
kinematics = record {
  Rotation = Sign;
  degrees = λ r. r;
  inches_to_meters = λ i. i;
  to_swerve_module_states = λ places x y z.
      let m : ModuleState Sign Sign = record { speed = x; angle = z } in
      record { front_left = m; front_right = m; back_left = m; back_right = m };
  optimize = λ m angle. m;
}

abbrev pub inputs : Inputs Sign
inputs = record {
  is_connected = true;
  raw_axis = λ i. nought;
  raw_button = λ i. false;
  sensor_position = λ id. none;
}

abbrev network : Network
network = record { recv_msg_map = []; external = external_control_initial }

-- Failover control starts, drives, and ends with a message.
abbrev events : List (Inputs Sign × Event)
events =
    (inputs, robot_loop true)
    ∷ (inputs, teleop_loop)
    ∷ (inputs, message)
    ∷ (inputs, robot_loop true)
    ∷ []

run_robot-standing_example :
    ((reached signs generated serializer kinematics network events).1.swerve.joystick ≡ false)
    × Are
        (standing signs generated)
        (reached signs generated serializer kinematics network events).1.messages.motor_control
unfolding run_robot step robot_periodic teleop_periodic is_external_control_connected
    external_control_msg_received
run_robot-standing_example =
    run_robot-standing signs generated serializer kinematics network events refl

run_robot-wired_example :
    Are
      (wired signs generated)
      (reached signs generated serializer kinematics network events).1.messages.motor_control
run_robot-wired_example = run_robot-wired signs generated serializer kinematics network events

-- Messages with one motor.
abbrev one_motor : Messages Reading
one_motor = record no_messages { motor_control = drive_four ∷ [] }

publish_times-configs_example :
    (k : ℕ) × (k < 25)
    × (lookup "motorconfig" (publish_times serializer (suc k) (one_motor, network)).1.recv_msg_map
        ≡ some (2 ∷ []))
    × (lookup "ledcontrol" (publish_times serializer (suc k) (one_motor, network)).1.recv_msg_map
        ≡ some (4 ∷ []))
publish_times-configs_example =
    publish_times-configs serializer one_motor network (2 ∷ []) (4 ∷ []) (omega arith) refl refl
