-- ===== src/DriverStation.antt =====
-- What the robot is told of the driver station: src/main/cpp/RobotDataHelper.cpp, DSConnectionMonitor.cpp and
-- the task UpdateDSConnectionStatusTask.cpp, with the mode of RobotControlModeHelper.cpp and the report that
-- SendRobotDataTask.cpp makes of them. What the driver station answers at a call is an argument. The
-- two cached values and the timer of the helper, which nothing reads, and error reports are left out.
pub mod Status
use Prim.Native.String.{String}
use ckriopassthru.Base.{Bool, true, false, Option, List, [], ◌∷◌, if◌then◌else◌}
use ckriopassthru.Arithmetic.{Arithmetic}
use ckriopassthru.Network.{Bytes}
use ckriopassthru.Mode.{ControlMode, ModeHelper, mode_initial, set_control_mode}
use ckriopassthru.Telemetry.{Report}
use ckriopassthru.Telemetry.Devices.{Alliance, invalid, RobotStatus, send_robot_status}

-- How a call of the driver station ends: with a value, a `std::exception`, or with anything else thrown.
pub data Answer (A : Type 0) : Type 0 where
  returned : A → Answer A
  exception unknown : Answer A

pub record RobotDataHelper (Value : Type 0) : Type 0 where
  pub thread_active : Bool
  pub alliance : Alliance
  pub match_time : Value
  pub game_specific_msg : String

unfoldable pub get_alliance : {Value : Type 0} → RobotDataHelper Value → Alliance
get_alliance d = d.alliance

unfoldable pub get_match_time : {Value : Type 0} → RobotDataHelper Value → Value
get_match_time d = d.match_time

unfoldable pub get_game_specific_msg : {Value : Type 0} → RobotDataHelper Value → String
get_game_specific_msg d = d.game_specific_msg

pub record DsConnectionMonitor : Type 0 where
  pub has_connection : Bool

abbrev pub ds_connection_monitor : DsConnectionMonitor
ds_connection_monitor = record { has_connection = false }

unfoldable pub is_connected : DsConnectionMonitor → Bool
is_connected m = m.has_connection

-- With what `IsDSAttached` returns.
unfoldable pub update_connection_status : Bool → DsConnectionMonitor → DsConnectionMonitor
update_connection_status attached m = record m { has_connection = attached }

-- The cast of a `double` to `float` is a parameter.
module _ {Value : Type 0} (arithmetic : Arithmetic Value) (to_float : Value → Value) where
  open arithmetic use {decimal, negate}

  abbrev pub robot_data_helper : RobotDataHelper Value
  robot_data_helper = record {
    thread_active = true;
    alliance = invalid;
    match_time = decimal 0 0;
    game_specific_msg = "";
  }

  -- The handler of `std::exception`.
  unfoldable pub reset_data : RobotDataHelper Value → RobotDataHelper Value
  reset_data d = record d {
    alliance = invalid;
    match_time = negate (decimal 1 0);
    game_specific_msg = "";
  }

  unfoldable pub read_match_time : Answer Value → RobotDataHelper Value → RobotDataHelper Value
  unfolding reset_data
  read_match_time (returned t) d = record d { match_time = to_float t; game_specific_msg = "" }
  read_match_time exception d = reset_data d
  read_match_time unknown d = d

  unfoldable pub read_data :
      Answer Alliance → Answer Value → RobotDataHelper Value → RobotDataHelper Value
  unfolding reset_data read_match_time
  read_data (returned a) t d = read_match_time t (record d { alliance = a })
  read_data exception t d = reset_data d
  read_data unknown t d = d

  -- A round of the loop of `runThread`; the destructor ends the thread.
  unfoldable pub run_round :
      Answer Alliance → Answer Value → RobotDataHelper Value → RobotDataHelper Value
  unfolding read_data
  run_round a t d = if d.thread_active then read_data a t d else d

  unfoldable pub stop_thread : RobotDataHelper Value → RobotDataHelper Value
  stop_thread d = record d { thread_active = false }

  pub record Station : Type 0 where
    pub mode : ModeHelper
    pub data_helper : RobotDataHelper Value
    pub monitor : DsConnectionMonitor

  abbrev pub start_up : Station
  start_up = record {
    mode = mode_initial;
    data_helper = robot_data_helper;
    monitor = ds_connection_monitor;
  }

  -- A round of the helper's thread, a run of the task that asks for the connection, and a mode that
  -- a callback sets.
  pub data Event : Type 0 where
    round : Answer Alliance → Answer Value → Event
    update : Bool → Event
    entered : ControlMode → Event

  unfoldable pub step : Event → Station → Station
  unfolding run_round update_connection_status set_control_mode
  step (round a t) s = record s { data_helper = run_round a t s.data_helper }
  step (update attached) s = record s { monitor = update_connection_status attached s.monitor }
  step (entered mode) s = record s { mode = set_control_mode mode s.mode }

  unfoldable pub run : List Event → Station → Station
  unfolding step
  run [] s = s
  run (e ∷ es) s = run es (step e s)

  -- `sendRobotStatusMessage`.
  unfoldable pub send_status : (RobotStatus Value → Option Bytes) → Station → Report
  unfolding send_robot_status is_connected get_alliance get_match_time get_game_specific_msg
  send_status serialize s =
      let d = s.data_helper in
      send_robot_status serialize s.mode.control_mode (get_alliance d) (get_match_time d)
        (get_game_specific_msg d) (is_connected s.monitor)
