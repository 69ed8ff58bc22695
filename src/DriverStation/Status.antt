-- ===== src/DriverStation/Status.antt =====
-- What a robot status message says, by what happened before it.
use ckriopassthru.Base.{◌≡◌, refl, Bool, true, false, Option, List, [], ◌∷◌}
use ckriopassthru.Arithmetic.{Arithmetic}
use ckriopassthru.Network.{Bytes}
use ckriopassthru.Mode.{ControlMode, disabled, set_control_mode}
use ckriopassthru.Telemetry.{report}
use ckriopassthru.Telemetry.Devices.{
  Alliance, invalid, RobotStatus, reported_alliance, send_robot_status,
}
use ckriopassthru.DriverStation.{
  returned, exception, unknown, Station, start_up, Event, round, update, entered, step, run,
  send_status, run_round, read_data, read_match_time, reset_data, update_connection_status,
  is_connected, get_alliance, get_match_time, get_game_specific_msg,
}

module _ {Value : Type 0} (arithmetic : Arithmetic Value) (to_float : Value → Value) where
  open arithmetic use {decimal, negate}

  -- The last first.
  abbrev pub newest_first :
      List (Event arithmetic to_float)
      → List (Event arithmetic to_float)
      → List (Event arithmetic to_float)
  newest_first [] before = before
  newest_first (e ∷ es) before = newest_first es (e ∷ before)

  -- What is known after events, the last of which stands first: the answers of the last round that did
  -- not end by an unknown throw, where a `std::exception` makes both invalid.
  abbrev pub known_alliance : List (Event arithmetic to_float) → Alliance
  known_alliance [] = invalid
  known_alliance (round (returned a) exception ∷ before) = invalid
  known_alliance (round (returned a) t ∷ before) = a
  known_alliance (round exception t ∷ before) = invalid
  known_alliance (e ∷ before) = known_alliance before

  abbrev pub known_time : List (Event arithmetic to_float) → Value
  known_time [] = decimal 0 0
  known_time (round (returned a) (returned t) ∷ before) = to_float t
  known_time (round (returned a) exception ∷ before) = negate (decimal 1 0)
  known_time (round exception t ∷ before) = negate (decimal 1 0)
  known_time (e ∷ before) = known_time before

  abbrev pub last_update : List (Event arithmetic to_float) → Bool
  last_update [] = false
  last_update (update attached ∷ before) = attached
  last_update (e ∷ before) = last_update before

  abbrev pub last_mode : List (Event arithmetic to_float) → ControlMode
  last_mode [] = disabled
  last_mode (entered mode ∷ before) = mode
  last_mode (e ∷ before) = last_mode before

  abbrev IsKnown : List (Event arithmetic to_float) → Station arithmetic to_float → Type 0
  IsKnown before s =
      (s.data_helper.thread_active ≡ true)
      × (s.data_helper.alliance ≡ known_alliance before)
      × (s.data_helper.match_time ≡ known_time before)
      × (s.data_helper.game_specific_msg ≡ "")
      × (s.monitor.has_connection ≡ last_update before)
      × (s.mode.control_mode ≡ last_mode before)

  step-IsKnown :
      (e : Event arithmetic to_float) (before : List (Event arithmetic to_float))
      (s : Station arithmetic to_float)
      → IsKnown before s
      → IsKnown (e ∷ before) (step arithmetic to_float e s)
  unfolding step run_round read_data read_match_time reset_data update_connection_status
      set_control_mode
  step-IsKnown (round (returned a) (returned t)) before s (on, a', t', text, attached', mode') =
      rw on (refl, refl, refl, refl, attached', mode')
  step-IsKnown (round (returned a) exception) before s (on, a', t', text, attached', mode') =
      rw on (refl, refl, refl, refl, attached', mode')
  step-IsKnown (round (returned a) unknown) before s (on, a', t', text, attached', mode') =
      rw on (refl, refl, t', text, attached', mode')
  step-IsKnown (round exception t) before s (on, a', t', text, attached', mode') =
      rw on (refl, refl, refl, refl, attached', mode')
  step-IsKnown (round unknown t) before s (on, a', t', text, attached', mode') =
      rw on (refl, a', t', text, attached', mode')
  step-IsKnown (update attached) before s (on, a', t', text, attached', mode') =
      (on, a', t', text, refl, mode')
  step-IsKnown (entered mode) before s (on, a', t', text, attached', mode') =
      (on, a', t', text, attached', refl)

  run-IsKnown :
      (es before : List (Event arithmetic to_float)) (s : Station arithmetic to_float)
      → IsKnown before s
      → IsKnown (newest_first es before) (run arithmetic to_float es s)
  unfolding run
  run-IsKnown [] before s h = h
  run-IsKnown (e ∷ es) before s h =
      run-IsKnown es (e ∷ before) (step arithmetic to_float e s) (step-IsKnown e before s h)

  -- After any rounds of the helper's thread, runs of the connection task and changes of the mode, a
  -- robot status message is made with the last mode, the last connection, empty game data, and the
  -- alliance and match time that were last written: what a round read, or invalid and -1 by a round
  -- in which one of the two calls threw a std::exception; a throw of anything else ends a round
  -- before its later writes. Before any of these it is disabled, not connected, with an invalid
  -- alliance and time 0; an invalid alliance is sent as blue.
  pub send_status-run :
      (serialize : RobotStatus Value → Option Bytes) (es : List (Event arithmetic to_float))
      → let before = newest_first es [] in
        send_status arithmetic to_float serialize
          (run arithmetic to_float es (start_up arithmetic to_float))
        ≡ report "robotstatus" (
            serialize (record {
              robot_state = last_mode before;
              alliance = reported_alliance (known_alliance before);
              match_time = known_time before;
              game_data = "";
              is_connected = last_update before;
            }))
  unfolding send_status send_robot_status is_connected get_alliance get_match_time
      get_game_specific_msg
  send_status-run serialize es =
      let (on, a, t, text, attached, mode) =
        run-IsKnown es [] (start_up arithmetic to_float) (refl, refl, refl, refl, refl, refl) in
      rw (mode, a, t, text, attached) refl
