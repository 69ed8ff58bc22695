-- ===== src/External/Watchdog.antt =====
-- The timeout of src/main/cpp/ExternalControlManager.cpp over any history of messages and ticks.
use ckriopassthru.Base.{
  ℕ, suc, ◌-◌, ◌≡◌, refl, Bool, false, Option, none, some, List, [], ◌∷◌, arith, ltb,
}
use ckriopassthru.External.{
  ExternalControl, external_control_msg_received, is_external_control_connected, process_heartbeat,
  external_control_initial,
}

pub data Event : Type 0 where
  message tick : Event

unfoldable pub step : ExternalControl → Event → ExternalControl
step e message = external_control_msg_received e
step e tick = process_heartbeat e

-- The state after a history, the newest event first.
unfoldable pub replay : List Event → ExternalControl
replay [] = external_control_initial
replay (x ∷ xs) = step (replay xs) x

-- The ticks since the last message of a history; `none` if there was no message.
unfoldable pub since_message : List Event → Option ℕ
since_message [] = none
since_message (message ∷ xs) = some 0
since_message (tick ∷ xs) = elim (since_message xs) [ none ↦ none | some n ↦ some (suc n) ]

abbrev pub within_timeout : Option ℕ → Bool
within_timeout none = false
within_timeout (some n) = ltb n 50

abbrev time_left : Option ℕ → ℕ
time_left none = 0
time_left (some n) = 50 - n

last_connection_time-replay :
    (xs : List Event) → (replay xs).last_connection_time ≡ time_left (since_message xs)
unfolding replay step since_message external_control_msg_received process_heartbeat
last_connection_time-replay [] = refl
last_connection_time-replay (message ∷ xs) = refl
last_connection_time-replay (tick ∷ xs) = ground (arith, last_connection_time-replay xs)

-- After any history of messages and ticks, control is external exactly if a message came less than
-- 50 ticks ago.
pub is_external_control_connected-replay :
    (xs : List Event)
    → is_external_control_connected (replay xs) ≡ within_timeout (since_message xs)
unfolding is_external_control_connected
is_external_control_connected-replay xs = ground (arith, last_connection_time-replay xs)
