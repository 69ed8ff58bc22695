-- ===== src/External.antt =====
-- src/main/cpp/ExternalControlManager.cpp: how long ago the last external message came, in ticks of
-- 20 ms. The counter is an atomic `int` that starts at 0 and never falls below it.
pub mod Watchdog
use ckriopassthru.Base.{ℕ, ◌-◌, Bool, ltb, if◌then◌else◌}

pub record ExternalControl : Type 0 where
  pub last_connection_time : ℕ

abbrev pub external_control_initial : ExternalControl
external_control_initial = record { last_connection_time = 0 }

unfoldable pub external_control_msg_received : ExternalControl → ExternalControl
external_control_msg_received e = record e { last_connection_time = 50 }

unfoldable pub is_external_control_connected : ExternalControl → Bool
is_external_control_connected e = ltb 0 e.last_connection_time

unfoldable pub process_heartbeat : ExternalControl → ExternalControl
process_heartbeat e =
    if ltb 0 e.last_connection_time
    then record e { last_connection_time = e.last_connection_time - 1 }
    else e
