-- ===== src/Tests/Messages.antt =====
-- Runs of the network and of the retry.
use ckriopassthru.Base.{
  ℕ, ◌≡◌, refl, false, true, [], ◌∷◌, ◌++◌, some, none, arith, List, suc, ◌==◌, if◌then◌else◌,
}
use ckriopassthru.External.{external_control_initial}
use ckriopassthru.Network.{
  Network, Bytes, Delivery, message, receive_message_pump, get_message, place_failover_message,
}
use text.Mathlib.Text.{◌==◌ as str_eq}
use ckriopassthru.Network.Inbox.{lookup}
use ckriopassthru.Network.Pump.{
  IsClean, latest, receive_message_pump_lem, receive_message_pump-eagain, is_empty, or_else,
}
use ckriopassthru.Network.Send.{get_message-place_failover_message}
use ckriopassthru.Phoenix.{ErrorCode, success, failure as error, run_phoenix_function_with_retry}
use ckriopassthru.Logging.{log_pump, new_logger, info, warning}
use ckriopassthru.Logging.Reporting.{Call, logged, pumped, run, count, count-log_pump}
use ckriopassthru.Phoenix.Retry.{after, calls, in_three, run_phoenix_function_with_retry_lem}

abbrev no_messages : Network
no_messages = record { recv_msg_map = []; external = external_control_initial }

abbrev two_messages : List Delivery
two_messages = message "motorcontrol" (1 ∷ []) ∷ message "motorcontrol" (2 ∷ 3 ∷ []) ∷ []

two_messages-IsClean : IsClean 11 two_messages
two_messages-IsClean = ((λ h. omega arith), ((λ h. omega arith), tt))

receive_message_pump_example :
    let (n', read, left) = receive_message_pump 11 two_messages no_messages in
    (left ≡ [])
    × (read ≡ (if is_empty two_messages then false else true))
    × (lookup "motorcontrol" n'.recv_msg_map
        ≡ or_else
            (latest "motorcontrol" two_messages)
            (lookup "motorcontrol" no_messages.recv_msg_map))
    × (n'.external.last_connection_time
        ≡ (if is_empty two_messages then no_messages.external.last_connection_time else 50))
receive_message_pump_example =
    receive_message_pump_lem 11 two_messages no_messages "motorcontrol" two_messages-IsClean

abbrev eleven_bytes : Bytes
eleven_bytes = 1 ∷ 2 ∷ 3 ∷ 4 ∷ 5 ∷ 6 ∷ 7 ∷ 8 ∷ 9 ∷ 10 ∷ 11 ∷ []

receive_message_pump-eagain_example :
    let r =
      receive_message_pump 11
        (two_messages ++ message "ledcontrol" eleven_bytes ∷ two_messages)
        no_messages in
    (r.2 ≡ two_messages)
    × (r.0 ≡ (receive_message_pump 11 two_messages no_messages).0)
    × (r.1 ≡ (if is_empty two_messages then false else true))
receive_message_pump-eagain_example =
    receive_message_pump-eagain 11 two_messages two_messages no_messages "ledcontrol" eleven_bytes
      two_messages-IsClean refl

get_message-place_failover_message_example :
    let r =
      get_message "motorcontrol"
        (place_failover_message "motorcontrol" eleven_bytes no_messages).0 in
    (r.1 ≡ some eleven_bytes)
    × (get_message "motorcontrol" r.0 ≡ (r.0, none))
    × (lookup "ledcontrol" r.0.recv_msg_map ≡ (
        if str_eq "ledcontrol" "motorcontrol"
        then none
        else lookup "ledcontrol" no_messages.recv_msg_map))
get_message-place_failover_message_example =
    get_message-place_failover_message "motorcontrol" "ledcontrol" eleven_bytes no_messages

-- A function that fails until its `n`-th call.
abbrev fails_until : ℕ → ℕ → ℕ × ErrorCode
fails_until n s = (suc s, if s == n then success else error 1)

run_phoenix_function_with_retry_example :
    run_phoenix_function_with_retry (fails_until 2) 0
    ≡ some (after (fails_until 2) (calls (fails_until 2) 0) 0, in_three (fails_until 2) 0)
run_phoenix_function_with_retry_example = run_phoenix_function_with_retry_lem (fails_until 2) 0

-- The last level counts, and what was written before is not written again.
abbrev three_logs : List Call
three_logs = logged "old" warning ∷ pumped ∷ logged "new" info ∷ logged "new" warning ∷ []

count-log_pump_example :
    (count "new" (log_pump (run three_logs new_logger)).0 ≡ 1)
    × (count "old" (log_pump (run three_logs new_logger)).0 ≡ 0)
count-log_pump_example = (count-log_pump "new" three_logs, count-log_pump "old" three_logs)
