-- ===== src/Network.antt =====
-- src/main/cpp/NetworkManager.cpp. The sockets are ZeroMQ's: what `recv` delivers and what each
-- `send` returns are arguments. The map is by the text of the group; its locks are held for whole
-- operations, so each operation is one step.
pub mod Contents
pub mod Inbox
pub mod Pump
pub mod Send
use Prim.Native.String.{String}
use ckriopassthru.Base.{
  ℕ, ◌≡◌, Bool, true, false, Option, none, some, List, [], ◌∷◌, ◌&&◌, not, length, is_some, ltb,
  ◌==◌, if◌then◌else◌,
}
use ckriopassthru.External.{ExternalControl, external_control_msg_received}
use Inbox.{MessageMap, lookup, insert, erase}

abbrev pub Bytes : Type 0
Bytes = List ℕ

-- The members that the operations change, and the external control counter that they reset.
pub record Network : Type 0 where
  pub recv_msg_map : MessageMap Bytes
  pub external : ExternalControl

-- What one call of `recv` finds: a message with its group, or an exception. A call that finds
-- nothing returns an empty result at once.
pub data Delivery : Type 0 where
  message : String → Bytes → Delivery
  failure : Delivery

unfoldable pub store : String → Bytes → Network → Network
store group buf n = record n {
  recv_msg_map = insert group buf n.recv_msg_map;
  external = external_control_msg_received n.external;
}

-- `retVal.has_value() && (retVal.value() != EAGAIN)`: the value is the size of the message.
unfoldable pub is_read : ℕ → List Delivery → Bool
is_read eagain [] = false
is_read eagain (message group buf ∷ q) = not (length buf == eagain)
is_read eagain (failure ∷ q) = false

-- The loop and what follows it: the state, the returned value and what the socket still holds.
unfoldable pub pump : ℕ → Bool → List Delivery → Network → Network × Bool × List Delivery
pump eagain read_successful [] n = (n, read_successful, [])
pump eagain read_successful (failure ∷ q) n = (n, false, q)
pump eagain read_successful (message group buf ∷ q) n =
    let rest = pump eagain read_successful q (store group buf n) in
    if length buf == eagain then (n, read_successful, q) else rest

unfoldable pub receive_message_pump : ℕ → List Delivery → Network → Network × Bool × List Delivery
unfolding is_read pump
receive_message_pump eagain q n = pump eagain (is_read eagain q) q n

unfoldable pub place_failover_message : String → Bytes → Network → Network × Bool
place_failover_message group bytes n =
    (record n { recv_msg_map = insert group bytes n.recv_msg_map }, true)

-- The bytes, where the code returns `true` and writes them to its argument.
unfoldable pub get_message : String → Network → Network × Option Bytes
get_message group n = elim (lookup group n.recv_msg_map) [
  | none ↦ (n, none)
  | some bytes ↦ (record n { recv_msg_map = erase group n.recv_msg_map }, some bytes)
]

-- What a `send` returns: the bytes that were sent, nothing (it would block), or an exception.
pub data SendResult : Type 0 where
  sent : ℕ → SendResult
  would_block : SendResult
  send_failure : SendResult

unfoldable pub send_to : SendResult → Bool
send_to (sent n) = ltb 0 n
send_to would_block = false
send_to send_failure = false

-- `retVal &= sendMessage(...)` over the sockets: every socket is tried.
unfoldable pub send_loop : Bool → List SendResult → Bool
unfolding send_to
send_loop ret [] = ret
send_loop ret (r ∷ rs) = send_loop (ret && send_to r) rs

unfoldable pub send_message : List SendResult → Bool
unfolding send_loop
send_message rs = send_loop true rs
