-- ===== src/Network/Send.antt =====
-- Messages kept for a reader, and messages sent: src/main/cpp/NetworkManager.cpp.
use Prim.Native.String.{String}
use text.Mathlib.Text.{◌==◌ as str_eq}
use text.Mathlib.TextPositions.{eq_refl}
use ckriopassthru.Base.{
  ◌<◌, ◌≡◌, refl, ◌↔◌, true, false, none, some, List, [], ◌∷◌, arith, if◌then◌else◌,
}
use ckriopassthru.Network.Inbox.{MessageMap, lookup, insert, erase, lookup-insert, lookup-erase}
use ckriopassthru.Network.{
  Network, Bytes, get_message, place_failover_message, SendResult, sent, would_block, send_failure,
  send_loop, send_message,
}

lookup-insert_self :
    (group : String) (bytes : Bytes) (m : MessageMap Bytes)
    → lookup group (insert group bytes m) ≡ some bytes
lookup-insert_self group bytes m = simp (lookup-insert, eq_refl)

lookup-erase_self : (group : String) (m : MessageMap Bytes) → lookup group (erase group m) ≡ none
lookup-erase_self group m = simp (lookup-erase, eq_refl)

lookup-erase-insert :
    (group other : String) (bytes : Bytes) (m : MessageMap Bytes)
    → lookup other (erase group (insert group bytes m))
      ≡ (if str_eq other group then none else lookup other m)
lookup-erase-insert group other bytes m =
    ground
      (arith, lookup-erase group other (insert group bytes m), lookup-insert group other bytes m)

pub get_message_found :
    (group : String) (bytes : Bytes) (n : Network)
    → lookup group n.recv_msg_map ≡ some bytes
    → get_message group n ≡ (record n { recv_msg_map = erase group n.recv_msg_map }, some bytes)
unfolding get_message
get_message_found group bytes n h = rw (h, get_message)

get_message_missing :
    (group : String) (n : Network)
    → lookup group n.recv_msg_map ≡ none
    → get_message group n ≡ (n, none)
unfolding get_message
get_message_missing group n h = rw (h, get_message)

-- Reading a message takes it out: the reader gets the bytes placed last, a second read finds
-- nothing, and every other group keeps its message.
pub get_message-place_failover_message :
    (group other : String) (bytes : Bytes) (n : Network)
    → let r = get_message group (place_failover_message group bytes n).0 in
      (r.1 ≡ some bytes)
      × (get_message group r.0 ≡ (r.0, none))
      × (lookup other r.0.recv_msg_map
          ≡ (if str_eq other group then none else lookup other n.recv_msg_map))
unfolding place_failover_message
get_message-place_failover_message group other bytes n =
    let placed = (place_failover_message group bytes n).0 in
    rw (get_message_found group bytes placed (lookup-insert_self group bytes n.recv_msg_map)) (
      refl,
      get_message_missing group _ (lookup-erase_self group (insert group bytes n.recv_msg_map)),
      lookup-erase-insert group other bytes n.recv_msg_map,
    )

-- Every socket took at least one byte.
abbrev pub AllSent : List SendResult → Type 0
AllSent [] = Unit
AllSent (sent n ∷ rs) = (0 < n) × AllSent rs
AllSent (would_block ∷ rs) = ⊥
AllSent (send_failure ∷ rs) = ⊥

send_loop-false : (rs : List SendResult) → send_loop false rs ≡ false
unfolding send_loop
send_loop-false [] = refl
send_loop-false (r ∷ rs) = send_loop-false rs

send_loop_to : (rs : List SendResult) → send_loop true rs ≡ true → AllSent rs
unfolding send_loop
send_loop_to [] h = tt
send_loop_to (sent n ∷ rs) h = ground (arith, send_loop_to rs, send_loop-false rs)
send_loop_to (would_block ∷ rs) h = ground (arith, send_loop-false rs)
send_loop_to (send_failure ∷ rs) h = ground (arith, send_loop-false rs)

send_loop_of : (rs : List SendResult) → AllSent rs → send_loop true rs ≡ true
unfolding send_loop
send_loop_of [] h = refl
send_loop_of (sent n ∷ rs) h = ground (arith, send_loop_of rs h.1)
send_loop_of (would_block ∷ rs) h = absurd h
send_loop_of (send_failure ∷ rs) h = absurd h

-- A message counts as sent exactly if every socket sent at least one byte of it.
send_message-AllSent : (rs : List SendResult) → (send_message rs ≡ true) ↔ AllSent rs
unfolding send_message
send_message-AllSent rs = (send_loop_to rs, send_loop_of rs)
