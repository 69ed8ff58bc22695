-- ===== src/Network/Pump.antt =====
-- What `receiveMessagePump` of src/main/cpp/NetworkManager.cpp leaves behind.
use Prim.Native.String.{String}
use text.Mathlib.Text.{◌==◌ as str_eq}
use ckriopassthru.Base.{
  ℕ, ◌≡◌, refl, ◌≢◌, Bool, true, false, Option, none, some, List, [], ◌∷◌, ◌++◌, arith, length,
  if◌then◌else◌, ==-ne,
}
use ckriopassthru.External.{external_control_msg_received}
use ckriopassthru.Network.Inbox.{lookup, lookup-insert}
use ckriopassthru.Network.{
  Network, Bytes, Delivery, message, failure, store, is_read, pump, receive_message_pump,
}

-- Messages alone, none of them as long as the error number is large.
abbrev pub IsClean : ℕ → List Delivery → Type 0
IsClean eagain [] = Unit
IsClean eagain (message group buf ∷ q) = (length buf ≢ eagain) × IsClean eagain q
IsClean eagain (failure ∷ q) = ⊥

-- The newest message of a group in a queue.
unfoldable pub latest : String → List Delivery → Option Bytes
latest g [] = none
latest g (failure ∷ q) = latest g q
latest g (message group buf ∷ q) = elim (latest g q) [
  | some b ↦ some b
  | none ↦ if str_eq g group then some buf else none
]

abbrev pub or_else {ℓ} : {A : Type ℓ} → Option A → Option A → Option A
or_else none o = o
or_else (some a) o = some a

abbrev pub is_empty : List Delivery → Bool
is_empty [] = true
is_empty (d ∷ q) = false

store_all : List Delivery → Network → Network
store_all [] n = n
store_all (failure ∷ q) n = n
store_all (message group buf ∷ q) n = store_all q (store group buf n)

lookup-store_all :
    (g : String) (eagain : ℕ) (q : List Delivery) (n : Network)
    → IsClean eagain q
    → lookup g (store_all q n).recv_msg_map ≡ or_else (latest g q) (lookup g n.recv_msg_map)
unfolding store_all latest store
lookup-store_all g eagain [] n c = refl
lookup-store_all g eagain (failure ∷ q) n c = absurd c
lookup-store_all g eagain (message group buf ∷ q) n c = ground (
  arith,
  lookup-store_all g eagain q (store group buf n) c.1,
  lookup-insert group g buf n.recv_msg_map,
)

external-store_all :
    (eagain : ℕ) (q : List Delivery) (n : Network)
    → IsClean eagain q
    → (store_all q n).external.last_connection_time
      ≡ (if is_empty q then n.external.last_connection_time else 50)
unfolding store_all store external_control_msg_received
external-store_all eagain [] n c = refl
external-store_all eagain (failure ∷ q) n c = absurd c
external-store_all eagain (message group buf ∷ q) n c =
    ground (arith, external-store_all eagain q (store group buf n) c.1)

pump-append :
    (eagain : ℕ) (b : Bool) (p q : List Delivery) (n : Network)
    → IsClean eagain p
    → pump eagain b (p ++ q) n ≡ pump eagain b q (store_all p n)
unfolding pump store_all
pump-append eagain b [] q n c = refl
pump-append eagain b (failure ∷ p) q n c = absurd c
pump-append eagain b (message group buf ∷ p) q n c =
    rw (==-ne (length buf) eagain c.0) (pump-append eagain b p q (store group buf n) c.1)

pump-clean :
    (eagain : ℕ) (b : Bool) (q : List Delivery) (n : Network)
    → IsClean eagain q
    → pump eagain b q n ≡ (store_all q n, b, [])
unfolding pump store_all
pump-clean eagain b [] n c = refl
pump-clean eagain b (failure ∷ q) n c = absurd c
pump-clean eagain b (message group buf ∷ q) n c =
    rw (==-ne (length buf) eagain c.0) (pump-clean eagain b q (store group buf n) c.1)

is_read-clean :
    (eagain : ℕ) (q : List Delivery)
    → IsClean eagain q
    → is_read eagain q ≡ (if is_empty q then false else true)
unfolding is_read
is_read-clean eagain [] c = refl
is_read-clean eagain (failure ∷ q) c = absurd c
is_read-clean eagain (message group buf ∷ q) c = rw (==-ne (length buf) eagain c.0)

is_read-append :
    (eagain : ℕ) (p q : List Delivery)
    → IsClean eagain p
    → is_read eagain q ≡ false
    → is_read eagain (p ++ q) ≡ (if is_empty p then false else true)
unfolding is_read
is_read-append eagain [] q c e = e
is_read-append eagain (failure ∷ p) q c e = absurd c
is_read-append eagain (message group buf ∷ p) q c e = rw (==-ne (length buf) eagain c.0)

-- On a queue of messages alone, none as long as the error number, the pump empties the queue,
-- returns whether there was a message, keeps the newest message of each group (an older one of a
-- group that got none), and restarts the external control timeout if there was a message.
pub receive_message_pump_lem :
    (eagain : ℕ) (q : List Delivery) (n : Network) (g : String)
    → IsClean eagain q
    → let (n', read, left) = receive_message_pump eagain q n in
      (left ≡ [])
      × (read ≡ (if is_empty q then false else true))
      × (lookup g n'.recv_msg_map ≡ or_else (latest g q) (lookup g n.recv_msg_map))
      × (n'.external.last_connection_time
          ≡ (if is_empty q then n.external.last_connection_time else 50))
unfolding receive_message_pump
receive_message_pump_lem eagain q n g c = rw (pump-clean eagain (is_read eagain q) q n c) (
  refl,
  is_read-clean eagain q c,
  lookup-store_all g eagain q n c,
  external-store_all eagain q n c,
)

-- A message as long as the error number ends the pump: it is dropped, the messages behind it stay
-- in the socket, and those before it are stored.
pub receive_message_pump-eagain :
    (eagain : ℕ) (p q : List Delivery) (n : Network) (group : String) (buf : Bytes)
    → IsClean eagain p
    → length buf ≡ eagain
    → let r = receive_message_pump eagain (p ++ message group buf ∷ q) n in
      (r.2 ≡ q)
      × (r.0 ≡ (receive_message_pump eagain p n).0)
      × (r.1 ≡ (if is_empty p then false else true))
unfolding receive_message_pump pump is_read
receive_message_pump-eagain eagain p q n group buf c h =
    let e = is_read-append eagain p (message group buf ∷ q) c (ground arith) in
    rw (pump-append eagain _ p (message group buf ∷ q) n c, pump-clean eagain _ p n c, e)
      (ground arith)

-- An exception ends the pump, which then returns false; the messages before it are stored, and what
-- is behind it stays in the socket.
receive_message_pump-failure :
    (eagain : ℕ) (p q : List Delivery) (n : Network)
    → IsClean eagain p
    → receive_message_pump eagain (p ++ failure ∷ q) n
      ≡ ((receive_message_pump eagain p n).0, false, q)
unfolding receive_message_pump pump is_read
receive_message_pump-failure eagain p q n c =
    rw (pump-append eagain _ p (failure ∷ q) n c, pump-clean eagain _ p n c)
