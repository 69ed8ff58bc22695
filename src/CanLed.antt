-- ===== src/CanLed.antt =====
-- src/main/cpp/utils/drivers/CKLEDController.cpp and src/main/cpp/CKCANServer.cpp: the packets of an LED
-- controller on the CAN bus, and the list from which the server sends them. A character is its code.
-- Whether `try_lock` gets the lock is an argument; console output is left out.
pub mod Morse
pub mod Packets
pub mod Server
use ckriopassthru.Base.{
  ℕ, zero, suc, ◌+◌, ◌*◌, ◌/◌, ◌%◌, ◌^◌, Bool, true, false, List, [], ◌∷◌, ◌++◌, ◌==◌, ◌&&◌, ◌||◌,
  ltb, leb, length, take, drop, if◌then◌else◌,
}

pub data ApiClass : Type 0 where
  idle off fixed_on blink comm_loss comm_restored morse driver_signal endgame fade : ApiClass

abbrev pub class_number : ApiClass → ℕ
class_number idle = 0
class_number off = 1
class_number fixed_on = 2
class_number blink = 3
class_number comm_loss = 4
class_number comm_restored = 5
class_number morse = 6
class_number driver_signal = 7
class_number endgame = 8
class_number fade = 9

-- `((apiClass << 4) & 0x3F0) | (apiIndex & 0x00F)` of numbers that are not negative.
unfoldable pub get_api_id : ℕ → ℕ → ℕ
get_api_id api_class api_index = api_class * 16 % 1024 + api_index % 16

pub record CanPacket : Type 0 where
  pub can_dev : ℕ
  pub api_id : ℕ
  pub payload : List ℕ

pub record RgbColor : Type 0 where
  pub white : ℕ
  pub red : ℕ
  pub green : ℕ
  pub blue : ℕ

-- The conversion to a byte, of a number that is not negative, and the second byte of one.
abbrev low_byte : ℕ → ℕ
low_byte n = n % 2 ^ 8

abbrev high_byte : ℕ → ℕ
high_byte n = n / 2 ^ 8 % 2 ^ 8

-- The packet that an operation of the controller `dev` sends.
unfoldable pub packet : ℕ → ApiClass → ℕ → List ℕ → CanPacket
unfolding get_api_id
packet dev api_class api_index buf = record {
  can_dev = dev;
  api_id = get_api_id (class_number api_class) api_index;
  payload = buf;
}

module _ (dev : ℕ) where
  unfoldable pub set_on : CanPacket
  unfolding packet
  set_on = packet dev fixed_on 0 (0 ∷ [])

  unfoldable pub set_off : CanPacket
  unfolding packet
  set_off = packet dev off 0 (0 ∷ [])

  unfoldable pub set_blink : CanPacket
  unfolding packet
  set_blink = packet dev blink 0 (0 ∷ [])

  unfoldable pub set_comm_loss : CanPacket
  unfolding packet
  set_comm_loss = packet dev comm_loss 0 (0 ∷ [])

  unfoldable pub set_comm_restored : CanPacket
  unfolding packet
  set_comm_restored = packet dev comm_restored 0 (0 ∷ [])

  unfoldable pub set_fade : CanPacket
  unfolding packet
  set_fade = packet dev fade 0 (0 ∷ [])

  unfoldable pub set_float_pixel : RgbColor → ℕ → ℕ → CanPacket
  unfolding packet
  set_float_pixel c count spacing = packet dev fixed_on 5 (
      c.white
      ∷ c.red
      ∷ c.green
      ∷ c.blue
      ∷ low_byte count
      ∷ high_byte count
      ∷ low_byte spacing
      ∷ high_byte spacing
      ∷ [])

  unfoldable pub set_color : RgbColor → CanPacket
  unfolding packet
  set_color c = packet dev idle 1 (c.white ∷ c.red ∷ c.green ∷ c.blue ∷ [])

  unfoldable pub set_brightness : ℕ → CanPacket
  unfolding packet
  set_brightness brightness = packet dev idle 2 (low_byte brightness ∷ [])

  unfoldable pub set_default_state : ℕ → CanPacket
  unfolding packet
  set_default_state state = packet dev idle 4 (low_byte state ∷ [])

  unfoldable pub configure_blink : ℕ → ℕ → CanPacket
  unfolding packet
  configure_blink count rate =
      packet dev idle 3 (low_byte rate ∷ high_byte rate ∷ low_byte count ∷ [])

  -- The loop of `setMorse`: the rounds that `msgCounter < 4` leaves, and the counter.
  unfoldable pub morse_packets : ℕ → ℕ → List ℕ → List CanPacket
  unfolding packet
  morse_packets rounds counter [] = []
  morse_packets zero counter (c ∷ cs) = []
  morse_packets (suc rounds) counter (c ∷ cs) =
      packet dev morse (counter + 1) (take 8 (c ∷ cs))
      ∷ morse_packets rounds (counter + 1) (drop 8 (c ∷ cs))

-- `std::isspace` in the C locale.
abbrev pub is_space : ℕ → Bool
is_space c = c == 32 || leb 9 c && leb c 13

abbrev pub all_space : List ℕ → Bool
all_space [] = true
all_space (c ∷ cs) = is_space c && all_space cs

-- What `setMorse` does: an error report, or packets.
pub data MorseResult : Type 0 where
  empty_message too_long : MorseResult
  packets : List CanPacket → MorseResult

unfoldable pub set_morse : ℕ → List ℕ → MorseResult
unfolding morse_packets
set_morse dev msg =
    if all_space msg
    then empty_message
    else if ltb 32 (length msg)
    then too_long
    else packets (morse_packets dev 4 0 msg)

-- `sendPacket` on the server's list, and whether it took the packet.
unfoldable pub send_packet : Bool → CanPacket → List CanPacket → List CanPacket × Bool
send_packet lock_acquired p list = if lock_acquired then (list ++ (p ∷ []), true) else (list, false)

-- The packets that the controller sends, each with whether its `try_lock` succeeds; the results are
-- not used.
unfoldable pub send_packets : List (CanPacket × Bool) → List CanPacket → List CanPacket
unfolding send_packet
send_packets [] list = list
send_packets ((p, lock_acquired) ∷ ps) list = send_packets ps (send_packet lock_acquired p list).0

-- The loop of the thread over the list: what is written to the bus, and the list after it.
unfoldable pub run_can_send_thread : List CanPacket → List CanPacket × List CanPacket
run_can_send_thread [] = ([], [])
run_can_send_thread (p ∷ ps) = let (written, rest) = run_can_send_thread ps in (p ∷ written, rest)
