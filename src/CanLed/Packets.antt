-- ===== src/CanLed/Packets.antt =====
-- What a Morse message of src/main/cpp/utils/drivers/CKLEDController.cpp puts on the bus.
use ckriopassthru.Base.{
  ℕ, zero, suc, ◌+◌, ◌*◌, ◌≤◌, ◌≡◌, refl, ap, sym, ◌∙◌, Bool, true, false, List, [], ◌∷◌, ◌++◌,
  arith, length, take, drop, take-append-drop, length-drop, sym,
}
use mathlib.Core.List.{append-nil, append_assoc}
use ckriopassthru.CanLed.{
  CanPacket, get_api_id, packet, morse_packets, packets, set_morse, all_space, send_packet,
  send_packets, run_can_send_thread,
}

-- The characters of the packets, one after the other.
abbrev pub contents : List CanPacket → List ℕ
contents [] = []
contents (p ∷ ps) = p.payload ++ contents ps

-- Each packet has 1 to 8 characters and the next number, starting after `n`.
abbrev pub AreNumbered : ℕ → ℕ → List CanPacket → Type 0
AreNumbered dev n [] = Unit
AreNumbered dev n (p ∷ ps) =
    (p.can_dev ≡ dev)
    × (p.api_id ≡ get_api_id 6 (n + 1))
    × (1 ≤ length p.payload)
    × (length p.payload ≤ 8)
    × AreNumbered dev (n + 1) ps

contents-morse_packets :
    (dev rounds n : ℕ) (msg : List ℕ)
    → length msg ≤ 8 * rounds
    → contents (morse_packets dev rounds n msg) ≡ msg
unfolding morse_packets packet
contents-morse_packets dev rounds n [] h = refl
contents-morse_packets dev zero n (c ∷ cs) h = ground arith
contents-morse_packets dev (suc rounds) n (c ∷ cs) h =
    let rest =
      contents-morse_packets dev rounds (n + 1) (drop 8 (c ∷ cs))
        (omega (arith, length-drop 8 (c ∷ cs))) in
    ap (λ ys. take 8 (c ∷ cs) ++ ys) rest ∙ take-append-drop 8 (c ∷ cs)

length-take_le : (n : ℕ) (xs : List ℕ) → length (take n xs) ≤ n
length-take_le zero xs = omega arith
length-take_le (suc n) [] = omega arith
length-take_le (suc n) (x ∷ xs) = omega (arith, length-take_le n xs)

morse_packets-AreNumbered :
    (dev rounds n : ℕ) (msg : List ℕ) → AreNumbered dev n (morse_packets dev rounds n msg)
unfolding morse_packets packet
morse_packets-AreNumbered dev rounds n [] = tt
morse_packets-AreNumbered dev zero n (c ∷ cs) = tt
morse_packets-AreNumbered dev (suc rounds) n (c ∷ cs) = (
  refl,
  refl,
  omega arith,
  length-take_le 8 (c ∷ cs),
  morse_packets-AreNumbered dev rounds (n + 1) (drop 8 (c ∷ cs)),
)

length-morse_packets :
    (dev rounds n : ℕ) (msg : List ℕ) → length (morse_packets dev rounds n msg) ≤ rounds
unfolding morse_packets
length-morse_packets dev rounds n [] = omega arith
length-morse_packets dev zero n (c ∷ cs) = omega arith
length-morse_packets dev (suc rounds) n (c ∷ cs) =
    omega (arith, length-morse_packets dev rounds (n + 1) (drop 8 (c ∷ cs)))

-- A Morse message of at most 32 characters that are not all spaces becomes at most four packets, of
-- 1 to 8 characters each and numbered from 1 on, which hold the message in order.
pub set_morse-contents :
    (dev : ℕ) (msg : List ℕ)
    → all_space msg ≡ false
    → length msg ≤ 32
    → (ps : List CanPacket) × (set_morse dev msg ≡ packets ps)
      × (contents ps ≡ msg)
      × AreNumbered dev 0 ps
      × (length ps ≤ 4)
unfolding set_morse
set_morse-contents dev msg h short = (
  morse_packets dev 4 0 msg,
  ground (arith, h),
  contents-morse_packets dev 4 0 msg (omega arith),
  morse_packets-AreNumbered dev 4 0 msg,
  length-morse_packets dev 4 0 msg,
)

-- The packets that found the lock free.
abbrev pub accepted : List (CanPacket × Bool) → List CanPacket
accepted [] = []
accepted ((p, true) ∷ ps) = p ∷ accepted ps
accepted ((p, false) ∷ ps) = accepted ps

pub run_can_send_thread_lem : (ps : List CanPacket) → run_can_send_thread ps ≡ (ps, [])
unfolding run_can_send_thread
run_can_send_thread_lem [] = refl
run_can_send_thread_lem (p ∷ ps) = rw (run_can_send_thread_lem ps)

send_packets_lem :
    (ps : List (CanPacket × Bool)) (list : List CanPacket)
    → send_packets ps list ≡ list ++ accepted ps
unfolding send_packets send_packet
send_packets_lem [] list = sym (append-nil list)
send_packets_lem ((p, true) ∷ ps) list =
    send_packets_lem ps (list ++ (p ∷ [])) ∙ append_assoc list (p ∷ []) (accepted ps)
send_packets_lem ((p, false) ∷ ps) list = send_packets_lem ps list

-- A pass of the sending thread sends all packets of the list in order, those that were in it before
-- and those that found its lock free since, and leaves none.
pub run_can_send_thread-send_packets :
    (ps : List (CanPacket × Bool)) (list : List CanPacket)
    → run_can_send_thread (send_packets ps list) ≡ (list ++ accepted ps, [])
run_can_send_thread-send_packets ps list =
    run_can_send_thread_lem (send_packets ps list) ∙ ap (λ ys. (ys, [])) (send_packets_lem ps list)
