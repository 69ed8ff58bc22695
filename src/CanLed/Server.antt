-- ===== src/CanLed/Server.antt =====
-- The thread of src/main/cpp/CKCANServer.cpp with the controllers that send packets: the thread holds the lock on the
-- list over a whole round of its loop, the wait of doRateControl included, and a packet is taken only
-- where `try_lock` gets the lock.
use mathlib.Core.List.{append_assoc, append-nil}
use ckriopassthru.CanLed.Packets.{run_can_send_thread_lem}
use ckriopassthru.Base.{
  ℕ, subst, arith, ◌≡◌, refl, sym, ap, ◌∙◌, Bool, true, false, List, [], ◌∷◌, ◌++◌,
}
use ckriopassthru.CanLed.{CanPacket, send_packet, run_can_send_thread}

-- Where the thread is: at the test of the loop, in the loop over the list, in the wait, or at its end.
pub data Phase : Type 0 where
  testing draining waiting ended : Phase

abbrev pub is_free : Phase → Bool
is_free testing = true
is_free draining = false
is_free waiting = false
is_free ended = true

pub record CanServer : Type 0 where
  pub packet_list : List CanPacket
  pub thread_active : Bool
  pub phase : Phase

abbrev pub can_server : CanServer
can_server = record { packet_list = []; thread_active = true; phase = testing }

-- A packet that `sendPacket` is called with and whether it is taken, one that WritePacketNoError is called
-- with and the status that it returns, which the code drops, and what nobody sees.
pub data Action : Type 0 where
  sent : CanPacket → Bool → Action
  wrote : CanPacket → ℕ → Action
  silent : Action

-- `try_lock` gets the lock only where it is free, and may fail then too. The test of the loop and the lock
-- after it are one step.
pub data Step : CanServer → Action → CanServer → Type 0 where
  send :
      (s : CanServer) (p : CanPacket) (lock_acquired : Bool)
      → (lock_acquired ≡ true → is_free s.phase ≡ true)
      → Step s
          (sent p lock_acquired)
          (record s { packet_list = (send_packet lock_acquired p s.packet_list).0 })
  lock_list :
      (s : CanServer)
      → s.phase ≡ testing
      → s.thread_active ≡ true
      → Step s silent (record s { phase = draining })
  write :
      (s : CanServer) (p : CanPacket) (ps : List CanPacket) (status : ℕ)
      → s.phase ≡ draining
      → s.packet_list ≡ p ∷ ps
      → Step s (wrote p status) (record s { packet_list = ps })
  wait :
      (s : CanServer)
      → s.phase ≡ draining
      → s.packet_list ≡ []
      → Step s silent (record s { phase = waiting })
  unlock_list : (s : CanServer) → s.phase ≡ waiting → Step s silent (record s { phase = testing })
  leave :
      (s : CanServer)
      → s.phase ≡ testing
      → s.thread_active ≡ false
      → Step s silent (record s { phase = ended })
  destroy : (s : CanServer) → Step s silent (record s { thread_active = false })

pub data Run : CanServer → List Action → CanServer → Type 0 where
  done : {s : CanServer} → Run s [] s
  go :
      {s t u : CanServer} {a : Action} {rest : List Action}
      → Step s a t
      → Run t rest u
      → Run s (a ∷ rest) u

abbrev pub taken : List Action → List CanPacket
taken [] = []
taken (sent p true ∷ rest) = p ∷ taken rest
taken (e ∷ rest) = taken rest

abbrev pub attempted : List Action → List CanPacket
attempted [] = []
attempted (wrote p status ∷ rest) = p ∷ attempted rest
attempted (e ∷ rest) = attempted rest

-- The packets in the list and those that are taken are those that were tried to write and those still in it.
abbrev Balance : CanServer → List Action → CanServer → Type 0
Balance s es t = s.packet_list ++ taken es ≡ attempted es ++ t.packet_list

Step-Balance :
    {s t : CanServer} {e : Action} (es : List Action) (u : CanServer)
    → Step s e t
    → Balance t es u
    → Balance s (e ∷ es) u
unfolding send_packet
Step-Balance es u (send s p true free) h = sym (append_assoc s.packet_list (p ∷ []) (taken es)) ∙ h
Step-Balance es u (send s p false free) h = h
Step-Balance es u (lock_list s at on) h = h
Step-Balance es u (write s p ps status at e) h = rw e (ap (λ rest. p ∷ rest) h)
Step-Balance es u (wait s at e) h = h
Step-Balance es u (unlock_list s at) h = h
Step-Balance es u (leave s at off) h = h
Step-Balance es u (destroy s) h = h

Run-Balance : {s t : CanServer} {es : List Action} → Run s es t → Balance s es t
Run-Balance (done {s}) = append-nil s.packet_list
Run-Balance (go {u} {rest} st r) = Step-Balance rest u st (Run-Balance r)

-- In every interleaving of the thread of the CAN server with calls of sendPacket and the
-- destructor, from the start, the packets that were taken are those that the thread tried to write
-- to the bus, each once and whatever the write returned, and after them those in the list, in this
-- order.
pub taken-attempted :
    (es : List Action) (s : CanServer)
    → Run can_server es s
    → taken es ≡ attempted es ++ s.packet_list
taken-attempted es s r = Run-Balance r

-- After the end of the thread nothing is attempted.
attempted-ended :
    {s t : CanServer} {es : List Action} → Run s es t → s.phase ≡ ended → attempted es ≡ []
attempted-ended done at = refl
attempted-ended (go (send s p lock_acquired free) r) at = attempted-ended r at
attempted-ended (go (lock_list s at' on) r) at = ground (arith, at, at')
attempted-ended (go (write s p ps status at' e) r) at = ground (arith, at, at')
attempted-ended (go (wait s at' e) r) at = ground (arith, at, at')
attempted-ended (go (unlock_list s at') r) at = ground (arith, at, at')
attempted-ended (go (leave s at' off) r) at = ground (arith, at, at')
attempted-ended (go (destroy s) r) at = attempted-ended r at

-- The writes of a round, as a list of actions.
abbrev pub writes : (CanPacket → ℕ) → List CanPacket → List Action
writes status [] = []
writes status (p ∷ ps) = wrote p (status p) ∷ writes status ps

Run-draining :
    (status : CanPacket → ℕ) (ps : List CanPacket) (s : CanServer)
    → s.phase ≡ draining
    → s.packet_list ≡ ps
    → Run s
        (writes status ps ++ (silent ∷ silent ∷ []))
        (record s { packet_list = []; phase = testing })
Run-draining status [] s at e =
    subst (λ ps. Run s (silent ∷ silent ∷ []) (record s { packet_list = ps; phase = testing })) e
      (go (wait s at e) (go (unlock_list (record s { phase = waiting }) refl) done))
Run-draining status (p ∷ ps) s at e =
    go (write s p ps (status p) at e)
      (Run-draining status ps (record s { packet_list = ps }) at refl)

-- Where the thread is active and at the test of its loop, it can make a round on its own, which writes
-- what `run_can_send_thread` writes and leaves the list as that does.
pub Run-run_can_send_thread :
    (status : CanPacket → ℕ) (s : CanServer)
    → s.phase ≡ testing
    → s.thread_active ≡ true
    → let (out, list) = run_can_send_thread s.packet_list in
      Run s
        (silent ∷ writes status out ++ (silent ∷ silent ∷ []))
        (record s { packet_list = list; phase = testing })
Run-run_can_send_thread status s at on = rw (run_can_send_thread_lem s.packet_list) (
    go (lock_list s at on)
      (Run-draining status s.packet_list (record s { phase = draining }) refl refl))
