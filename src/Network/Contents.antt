-- ===== src/Network/Contents.antt =====
-- A property of every message that src/main/cpp/NetworkManager.cpp keeps for a group: it holds of what is
-- kept if it holds of what arrives and of what is placed.
use Prim.Native.String.{String}
use text.Mathlib.Text.{◌==◌ as str_eq}
use ckriopassthru.Base.{
  ℕ, ◌≡◌, ◌∙◌, Bool, true, none, some, List, [], ◌∷◌, arith, length, ◌==◌, inl, inr, Bool-cases,
  Option-cases,
}
use ckriopassthru.Network.Inbox.{lookup, lookup-insert, lookup-erase}
use ckriopassthru.Network.{
  Network, Bytes, place_failover_message, Delivery, message, failure, store, pump,
  receive_message_pump, get_message,
}

module _ (group : String) (Q : Bytes → Type 0) where
  abbrev pub Keeps : Network → Type 0
  Keeps n = (buf : Bytes) → lookup group n.recv_msg_map ≡ some buf → Q buf

  -- What a queue holds for the group.
  abbrev pub Brings : List Delivery → Type 0
  Brings [] = Unit
  Brings (failure ∷ q) = Brings q
  Brings (message g buf ∷ q) = (str_eq group g ≡ true → Q buf) × Brings q

  store-Keeps :
      (g : String) (buf : Bytes) (n : Network)
      → (str_eq group g ≡ true → Q buf)
      → Keeps n
      → Keeps (store g buf n)
  unfolding store
  store-Keeps g buf n new old b h = elim (Bool-cases (str_eq group g)) [
    | inl e ↦
        let q : some buf ≡ some b = rw (lookup-insert g group buf n.recv_msg_map, e) at h in
        let p = new e in ground (arith, p, q)
    | inr e ↦ old b (rw (lookup-insert g group buf n.recv_msg_map, e) at h)
  ]

  pub place_failover_message-Keeps :
      (g : String) (buf : Bytes) (n : Network)
      → (str_eq group g ≡ true → Q buf)
      → Keeps n
      → Keeps (place_failover_message g buf n).0
  unfolding place_failover_message store
  place_failover_message-Keeps g buf n new old = store-Keeps g buf n new old

  pump-Keeps :
      (eagain : ℕ) (read : Bool) (q : List Delivery) (n : Network)
      → Brings q
      → Keeps n
      → Keeps (pump eagain read q n).0
  unfolding pump
  pump-Keeps eagain read [] n b k = k
  pump-Keeps eagain read (failure ∷ q) n b k = k
  pump-Keeps eagain read (message g buf ∷ q) n b k = elim (Bool-cases (length buf == eagain)) [
    | inl e ↦ rw e k
    | inr e ↦ rw e (pump-Keeps eagain read q (store g buf n) b.1 (store-Keeps g buf n b.0 k))
  ]

  pub receive_message_pump-Keeps :
      (eagain : ℕ) (q : List Delivery) (n : Network)
      → Brings q
      → Keeps n
      → Keeps (receive_message_pump eagain q n).0
  unfolding receive_message_pump
  receive_message_pump-Keeps eagain q n b k = pump-Keeps eagain _ q n b k

  pub get_message-Keeps : (g : String) (n : Network) → Keeps n → Keeps (get_message g n).0
  unfolding get_message
  get_message-Keeps g n k = elim (Option-cases (lookup g n.recv_msg_map)) [
    | inl e ↦ rw (e, get_message) k
    | inr (buf, e) ↦
        rw (e, get_message)
          (λ b h. elim (Bool-cases (str_eq group g)) [
            | inl same ↦
                let q : none ≡ some b = rw (lookup-erase g group n.recv_msg_map, same) at h in
                ground (arith, q)
            | inr other ↦ k b (rw (lookup-erase g group n.recv_msg_map, other) at h)
          ])
  ]

  -- What a reader of the group gets.
  pub get_message-Q :
      (n : Network) (buf : Bytes) → Keeps n → (get_message group n).1 ≡ some buf → Q buf
  unfolding get_message
  get_message-Q n buf k h = elim (Option-cases (lookup group n.recv_msg_map)) [
    | inl e ↦ let q : none ≡ some buf = rw (e, get_message) at h in ground (arith, q)
    | inr (b, e) ↦ k buf (e ∙ (rw (e, get_message) at h))
  ]
