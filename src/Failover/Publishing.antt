-- ===== src/Failover/Publishing.antt =====
-- What src/main/cpp/failover/FailoverMessageManager.cpp publishes, and what the tasks that read it apply.
use Prim.Native.String.{String}
use text.Mathlib.Text.{◌==◌ as str_eq}
use text.Mathlib.TextPositions.{eq_refl}
use ckriopassthru.Base.{
  ℕ, zero, suc, ◌+◌, ◌%◌, ◌^◌, ◌<◌, ◌≡◌, refl, false, Option, none, some, ◌==◌, arith, ◌-◌, ltb,
  Bool-cases, inl, inr, ◌∙◌, ap,
}
use ckriopassthru.Network.{Network, Bytes, place_failover_message}
use ckriopassthru.Network.Inbox.{lookup, lookup-insert}
use ckriopassthru.Failover.Messages.{Messages, Serializer, place, publish_messages}

-- The remainders of a counter of 32 bits: within 25 steps one is 0, also where the counter wraps.
counter_hits : (c : ℕ) → c < 2 ^ 32 → (k : ℕ) × (k < 25) × ((c + k) % 2 ^ 32 % 25 ≡ 0)
counter_hits c h =
    let d = (25 - c % 25) % 25 in
    elim (Bool-cases (ltb (c + d) (2 ^ 32))) [
      | inl e ↦ (d, omega arith, ground arith)
      | inr e ↦ (2 ^ 32 - c, ground arith, ground arith)
    ]

place_other :
    (group other : String) (bytes : Option Bytes) (n : Network)
    → str_eq other group ≡ false
    → lookup other (place group bytes n).recv_msg_map ≡ lookup other n.recv_msg_map
unfolding place place_failover_message
place_other group other none n ne = refl
place_other group other (some buf) n ne = rw (lookup-insert group other buf n.recv_msg_map, ne)

place_same :
    (group : String) (bytes : Option Bytes) (buf : Bytes) (n : Network)
    → bytes ≡ some buf
    → lookup group (place group bytes n).recv_msg_map ≡ some buf
unfolding place place_failover_message
place_same group bytes buf n e = rw (e, lookup-insert group group buf n.recv_msg_map, eq_refl group)

module _ {Value : Type 0} (serializer : Serializer Value) where
  open serializer use {
    motor_control_bytes, motor_configuration_bytes, solenoid_control_bytes, led_control_bytes,
  }

  -- Every publication puts the control messages of the motors into the map, if the serializer
  -- succeeds for them.
  pub publish_messages-motors :
      (s : Messages Value) (n : Network) (motors : Bytes)
      → motor_control_bytes s.motor_control ≡ some motors
      → lookup "motorcontrol" (publish_messages serializer (s, n)).1.recv_msg_map ≡ some motors
  unfolding publish_messages
  publish_messages-motors s n motors hm =
      let m2 = solenoid_control_bytes s.solenoid_control in
      let m3 = motor_configuration_bytes s.motor_configuration in
      let n1 = place "motorcontrol" (motor_control_bytes s.motor_control) n in
      let n2 = place "solenoidcontrol" m2 n1 in
      let n3 = place "motorconfig" m3 n2 in
      let kept =
        place_other "solenoidcontrol" "motorcontrol" m2 n1 refl
        ∙ place_same "motorcontrol" (motor_control_bytes s.motor_control) motors n hm in
      elim (Bool-cases (s.loop_counter % 25 == 0)) [
        | inl e ↦ rw e (
            place_other "ledcontrol" "motorcontrol" _ n3 refl
            ∙ (place_other "motorconfig" "motorcontrol" m3 n2 refl ∙ kept))
        | inr e ↦ rw e kept
      ]

  -- Every publication puts the control messages of the motors and of the solenoids into the map, if
  -- the serializer succeeds for both.
  pub publish_messages-controls :
      (s : Messages Value) (n : Network) (motors solenoids : Bytes)
      → motor_control_bytes s.motor_control ≡ some motors
      → solenoid_control_bytes s.solenoid_control ≡ some solenoids
      → let (s', n') = publish_messages serializer (s, n) in
        (lookup "motorcontrol" n'.recv_msg_map ≡ some motors)
        × (lookup "solenoidcontrol" n'.recv_msg_map ≡ some solenoids)
  unfolding publish_messages
  publish_messages-controls s n motors solenoids hm hs =
      let m2 = solenoid_control_bytes s.solenoid_control in
      let m3 = motor_configuration_bytes s.motor_configuration in
      let n1 = place "motorcontrol" (motor_control_bytes s.motor_control) n in
      let n3 = place "motorconfig" m3 (place "solenoidcontrol" m2 n1) in
      let kept = place_same "solenoidcontrol" m2 solenoids n1 hs in
      let motors_kept = publish_messages-motors s n motors hm in
      elim (Bool-cases (s.loop_counter % 25 == 0)) [
        | inl e ↦ (
          motors_kept,
          rw e (
              place_other "ledcontrol" "solenoidcontrol" _ n3 refl
              ∙ (place_other "motorconfig" "solenoidcontrol" m3 (place "solenoidcontrol" m2 n1) refl
                  ∙ kept)),
        )
        | inr e ↦ (motors_kept, rw e kept)
      ]

  -- A publication that reaches the configurations.
  publish_messages-configs :
      (s : Messages Value) (n : Network) (configs leds : Bytes)
      → s.loop_counter % 25 ≡ 0
      → motor_configuration_bytes s.motor_configuration ≡ some configs
      → led_control_bytes s.led_control ≡ some leds
      → let (s', n') = publish_messages serializer (s, n) in
        (lookup "motorconfig" n'.recv_msg_map ≡ some configs)
        × (lookup "ledcontrol" n'.recv_msg_map ≡ some leds)
  unfolding publish_messages
  publish_messages-configs s n configs leds due hc hl =
      let m1 = motor_control_bytes s.motor_control in
      let m2 = solenoid_control_bytes s.solenoid_control in
      let m3 = motor_configuration_bytes s.motor_configuration in
      let n2 = place "solenoidcontrol" m2 (place "motorcontrol" m1 n) in
      let n3 = place "motorconfig" m3 n2 in
      rw due (
        place_other "ledcontrol" "motorconfig" _ n3 refl
            ∙ place_same "motorconfig" m3 configs n2 hc,
        place_same "ledcontrol" _ leds n3 hl,
      )

  abbrev pub publish_times : ℕ → Messages Value × Network → Messages Value × Network
  publish_times zero p = p
  publish_times (suc k) p = publish_messages serializer (publish_times k p)

  -- Publishing changes the counter alone.
  publish_times_lem :
      (k : ℕ) (s : Messages Value) (n : Network)
      → s.loop_counter < 2 ^ 32
      → (publish_times k (s, n)).0 ≡ record s { loop_counter = (s.loop_counter + k) % 2 ^ 32 }
  unfolding publish_messages
  publish_times_lem zero s n h = ap (λ c. record s { loop_counter = c }) (ground arith)
  publish_times_lem (suc k) s n h =
      rw (publish_times_lem k s n h) (ap (λ c. record s { loop_counter = c }) (ground arith))

  -- Among 25 publications in a row, whatever the counter is and also where it wraps, there is one
  -- after which the motor configuration and the LED messages are in the map of the network, if the
  -- serializer succeeds for both.
  pub publish_times-configs :
      (s : Messages Value) (n : Network) (configs leds : Bytes)
      → s.loop_counter < 2 ^ 32
      → motor_configuration_bytes s.motor_configuration ≡ some configs
      → led_control_bytes s.led_control ≡ some leds
      → (k : ℕ) × (k < 25)
        × (lookup "motorconfig" (publish_times (suc k) (s, n)).1.recv_msg_map ≡ some configs)
        × (lookup "ledcontrol" (publish_times (suc k) (s, n)).1.recv_msg_map ≡ some leds)
  publish_times-configs s n configs leds bound hc hl =
      let (k, small, due) = counter_hits s.loop_counter bound in
      let (s', n') = publish_times k (s, n) in
      let same = publish_times_lem k s n bound in
      let found =
        publish_messages-configs s' n' configs leds (rw same due) (rw same hc) (rw same hl) in
      (k, small, found.0, found.1)
