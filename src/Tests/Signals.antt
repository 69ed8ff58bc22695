-- ===== src/Tests/Signals.antt =====
-- Runs of the drive with two sides, the LED packets and the server of packets.
use ckriopassthru.Base.{ℕ, ◌≡◌, ◌≤◌, ◌++◌, length, refl, true, false, none, List, [], ◌∷◌, arith}
use ckriopassthru.Failover.Swerve.{Inputs}
use ckriopassthru.Failover.Ramp.{ValueRamper, IsBetween, IsStep, ramp, ramp-IsBetween}
use ckriopassthru.Failover.Drivetrain.{Drivetrain, drive_outputs}
use ckriopassthru.Failover.Drivetrain.Limits.{IsLimited, drive_outputs-IsLimited}
use ckriopassthru.CanLed.{CanPacket, packets, set_morse, set_on, set_off, send_packet}
use ckriopassthru.CanLed.Server.{
  CanServer, can_server, testing, draining, waiting, sent, wrote, silent, Run, go, done, send,
  lock_list, write, wait, unlock_list, taken-attempted,
}
use ckriopassthru.CanLed.Packets.{contents, AreNumbered, set_morse-contents}
use ckriopassthru.CanLed.Morse.{get_translated_msg, read, known, read-get_translated_msg}
use ckriopassthru.Tests.Numbers.{Sign, minus, nought, plus, signs, signs-IsOrdered}

any_step : (p : Sign) → IsStep signs p plus
any_step p = record { not_negative = refl; sum = ground arith; difference = ground arith }

ramp-IsBetween_example : IsBetween signs minus (ramp signs plus plus minus plus) plus
ramp-IsBetween_example =
    ramp-IsBetween signs signs-IsOrdered plus plus minus plus refl refl (any_step minus)
      (any_step minus)

-- The word "SOS ", and a packet.
abbrev sos : List ℕ
sos = 83 ∷ 79 ∷ 83 ∷ 32 ∷ []

set_morse-contents_example :
    (ps : List CanPacket) × (set_morse 7 sos ≡ packets ps)
    × (contents ps ≡ sos)
    × AreNumbered 7 0 ps
    × (length ps ≤ 4)
set_morse-contents_example = set_morse-contents 7 sos refl (omega arith)

read-get_translated_msg_example : read (get_translated_msg sos []) ≡ read [] ++ known sos
read-get_translated_msg_example = read-get_translated_msg sos []

-- A packet is taken while the list is free, one is refused in the round that writes the first, which
-- fails with status 5, and then it is taken.
abbrev light : CanPacket
light = set_on 7

abbrev dark : CanPacket
dark = set_off 7

abbrev after_round : CanServer
after_round = record { packet_list = dark ∷ []; thread_active = true; phase = testing }

one_round :
    Run can_server
      (sent light true
        ∷ silent
        ∷ sent dark false
        ∷ wrote light 5
        ∷ silent
        ∷ silent
        ∷ sent dark true
        ∷ [])
      after_round
unfolding send_packet
one_round =
    let locked : CanServer = record {
      packet_list = light ∷ [];
      thread_active = true;
      phase = draining;
    } in
    let empty : CanServer = record { packet_list = []; thread_active = true; phase = draining } in
    go (send can_server light true (λ e. refl)) (
      go (lock_list (record can_server { packet_list = light ∷ [] }) refl refl) (
        go (send locked dark false (λ e. ground (arith, e))) (
          go (write locked light [] 5 refl refl) (
            go (wait empty refl refl) (
              go (unlock_list (record empty { phase = waiting }) refl)
                (go (send can_server dark true (λ e. refl)) done))))))

taken-attempted_example : light ∷ dark ∷ [] ≡ (light ∷ []) ++ (dark ∷ [])
taken-attempted_example =
    taken-attempted
      (sent light true
        ∷ silent
        ∷ sent dark false
        ∷ wrote light 5
        ∷ silent
        ∷ silent
        ∷ sent dark true
        ∷ [])
      after_round one_round

-- A drive in motion, with its rampers at 0.
abbrev ramper : ValueRamper Sign
ramper = record {
  accel_ramp_rate = plus;
  decel_ramp_rate = plus;
  zero_value = nought;
  max_value = plus;
  prev_time = minus;
  prev_value = nought;
}

abbrev rolling : Drivetrain Sign
rolling = record {
  joystick = true;
  drive_helper = record {
    old_wheel = nought;
    quick_stop_accumulator = nought;
    neg_inertia_accumulator = nought;
  };
  left_value_ramper = ramper;
  right_value_ramper = ramper;
}

abbrev stick : Inputs Sign
stick = record {
  is_connected = true;
  raw_axis = λ i. plus;
  raw_button = λ i. false;
  sensor_position = λ id. none;
}

step : IsStep signs nought plus
step = record { not_negative = refl; sum = refl; difference = refl }

drive_outputs-IsLimited_example :
    let (v, d') = drive_outputs signs stick nought plus rolling in
    IsLimited signs v.left
    × IsLimited signs v.right
    × IsLimited signs d'.left_value_ramper.prev_value
    × IsLimited signs d'.right_value_ramper.prev_value
drive_outputs-IsLimited_example =
    drive_outputs-IsLimited signs signs-IsOrdered stick nought plus rolling (refl, refl)
      (refl, refl) (ground arith) (ground arith) (step, step) (step, step)
