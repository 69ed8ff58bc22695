-- ===== src/Failover/Delivery.antt =====
-- The way of the failover messages to the motors: what src/main/cpp/failover/FailoverMessageManager.cpp
-- publishes is what src/main/cpp/tasks/ApplyMotorValuesTask.cpp applies.
use ckriopassthru.Base.{◌≡◌, true, false, Option, some, List}
use ckriopassthru.Talon.{Talon}
use ckriopassthru.Phoenix.{CanInterface}
use ckriopassthru.Mode.{ControlMode, is_disabled}
use ckriopassthru.Network.{Network, Bytes}
use ckriopassthru.Network.Send.{get_message_found}
use ckriopassthru.Motor.{Motors}
use ckriopassthru.Motor.Values
use ckriopassthru.Motor.Values.{MotorControl, apply_motors}
use ckriopassthru.Failover.Messages.{Messages, Serializer, publish_messages}
use ckriopassthru.Failover.Publishing.{publish_messages-controls}

module _ (talon : Talon) {Msg : Type 0} (can_network : Msg → CanInterface) where
  open talon use {Motor, Value}

  -- Where the serializer succeeds and the parser reads back its bytes, a run of the task that
  -- applies motor values after the failover messages were published, which gets its lock and is not
  -- in disabled mode, applies to the motors exactly the control messages that the subsystems hold.
  run-publish_messages :
      (serializer : Serializer Value) (parse : Bytes → Option (List (MotorControl Value)))
      (mode : ControlMode) (s : Messages Value) (n : Network) (w : Motors Motor Msg)
      (motors solenoids : Bytes)
      → serializer.motor_control_bytes s.motor_control ≡ some motors
      → serializer.solenoid_control_bytes s.solenoid_control ≡ some solenoids
      → parse motors ≡ some s.motor_control
      → is_disabled mode ≡ false
      → (Values.run talon can_network parse true mode ((publish_messages serializer (s, n)).1, w)).1
        ≡ apply_motors talon can_network s.motor_control w
  unfolding Values.run Values.receive
  run-publish_messages serializer parse mode s n w motors solenoids hm hs hp hd =
      let n' = (publish_messages serializer (s, n)).1 in
      let found = publish_messages-controls serializer s n motors solenoids hm hs in
      rw (get_message_found "motorcontrol" motors n' found.0, hd, Values.receive, hp)
