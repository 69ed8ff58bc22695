-- ===== src/Managers.antt =====
-- src/main/cpp/tasks/ProcessHeartbeatTask.cpp: the heartbeat of the managers. Those of encoders and
-- IMUs are in the state as well; the task does not call them.
pub mod Aging
use ckriopassthru.External.{ExternalControl}
use ckriopassthru.External
use ckriopassthru.Registry.{Registry}
use ckriopassthru.Registry
use ckriopassthru.Talon.{MotorType}
use ckriopassthru.Motor.{Motors}
use ckriopassthru.Motor
use ckriopassthru.Candle.{Candles}
use ckriopassthru.Candle
use ckriopassthru.Solenoid.{SolenoidType}
use ckriopassthru.Sensor.{EncoderType, ImuType}

-- The managers, for the types of the device objects and the messages.
pub record Managers
    (MotorObject SolenoidObject CandleObject EncoderObject ImuObject MotorMsg LedMsg : Type 0)
    : Type 0 where
  pub motors : Motors MotorObject MotorMsg
  pub solenoids : Registry SolenoidObject SolenoidType
  pub external : ExternalControl
  pub candles : Candles CandleObject LedMsg
  pub encoders : Registry EncoderObject EncoderType
  pub imus : Registry ImuObject ImuType

module _
    {MotorObject SolenoidObject CandleObject EncoderObject ImuObject MotorMsg LedMsg : Type 0} where
  unfoldable pub run :
      Managers MotorObject SolenoidObject CandleObject EncoderObject ImuObject MotorMsg LedMsg
      → Managers MotorObject SolenoidObject CandleObject EncoderObject ImuObject MotorMsg LedMsg
  run w = record w {
    motors = Motor.process_heartbeat w.motors;
    solenoids = Registry.process_heartbeat w.solenoids;
    external = External.process_heartbeat w.external;
    candles = Candle.process_heartbeat w.candles;
  }
