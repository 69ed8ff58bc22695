-- ===== src/Failover/Shape.antt =====
-- The control messages of the failover subsystems, one by one: which motor each is for, and what it may
-- hold.
use ckriopassthru.Base.{ℕ, zero, suc, ◌≡◌, refl, List, [], ◌∷◌, update_at, arith, Every}
use ckriopassthru.Arithmetic.{Arithmetic, number}
use ckriopassthru.Motor.Values.{MotorControl}
use ckriopassthru.Failover.Messages.{Generated, Serializer}
use ckriopassthru.Failover.Control.{Wiring, initial, robot_failover, wiring}
use ckriopassthru.Network.{Network}
use ckriopassthru.Failover.Swerve.{
  Kinematics, Four, swerve_drivetrain_failover, set_drive_config, set_steering_config,
}
use ckriopassthru.Failover.Arm.{
  arm_failover, set_base_config, set_base_control, set_follower_control, config_pid,
  set_base_solenoid, set_invert_type, set_feedback_sensor,
}
use ckriopassthru.Failover.Intake
use ckriopassthru.Failover.Intake.{intake_failover, led_failover}
use ckriopassthru.Failover.Messages.{
  add_motor_config, add_motor_control, add_solenoid_control, add_led_control,
}

module _ {ℓ} {A : Type ℓ} where
  -- The elements of a list are as the predicates say, one by one.
  abbrev pub Are : List (A → Type 0) → List A → Type 0
  Are [] [] = Unit
  Are [] (x ∷ xs) = ⊥
  Are (P ∷ Ps) [] = ⊥
  Are (P ∷ Ps) (x ∷ xs) = P x × Are Ps xs

  abbrev pub At : ℕ → List (A → Type 0) → A → Type 0
  At n [] x = Unit
  At zero (P ∷ Ps) x = P x
  At (suc n) (P ∷ Ps) x = At n Ps x

  pub update_at-Are :
      (n : ℕ) (f : A → A) (Q : A → Type 0) (Ps : List (A → Type 0)) (xs : List A)
      → ((x : A) → At n Ps x → Q (f x))
      → Are Ps xs
      → Are (update_at n (λ P. Q) Ps) (update_at n f xs)
  update_at-Are n f Q [] [] h a = tt
  update_at-Are n f Q [] (x ∷ xs) h a = absurd a
  update_at-Are n f Q (P ∷ Ps) [] h a = absurd a
  update_at-Are zero f Q (P ∷ Ps) (x ∷ xs) h a = (h x a.0, a.1)
  update_at-Are (suc n) f Q (P ∷ Ps) (x ∷ xs) h a = (a.0, update_at-Are n f Q Ps xs h a.1)

-- What each of the predicates implies holds of every element.
pub Are-Every :
    {A : Type 0} (Q : A → Type 0) (Ps : List (A → Type 0)) (xs : List A)
    → Every (λ P. (x : A) → P x → Q x) Ps
    → Are Ps xs
    → Every Q xs
Are-Every Q [] [] e a = tt
Are-Every Q [] (x ∷ xs) e a = absurd a
Are-Every Q (P ∷ Ps) [] e a = absurd a
Are-Every Q (P ∷ Ps) (x ∷ xs) e a = (e.0 x a.0, Are-Every Q Ps xs e.1 a.1)

abbrev pub drive_pointers : Four ℕ
drive_pointers = record { front_left = 0; front_right = 1; back_left = 2; back_right = 3 }

abbrev pub steering_pointers : Four ℕ
steering_pointers = record { front_left = 4; front_right = 5; back_left = 6; back_right = 7 }

-- The pointers, computed.
abbrev pub pointers : Wiring
pointers = record {
  swerve = record { drive = drive_pointers; steering = steering_pointers };
  arm = record {
    lower_arm_master = 8;
    upper_arm_master = 10;
    wrist = 12;
    lower_brake = 0;
    upper_brake = 1;
    extension_1 = 2;
    extension_2 = 3;
  };
  intake = record { intake = 13; pinch = 4 };
  led = 0;
}

module _ {Value : Type 0} (arithmetic : Arithmetic Value) (generated : Generated Value) where
  open generated use {velocity, position, percent_output, follower}

  -- A message of a motor with a mode and without feedforward; and with its output as well.
  abbrev pub Drives : ℕ → ℕ → MotorControl Value → Type 0
  Drives id mode m =
      (m.id ≡ id) × (m.control_mode ≡ mode) × (m.arbitrary_feedforward ≡ number arithmetic 0)

  abbrev pub Holds : ℕ → ℕ → ℕ → MotorControl Value → Type 0
  Holds id mode v m = Drives id mode m × (m.output_value ≡ number arithmetic v)

  -- The steering, the arm with its followers, and the intake.
  abbrev pub others : List (MotorControl Value → Type 0)
  others =
      Drives 5 position
      ∷ Drives 6 position
      ∷ Drives 7 position
      ∷ Drives 8 position
      ∷ Holds 9 percent_output 0
      ∷ Holds 10 follower 9
      ∷ Holds 11 percent_output 0
      ∷ Holds 12 follower 11
      ∷ Holds 13 percent_output 0
      ∷ Holds 14 percent_output 0
      ∷ []

  -- The messages at any time, and while the drive stands still.
  abbrev pub wired : List (MotorControl Value → Type 0)
  wired = Drives 1 velocity ∷ Drives 2 velocity ∷ Drives 3 velocity ∷ Drives 4 velocity ∷ others

  abbrev pub standing : List (MotorControl Value → Type 0)
  standing =
      Holds 1 velocity 0 ∷ Holds 2 velocity 0 ∷ Holds 3 velocity 0 ∷ Holds 4 velocity 0 ∷ others

  pub standing-wired : (ms : List (MotorControl Value)) → Are standing ms → Are wired ms
  standing-wired [] h = absurd h
  standing-wired (a ∷ []) h = absurd h.1
  standing-wired (a ∷ b ∷ []) h = absurd h.1.1
  standing-wired (a ∷ b ∷ c ∷ []) h = absurd h.1.1.1
  standing-wired (a ∷ b ∷ c ∷ d ∷ ms) h = (h.0.0, (h.1.0.0, (h.1.1.0.0, (h.1.1.1.0.0, h.1.1.1.1))))

  pub wiring_lem : wiring arithmetic generated ≡ pointers
  unfolding wiring robot_failover swerve_drivetrain_failover set_drive_config set_steering_config
      arm_failover set_base_config set_base_control set_follower_control config_pid
      set_base_solenoid set_invert_type set_feedback_sensor intake_failover Intake.set_base_config
      Intake.set_base_control led_failover add_motor_config add_motor_control add_solenoid_control
      add_led_control
  wiring_lem = refl

  module _ (serializer : Serializer Value) (kinematics : Kinematics Value) where
    pub initial-standing :
        (n : Network)
        → Are standing (initial arithmetic generated serializer kinematics n).messages.motor_control
    unfolding initial robot_failover swerve_drivetrain_failover set_drive_config set_steering_config
        arm_failover set_base_config set_base_control set_follower_control config_pid
        set_base_solenoid set_invert_type set_feedback_sensor intake_failover Intake.set_base_config
        Intake.set_base_control led_failover add_motor_config add_motor_control add_solenoid_control
        add_led_control
    initial-standing n = ground arith
