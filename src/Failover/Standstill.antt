-- ===== src/Failover/Standstill.antt =====
-- What the failover subsystems' control messages hold: whatever they hold while failover control is
-- active, the drive stands still when it is not.
use ckriopassthru.Base.{ℕ, refl, List, ◌∷◌, update_at, take, ◌++◌, drop}
use ckriopassthru.Arithmetic.{Arithmetic, number}
use ckriopassthru.Motor.Values.{MotorControl}
use ckriopassthru.Failover.{Method, init, periodic, run, uninit}
use ckriopassthru.Failover.Messages.{Generated, Messages}
use ckriopassthru.Failover.Control.{perform_arm, perform_intake}
use ckriopassthru.Failover.Shape.{
  Are, At, update_at-Are, Drives, Holds, others, wired, standing, drive_pointers, steering_pointers,
  wiring_lem,
}
use ckriopassthru.Failover.Swerve.{Four, set_output, set_outputs}
use ckriopassthru.Failover.Arm
use ckriopassthru.Failover.Arm.{
  arm_failover, set_base_config, set_base_control, set_follower_control, config_pid,
  set_base_solenoid, set_invert_type, set_feedback_sensor, stop_motor, turn_off,
}
use ckriopassthru.Failover.Intake
use ckriopassthru.Failover.Intake.{intake_failover, led_failover}

module _ {Value : Type 0} (arithmetic : Arithmetic Value) (generated : Generated Value) where
  open generated use {velocity, position, percent_output, follower}

  abbrev zeros : Four Value
  zeros = record {
    front_left = number arithmetic 0;
    front_right = number arithmetic 0;
    back_left = number arithmetic 0;
    back_right = number arithmetic 0;
  }

  -- One assignment through a pointer.
  set_output-Are :
      (n : ℕ) (v : Value) (Q : MotorControl Value → Type 0)
      (Ps : List (MotorControl Value → Type 0)) (s : Messages Value)
      → ((m : MotorControl Value) → At n Ps m → Q (record m { output_value = v }))
      → Are Ps s.motor_control
      → Are (update_at n (λ P. Q) Ps) (set_output n v s).motor_control
  unfolding set_output
  set_output-Are n v Q Ps s h a = update_at-Are n _ Q Ps s.motor_control h a

  -- Any outputs keep the shape; zeros make the drive stand still.
  pub drive-wired :
      (v : Four Value) (s : Messages Value)
      → Are (wired arithmetic generated) s.motor_control
      → Are (wired arithmetic generated) (set_outputs drive_pointers v s).motor_control
  unfolding set_outputs
  drive-wired v s h =
      let s1 = set_output 0 v.front_left s in
      let s2 = set_output 1 v.front_right s1 in
      let s3 = set_output 2 v.back_left s2 in
      let h1 =
        set_output-Are 0 v.front_left (Drives arithmetic generated 1 velocity)
          (wired arithmetic generated) s (λ m d. d) h in
      let h2 =
        set_output-Are 1 v.front_right (Drives arithmetic generated 2 velocity)
          (wired arithmetic generated) s1 (λ m d. d) h1 in
      let h3 =
        set_output-Are 2 v.back_left (Drives arithmetic generated 3 velocity)
          (wired arithmetic generated) s2 (λ m d. d) h2 in
      set_output-Are 3 v.back_right (Drives arithmetic generated 4 velocity)
        (wired arithmetic generated) s3 (λ m d. d) h3

  abbrev stopped_up_to : ℕ → List (MotorControl Value → Type 0)
  stopped_up_to n = take n (standing arithmetic generated) ++ drop n (wired arithmetic generated)

  pub drive-standing :
      (s : Messages Value)
      → Are (wired arithmetic generated) s.motor_control
      → Are (standing arithmetic generated) (set_outputs drive_pointers zeros s).motor_control
  unfolding set_outputs
  drive-standing s h =
      let z = number arithmetic 0 in
      let s1 = set_output 0 z s in
      let s2 = set_output 1 z s1 in
      let s3 = set_output 2 z s2 in
      let h1 =
        set_output-Are 0 z (Holds arithmetic generated 1 velocity 0) (wired arithmetic generated) s
          (λ m d. (d, refl)) h in
      let h2 =
        set_output-Are 1 z (Holds arithmetic generated 2 velocity 0) (stopped_up_to 1) s1
          (λ m d. (d, refl)) h1 in
      let h3 =
        set_output-Are 2 z (Holds arithmetic generated 3 velocity 0) (stopped_up_to 2) s2
          (λ m d. (d, refl)) h2 in
      set_output-Are 3 z (Holds arithmetic generated 4 velocity 0) (stopped_up_to 3) s3
        (λ m d. (d, refl)) h3

  -- The steering is not among the first four messages, whatever these hold.
  module _ (P Q R S : MotorControl Value → Type 0) where
    pub steering-Are :
        (v : Four Value) (s : Messages Value)
        → Are (P ∷ Q ∷ R ∷ S ∷ (others arithmetic generated)) s.motor_control
        → Are
            (P ∷ Q ∷ R ∷ S ∷ (others arithmetic generated))
            (set_outputs steering_pointers v s).motor_control
    unfolding set_outputs
    steering-Are v s h =
        let Ps = P ∷ Q ∷ R ∷ S ∷ (others arithmetic generated) in
        let s1 = set_output 4 v.front_left s in
        let s2 = set_output 5 v.front_right s1 in
        let s3 = set_output 6 v.back_left s2 in
        let h1 =
          set_output-Are 4 v.front_left (Drives arithmetic generated 5 position) Ps s (λ m d. d)
            h in
        let h2 =
          set_output-Are 5 v.front_right (Drives arithmetic generated 6 position) Ps s1 (λ m d. d)
            h1 in
        let h3 =
          set_output-Are 6 v.back_left (Drives arithmetic generated 7 position) Ps s2 (λ m d. d)
            h2 in
        set_output-Are 7 v.back_right (Drives arithmetic generated 8 position) Ps s3 (λ m d. d) h3

    -- The arm's motors and the intake's are stopped, and are so again.
    stop_motor-Are :
        (n id : ℕ) (s : Messages Value)
        → ((m : MotorControl Value)
            → At n (P ∷ Q ∷ R ∷ S ∷ (others arithmetic generated)) m
            → Holds arithmetic generated id percent_output 0 m)
        → Are (P ∷ Q ∷ R ∷ S ∷ (others arithmetic generated)) s.motor_control
        → Are
            (update_at n
              (λ T. Holds arithmetic generated id percent_output 0)
              (P ∷ Q ∷ R ∷ S ∷ (others arithmetic generated)))
            (stop_motor arithmetic generated n s).motor_control
    unfolding stop_motor
    stop_motor-Are n id s h a =
        let Ps = P ∷ Q ∷ R ∷ S ∷ (others arithmetic generated) in
        update_at-Are n _ (Holds arithmetic generated id percent_output 0) Ps s.motor_control
          (λ m d. let k = h m d in ((k.0.0, refl, k.0.2), refl)) a

    arm_run-Are :
        (s : Messages Value)
        → Are (P ∷ Q ∷ R ∷ S ∷ (others arithmetic generated)) s.motor_control
        → Are
            (P ∷ Q ∷ R ∷ S ∷ (others arithmetic generated))
            (perform_arm arithmetic generated run s).motor_control
    unfolding perform_arm Arm.run turn_off
    arm_run-Are s h =
        let s1 = stop_motor arithmetic generated 8 s in
        let s2 = stop_motor arithmetic generated 10 s1 in
        rw (wiring_lem arithmetic generated) (
          stop_motor-Are 12 13 s2 (λ m d. d)
            (stop_motor-Are 10 11 s1 (λ m d. d) (stop_motor-Are 8 9 s (λ m d. d) h)))

    arm_uninit-Are :
        (s : Messages Value)
        → Are (P ∷ Q ∷ R ∷ S ∷ (others arithmetic generated)) s.motor_control
        → Are
            (P ∷ Q ∷ R ∷ S ∷ (others arithmetic generated))
            (perform_arm arithmetic generated uninit s).motor_control
    unfolding perform_arm Arm.uninit
    arm_uninit-Are s h =
        let s1 = stop_motor arithmetic generated 8 s in
        let s2 = stop_motor arithmetic generated 10 s1 in
        rw (wiring_lem arithmetic generated) (
          stop_motor-Are 12 13 s2 (λ m d. d)
            (stop_motor-Are 10 11 s1 (λ m d. d) (stop_motor-Are 8 9 s (λ m d. d) h)))

    pub perform_arm-Are :
        (k : Method) (s : Messages Value)
        → Are (P ∷ Q ∷ R ∷ S ∷ (others arithmetic generated)) s.motor_control
        → Are
            (P ∷ Q ∷ R ∷ S ∷ (others arithmetic generated))
            (perform_arm arithmetic generated k s).motor_control
    unfolding perform_arm
    perform_arm-Are init s h = h
    perform_arm-Are periodic s h = h
    perform_arm-Are run s h = arm_run-Are s h
    perform_arm-Are uninit s h = arm_uninit-Are s h

    pub perform_intake-Are :
        (k : Method) (s : Messages Value)
        → Are (P ∷ Q ∷ R ∷ S ∷ (others arithmetic generated)) s.motor_control
        → Are
            (P ∷ Q ∷ R ∷ S ∷ (others arithmetic generated))
            (perform_intake arithmetic generated k s).motor_control
    unfolding perform_intake Intake.run Intake.uninit turn_off
    perform_intake-Are init s h = h
    perform_intake-Are periodic s h = h
    perform_intake-Are run s h =
        rw (wiring_lem arithmetic generated) (stop_motor-Are 13 14 s (λ m d. d) h)
    perform_intake-Are uninit s h =
        rw (wiring_lem arithmetic generated) (stop_motor-Are 13 14 s (λ m d. d) h)

  pub steered-wired :
      (v u : Four Value) (s : Messages Value)
      → Are (wired arithmetic generated) s.motor_control
      → Are
          (wired arithmetic generated)
          (set_outputs steering_pointers u (set_outputs drive_pointers v s)).motor_control
  steered-wired v u s h =
      steering-Are (Drives arithmetic generated 1 velocity) (Drives arithmetic generated 2 velocity)
        (Drives arithmetic generated 3 velocity) (Drives arithmetic generated 4 velocity) u
        (set_outputs drive_pointers v s) (drive-wired v s h)
