-- ===== src/Solenoid/Values/Compressor.antt =====
-- The compressor of src/main/cpp/tasks/ApplySolenoidValuesTask.cpp.
use ckriopassthru.Registry.{Registry}
use ckriopassthru.Base.{
  ℕ, ◌<◌, ◌≡◌, refl, Bool, true, false, Option, none, some, arith, length, inl, inr, Bool-cases,
  Option-cases, not, ◌&&◌, ltb,
}
use ckriopassthru.Mode.{ControlMode, is_teleop}
use ckriopassthru.Network.{Network, Bytes, get_message}
use ckriopassthru.Solenoid.{Pneumatics, Solenoid, SolenoidType}
use ckriopassthru.Solenoid.Values.{
  SolenoidsControl, Compressors, SolenoidTask, drive_compressor, receive, run,
  solenoid_control_message_group,
}

module _ (pneumatics : Pneumatics) (compressors : Compressors) where
  open compressors use {Compressor, new_compressor, disable, enable_digital}

  -- The compressor, if there is one, and the flag agree: its last command was the one the flag says.
  abbrev pub Agrees : Option Compressor → Bool → Type 0
  Agrees none state = Unit
  Agrees (some c) true = (before : Compressor) × (c ≡ enable_digital before)
  Agrees (some c) false = (before : Compressor) × (c ≡ disable before)

  abbrev pub IsTracking : SolenoidTask pneumatics compressors → Type 0
  IsTracking s = Agrees s.compressor s.compressor_state

  -- The compressor must not run: the message does not enable it, and the mode is not teleop.
  abbrev pub must_stop : ControlMode → SolenoidsControl → Bool
  must_stop mode m = not m.compressor_is_enabled_for_auto && not (is_teleop mode)

  -- There is a compressor, and its last command was to run exactly if `running`.
  abbrev pub IsSettled : Bool → SolenoidTask pneumatics compressors → Type 0
  IsSettled running s =
      (c : Compressor) × (s.compressor ≡ some c)
      × (s.compressor_state ≡ running)
      × Agrees (some c) running

  drive_compressor-settles :
      (mode : ControlMode) (m prev : SolenoidsControl) (o : Option Compressor) (flag : Bool)
      (r : Registry (Solenoid pneumatics) SolenoidType)
      → Agrees o flag
      → IsSettled (not (must_stop mode m)) (
          drive_compressor pneumatics compressors mode m (record {
            prev_solenoid_msg = prev;
            compressor = o;
            compressor_state = flag;
            manager = r;
          }))
  unfolding drive_compressor
  drive_compressor-settles mode m prev none flag r h = elim (Bool-cases (must_stop mode m)) [
    | inl e ↦ rw (e) (disable new_compressor, refl, refl, (new_compressor, refl))
    | inr e ↦
        rw (e) (enable_digital (disable new_compressor), refl, refl, (disable new_compressor, refl))
  ]
  drive_compressor-settles mode m prev (some c) true r h = elim (Bool-cases (must_stop mode m)) [
    | inl e ↦ rw (e) (disable c, refl, refl, (c, refl))
    | inr e ↦ rw (e) (c, refl, refl, h)
  ]
  drive_compressor-settles mode m prev (some c) false r h = elim (Bool-cases (must_stop mode m)) [
    | inl e ↦ rw (e) (c, refl, refl, h)
    | inr e ↦ rw (e) (enable_digital c, refl, refl, (c, refl))
  ]

  drive_compressor-IsSettled :
      (mode : ControlMode) (m : SolenoidsControl) (s : SolenoidTask pneumatics compressors)
      → IsTracking s
      → IsSettled (not (must_stop mode m)) (drive_compressor pneumatics compressors mode m s)
  drive_compressor-IsSettled mode m s h =
      drive_compressor-settles mode m s.prev_solenoid_msg s.compressor s.compressor_state s.manager
        h

  IsSettled-IsTracking :
      (running : Bool) (s : SolenoidTask pneumatics compressors)
      → IsSettled running s
      → IsTracking s
  IsSettled-IsTracking running s (c, e, f, h) = rw (e, f) h

  -- A run that reads a message with a solenoid leaves a compressor whose last command was to run
  -- exactly if the message enables it or the mode is teleop, where the flag agreed with the
  -- compressor before the run.
  pub run-IsSettled :
      (throws : ℕ → Bool) (parse : Bytes → Option SolenoidsControl)
      (equivalent : SolenoidsControl → SolenoidsControl → Bool) (overdue : Bool)
      (mode : ControlMode) (empty_msg : SolenoidsControl) (n : Network)
      (s : SolenoidTask pneumatics compressors) (buf : Bytes) (m : SolenoidsControl)
      → IsTracking s
      → (get_message solenoid_control_message_group n).1 ≡ some buf
      → parse buf ≡ some m
      → 0 < length m.solenoids
      → IsSettled
          (not (must_stop mode m))
          (run pneumatics compressors throws parse equivalent overdue mode empty_msg (n, s)).1
  unfolding run receive
  run-IsSettled throws parse equivalent overdue mode empty_msg n s buf m h got parsed
        some_solenoid =
      let big : ltb 0 (length m.solenoids) ≡ true = ground arith in
      rw (run, got, receive, parsed, big) (drive_compressor-IsSettled mode m s h)

  -- Every run of the task that applies solenoid values keeps the flag of the compressor in
  -- agreement with its last command.
  run-IsTracking :
      (throws : ℕ → Bool) (parse : Bytes → Option SolenoidsControl)
      (equivalent : SolenoidsControl → SolenoidsControl → Bool) (overdue : Bool)
      (mode : ControlMode) (empty_msg : SolenoidsControl) (n : Network)
      (s : SolenoidTask pneumatics compressors)
      → IsTracking s
      → IsTracking
          (run pneumatics compressors throws parse equivalent overdue mode empty_msg (n, s)).1
  unfolding run receive
  run-IsTracking throws parse equivalent overdue mode empty_msg n s h =
      elim (Option-cases (get_message solenoid_control_message_group n).1) [
        | inl e ↦ rw (run, e) h
        | inr (buf, e) ↦ elim (Option-cases (parse buf)) [
          | inl p ↦ rw (run, e, receive, p) h
          | inr (m, p) ↦ elim (Bool-cases (ltb 0 (length m.solenoids))) [
            | inl b ↦
                rw (run, e, receive, p, b)
                  (IsSettled-IsTracking (not (must_stop mode m))
                    (drive_compressor pneumatics compressors mode m s)
                    (drive_compressor-IsSettled mode m s h))
            | inr b ↦ rw (run, e, receive, p, b) h
          ]
        ]
      ]
