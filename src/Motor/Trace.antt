-- ===== src/Motor/Trace.antt =====
-- The motors of src/main/cpp/MotorManager.cpp over any sequence of calls of its operations and of
-- those of src/main/cpp/MotorConfigManager.cpp.
use ckriopassthru.Base.{
  ℕ, suc, ◌<◌, ◌≡◌, ◌≢◌, refl, some, List, [], ◌∷◌, arith, ltb, is_some, ==-refl, ==-ne, ◌+◌, true,
  ap, ◌∙◌,
}
use ckriopassthru.Base.Map.{lookup, has}
use ckriopassthru.Registry.{for_each}
use ckriopassthru.Registry.Lifetime.{Life, tick, left, walk-present, on_device-present, sum_suc}
use ckriopassthru.Registry.Walk.{heartbeats-on_device}
use ckriopassthru.MotorConfig.{
  MotorConfigs, set_motors_config_msg, set_prev_motor_config_msg, delete_config,
}
use ckriopassthru.Phoenix.{CanInterface}
use ckriopassthru.Talon.{Talon, MotorType, talon_fx, talon_srx, other_type}
use ckriopassthru.Motor.{
  Motors, delete_motor, process_heartbeat, register_motor, on_motor, for_each_motor, motor_exists,
  new_motor,
}
use ckriopassthru.Motor.Lease.{
  entry-process_heartbeat, entry-register_motor, devices-delete_motor, heartbeats-delete_motor,
}
use ckriopassthru.Motor.Invariant.{
  IsValid, delete_motor-IsValid, process_heartbeat-IsValid, register_motor-IsValid,
  on_motor-IsValid, for_each_motor-IsValid,
}

pub data Call (Motor Msg : Type 0) : Type 0 where
  registers : ℕ → MotorType → CanInterface → Call Motor Msg
  heartbeat : Call Motor Msg
  reaches : ℕ → (ℕ → Motor → MotorType → Motor) → Call Motor Msg
  reaches_all : (ℕ → Motor → MotorType → Motor) → Call Motor Msg
  configures : List Msg → Call Motor Msg
  applies : ℕ → Msg → Call Motor Msg
  deletes forgets : ℕ → Call Motor Msg
  -- What a caller does to the configuration messages by the references that it is given.
  edits : (MotorConfigs Msg → MotorConfigs Msg) → Call Motor Msg

-- The heartbeats of a sequence of calls.
unfoldable pub heartbeats : {Motor Msg : Type 0} → List (Call Motor Msg) → ℕ
heartbeats [] = 0
heartbeats (heartbeat ∷ cs) = suc (heartbeats cs)
heartbeats (c ∷ cs) = heartbeats cs

-- No call of the sequence registers the id or deletes its motor.
abbrev pub IsSilent : {Motor Msg : Type 0} → ℕ → List (Call Motor Msg) → Type 0
IsSilent k [] = Unit {0}
IsSilent k (registers id motor_type can ∷ cs) = (id ≢ k) × IsSilent k cs
IsSilent k (deletes id ∷ cs) = (id ≢ k) × IsSilent k cs
IsSilent k (c ∷ cs) = IsSilent k cs

module _ (talon : Talon) {Msg : Type 0} (msg_id : Msg → ℕ) where
  open talon use {Motor}

  unfoldable pub step : Motors Motor Msg → Call Motor Msg → Motors Motor Msg
  step w (registers id motor_type can) = register_motor talon id motor_type can w
  step w heartbeat = process_heartbeat w
  step w (reaches id func) = on_motor id func w
  step w (reaches_all func) = for_each_motor func w
  step w (configures ms) = record w { configs = set_motors_config_msg msg_id ms w.configs }
  step w (applies id m) = record w { configs = set_prev_motor_config_msg id m w.configs }
  step w (deletes id) = delete_motor id w
  step w (forgets id) = record w { configs = delete_config id w.configs }
  step w (edits f) = record w { configs = f w.configs }

  unfoldable pub run : Motors Motor Msg → List (Call Motor Msg) → Motors Motor Msg
  unfolding step
  run w [] = w
  run w (c ∷ cs) = run (step w c) cs

  -- Every call keeps the invariant.
  pub step-IsValid : (w : Motors Motor Msg) (c : Call Motor Msg) → IsValid w → IsValid (step w c)
  unfolding step
  step-IsValid w (registers id motor_type can) v =
      register_motor-IsValid talon id motor_type can w v
  step-IsValid w heartbeat v = process_heartbeat-IsValid talon w v
  step-IsValid w (reaches id func) v = on_motor-IsValid talon id func w v
  step-IsValid w (reaches_all func) v = for_each_motor-IsValid talon func w v
  step-IsValid w (configures ms) v = record { sorted = v.sorted; lease = v.lease }
  step-IsValid w (applies id m) v = record { sorted = v.sorted; lease = v.lease }
  step-IsValid w (deletes id) v = delete_motor-IsValid talon id w v
  step-IsValid w (forgets id) v = record { sorted = v.sorted; lease = v.lease }
  step-IsValid w (edits f) v = record { sorted = v.sorted; lease = v.lease }

  -- Any sequence of calls of the motor and configuration managers, deletions and changes by the
  -- references to configuration messages included, keeps the invariant: an id has a motor, a type
  -- and a counter, or a counter alone, which a deletion leaves, or none of them; ids with a motor
  -- or a counter are below 64, counters are from 1 to 250, and the counters are sorted by id.
  pub run-IsValid :
      (w : Motors Motor Msg) (cs : List (Call Motor Msg)) → IsValid w → IsValid (run w cs)
  unfolding run
  run-IsValid w [] v = v
  run-IsValid w (c ∷ cs) v = run-IsValid (step w c) cs (step-IsValid w c v)

  -- Whether an id has a motor, and its counter.
  abbrev life : ℕ → Motors Motor Msg → Life
  life k w = record {
    present = is_some (lookup k w.manager.devices);
    ticks = lookup k w.manager.heartbeats;
  }

  life-process_heartbeat :
      (k : ℕ) (w : Motors Motor Msg) → IsValid w → life k (process_heartbeat w) ≡ tick (life k w)
  life-process_heartbeat k w v =
      ap (λ e. record { present = is_some e.motor; ticks = e.ticks })
        (entry-process_heartbeat k w v.sorted)
      ∙ ground arith

  -- The part of the life that a call leaves alone.
  life-step :
      (k : ℕ) (w : Motors Motor Msg) (c : Call Motor Msg)
      → IsValid w
      → IsSilent k (c ∷ [])
      → life k (step w c) ≡ elim c [ heartbeat ↦ tick (life k w) | _ ↦ life k w ]
  unfolding step for_each_motor on_motor for_each
  life-step k w (registers id motor_type can) v s =
      ap (λ e. record { present = is_some e.motor; ticks = e.ticks })
        (entry-register_motor talon id k motor_type can w)
      ∙ rw (==-ne id k s.0)
  life-step k w heartbeat v s = life-process_heartbeat k w v
  life-step k w (reaches id func) v s =
      let func' : ℕ → Motor → MotorType → Unit {0} → Motor × Unit {0} =
        λ i d t u. (func i d t, u) in
      rw (
        on_device-present talon_fx id k func w.manager,
        heartbeats-on_device talon_fx id func' w.manager tt,
      )
  life-step k w (reaches_all func) v s =
      rw (walk-present talon_fx func k w.manager.devices w.manager.types)
  life-step k w (configures ms) v s = refl
  life-step k w (applies id m) v s = refl
  life-step k w (deletes id) v s =
      rw (devices-delete_motor id k w, heartbeats-delete_motor id w, ==-ne id k s.0)
  life-step k w (forgets id) v s = refl
  life-step k w (edits f) v s = refl

  life-run :
      (k n h : ℕ) (w : Motors Motor Msg) (cs : List (Call Motor Msg))
      → IsValid w
      → IsSilent k cs
      → life k w ≡ left h n
      → life k (run w cs) ≡ left (heartbeats cs + h) n
  unfolding run heartbeats
  life-run k n h w [] v s e = e ∙ ground arith
  life-run k n h w (heartbeat ∷ cs) v s e =
      let e' : tick (left h n) ≡ left (suc h) n = ground arith in
      let next = life-step k w heartbeat v tt ∙ ap tick e ∙ e' in
      let rest = life-run k n (suc h) (step w heartbeat) cs (step-IsValid w heartbeat v) s next in
      rest ∙ ap (λ i. left i n) (sum_suc (heartbeats cs) h)
  life-run k n h w (registers id motor_type can ∷ cs) v s e =
      life-run k n h (step w (registers id motor_type can)) cs
        (step-IsValid w (registers id motor_type can) v) s.1
        (life-step k w (registers id motor_type can) v (s.0, tt) ∙ e)
  life-run k n h w (reaches id func ∷ cs) v s e =
      life-run k n h (step w (reaches id func)) cs (step-IsValid w (reaches id func) v) s
        (life-step k w (reaches id func) v tt ∙ e)
  life-run k n h w (reaches_all func ∷ cs) v s e =
      life-run k n h (step w (reaches_all func)) cs (step-IsValid w (reaches_all func) v) s
        (life-step k w (reaches_all func) v tt ∙ e)
  life-run k n h w (configures ms ∷ cs) v s e =
      life-run k n h (step w (configures ms)) cs (step-IsValid w (configures ms) v) s
        (life-step k w (configures ms) v tt ∙ e)
  life-run k n h w (applies id m ∷ cs) v s e =
      life-run k n h (step w (applies id m)) cs (step-IsValid w (applies id m) v) s
        (life-step k w (applies id m) v tt ∙ e)
  life-run k n h w (deletes id ∷ cs) v s e =
      life-run k n h (step w (deletes id)) cs (step-IsValid w (deletes id) v) s.1
        (life-step k w (deletes id) v (s.0, tt) ∙ e)
  life-run k n h w (forgets id ∷ cs) v s e =
      life-run k n h (step w (forgets id)) cs (step-IsValid w (forgets id) v) s
        (life-step k w (forgets id) v tt ∙ e)
  life-run k n h w (edits f ∷ cs) v s e =
      life-run k n h (step w (edits f)) cs (step-IsValid w (edits f) v) s
        (life-step k w (edits f) v tt ∙ e)

  -- The types that MotorManager makes an object for.
  abbrev pub IsKnown : MotorType → Type 0
  IsKnown talon_fx = Unit
  IsKnown talon_srx = Unit
  IsKnown (other_type n) = ⊥

  life-register_motor :
      (id : ℕ) (motor_type : MotorType) (can : CanInterface) (w : Motors Motor Msg)
      → id < 64
      → IsKnown motor_type
      → life id (register_motor talon id motor_type can w)
        ≡ record { present = true; ticks = some 250 }
  unfolding new_motor
  life-register_motor id talon_fx can w small known =
      ap (λ e. record { present = is_some e.motor; ticks = e.ticks })
        (entry-register_motor talon id id talon_fx can w)
      ∙ ground (arith, ==-refl id)
  life-register_motor id talon_srx can w small known =
      ap (λ e. record { present = is_some e.motor; ticks = e.ticks })
        (entry-register_motor talon id id talon_srx can w)
      ∙ ground (arith, ==-refl id)
  life-register_motor id (other_type n) can w small known = absurd known

  -- From a state of the managers that satisfies the invariant, a motor that is registered with a
  -- known type under an id below 64 exists for the next 249 heartbeats and is gone with the 250th,
  -- whatever operations of the motor and configuration managers are called, as long as no call
  -- registers the id again or deletes its motor; a caller may change the configuration messages by
  -- the references that it is given.
  pub motor_exists-run :
      (id : ℕ) (motor_type : MotorType) (can : CanInterface) (w : Motors Motor Msg)
      (cs : List (Call Motor Msg))
      → IsValid w
      → id < 64
      → IsKnown motor_type
      → IsSilent id cs
      → motor_exists id (run (register_motor talon id motor_type can w) cs)
        ≡ ltb (heartbeats cs) 250
  unfolding motor_exists has
  motor_exists-run id motor_type can w cs v small known silent =
      let w' = register_motor talon id motor_type can w in
      let v' = register_motor-IsValid talon id motor_type can w v in
      let begin : life id w' ≡ left 0 250 = life-register_motor id motor_type can w small known in
      ap (λ l. l.present) (life-run id 250 0 w' cs v' silent begin) ∙ ground arith
