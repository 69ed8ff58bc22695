-- ===== src/Sensor/Config/Again.antt =====
-- A message that comes again, in src/main/cpp/tasks/ApplyIMUConfigTask.cpp and
-- src/main/cpp/tasks/ApplyEncoderConfigTask.cpp.
use ckriopassthru.Base.{
  ℕ, ◌≡◌, Bool, true, Option, none, some, arith, inl, inr, Option-cases, ==-refl, if◌then◌else◌,
}
use ckriopassthru.Base.Map.{lookup, insert, lookup-insert}
use ckriopassthru.Registry.{index, on_device}
use ckriopassthru.Sensor.Config.{Configured, configure_changed}

module _ {D T Msg : Type 0} (initial : T) (equivalent : Msg → Msg → Bool) (default_msg : Msg)
    (func : D → T → D × Bool) where
  -- Whether the configuration of a present device succeeds; an absent one counts as configured.
  abbrev pub outcome : Option D → T → Bool
  outcome none t = true
  outcome (some d) t = (func d t).1

  abbrev pub type_of : Option T → T
  type_of none = initial
  type_of (some t) = t

  abbrev pub message_of : Option Msg → Msg
  message_of none = default_msg
  message_of (some m) = m

  -- After a configuration message, the entry of its id holds the message, unless it differed from
  -- the one before and the configuration of the device failed; then it is still the one before, so
  -- that the same message is tried again.
  pub prev-configure_changed :
      (id : ℕ) (m : Msg) (c : Configured D T Msg)
      → let before = message_of (lookup id c.prev) in
        lookup id (configure_changed initial equivalent default_msg func id m c).prev
        ≡ some (
            if equivalent m before
            then m
            else if outcome (lookup id c.manager.devices) (type_of (lookup id c.manager.types))
            then m
            else before)
  unfolding configure_changed index on_device
  prev-configure_changed id m c =
      let self = ==-refl id in
      elim (Option-cases (lookup id c.prev)) [
        | inl e ↦
            let inserted = lookup-insert id id default_msg c.prev in
            let twice = lookup-insert id id m (insert id default_msg c.prev) in
            elim (Option-cases (lookup id c.manager.devices)) [
              | inl f ↦ rw (e, f) (ground (arith, self, inserted, twice))
              | inr (d, f) ↦ elim (Option-cases (lookup id c.manager.types)) [
                | inl g ↦ rw (e, f, g) (ground (arith, self, inserted, twice))
                | inr (t, g) ↦ rw (e, f, g) (ground (arith, self, inserted, twice))
              ]
            ]
        | inr (b, e) ↦
            let inserted = lookup-insert id id m c.prev in
            elim (Option-cases (lookup id c.manager.devices)) [
              | inl f ↦ rw (e, f) (ground (arith, e, self, inserted))
              | inr (d, f) ↦ elim (Option-cases (lookup id c.manager.types)) [
                | inl g ↦ rw (e, f, g) (ground (arith, e, self, inserted))
                | inr (t, g) ↦ rw (e, f, g) (ground (arith, e, self, inserted))
              ]
            ]
      ]

  -- A configuration message equivalent to the one recorded for its id gives the device no command.
  manager-configure_changed :
      (id : ℕ) (m before : Msg) (c : Configured D T Msg)
      → lookup id c.prev ≡ some before
      → equivalent m before ≡ true
      → (configure_changed initial equivalent default_msg func id m c).manager ≡ c.manager
  unfolding configure_changed index
  manager-configure_changed id m before c e same = ground (arith, e, same)
