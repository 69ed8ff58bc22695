-- ===== src/Logging/Reporting.antt =====
-- Which messages the logger's pump writes after any history of its operations.
use Prim.Native.String.{String}
use text.Mathlib.Text.{◌==◌}
use text.Mathlib.TextEquality.{eq_iff}
use ckriopassthru.Base.{
  ℕ, ◌+◌, ◌≡◌, refl, Option, none, some, List, [], ◌∷◌, leb, if◌then◌else◌, arith, ◌∙◌, ap,
}
use ckriopassthru.Network.Inbox.{MessageMap, lookup, insert, lookup-insert}
use ckriopassthru.Logging.{
  LogLevel, level_number, Logger, new_logger, log, set_log_level, written, log_pump, info,
}

-- Each message has one entry.
abbrev pub IsDistinct : MessageMap LogLevel → Type 0
IsDistinct [] = Unit
IsDistinct ((k, v) ∷ m) = (lookup k m ≡ none) × IsDistinct m

insert-IsDistinct :
    (k : String) (v : LogLevel) (m : MessageMap LogLevel) → IsDistinct m → IsDistinct (insert k v m)
unfolding insert lookup
insert-IsDistinct k v [] d = ground arith
insert-IsDistinct k v ((j, w) ∷ m) d =
    ground (arith, eq_iff j k, eq_iff k j, insert-IsDistinct k v m d.1, lookup-insert k j v m)

abbrev pub count : String → List String → ℕ
count k [] = 0
count k (x ∷ xs) = (if k == x then 1 else 0) + count k xs

-- How often a message is written that has this level, or none.
abbrev pub times : LogLevel → Option LogLevel → ℕ
times least none = 0
times least (some v) = if leb (level_number least) (level_number v) then 1 else 0

count-written :
    (k : String) (least : LogLevel) (m : MessageMap LogLevel)
    → IsDistinct m
    → count k (written least m) ≡ times least (lookup k m)
unfolding written lookup
count-written k least [] d = refl
count-written k least ((j, v) ∷ m) d = ground (arith, eq_iff k j, d, count-written k least m d.1)

pub data Call : Type 0 where
  logged : String → LogLevel → Call
  level_set : LogLevel → Call
  pumped : Call

abbrev pub run : List Call → Logger → Logger
run [] l = l
run (logged msg log_level ∷ cs) l = run cs (log msg log_level l)
run (level_set log_level ∷ cs) l = run cs (set_log_level log_level l)
run (pumped ∷ cs) l = run cs (log_pump l).2

-- The level that a message was last logged with since the last pump.
abbrev pub pending : String → List Call → Option LogLevel → Option LogLevel
pending k [] o = o
pending k (logged msg log_level ∷ cs) o = pending k cs (if k == msg then some log_level else o)
pending k (level_set log_level ∷ cs) o = pending k cs o
pending k (pumped ∷ cs) o = pending k cs none

abbrev pub level_after : List Call → LogLevel → LogLevel
level_after [] least = least
level_after (logged msg log_level ∷ cs) least = level_after cs least
level_after (level_set log_level ∷ cs) least = level_after cs log_level
level_after (pumped ∷ cs) least = level_after cs least

count-run :
    (k : String) (cs : List Call) (l : Logger)
    → IsDistinct l.message_map
    → count k (log_pump (run cs l)).0
      ≡ times (level_after cs l.curr_log_level) (pending k cs (lookup k l.message_map))
unfolding log set_log_level log_pump lookup
count-run k [] l d = count-written k l.curr_log_level l.message_map d
count-run k (logged msg v ∷ cs) l d =
    count-run k cs (log msg v l) (insert-IsDistinct msg v l.message_map d)
    ∙ ap (λ o. times (level_after cs l.curr_log_level) (pending k cs o))
        (lookup-insert msg k v l.message_map)
count-run k (level_set v ∷ cs) l d = count-run k cs (set_log_level v l) d
count-run k (pumped ∷ cs) l d = count-run k cs (log_pump l).2 tt

-- After any history of the logger, its pump writes a message once if the level that the message was
-- last logged with since the last pump is at least the level set last, which is info before one is
-- set, and otherwise does not write it.
pub count-log_pump :
    (k : String) (cs : List Call)
    → count k (log_pump (run cs new_logger)).0 ≡ times (level_after cs info) (pending k cs none)
unfolding lookup
count-log_pump k cs = count-run k cs new_logger tt
