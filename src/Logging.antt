-- ===== src/Logging.antt =====
-- src/main/cpp/utils/CKLogger.cpp, compiled with CONSOLE_REPORTING as include/utils/GlobalConfig.hpp has it.
-- The lock is held for whole operations, so each is one step. The order in which the map is iterated
-- is not specified by the language; the model has that of first insertion.
pub mod Reporting
use Prim.Native.String.{String}
use ckriopassthru.Base.{ℕ, Bool, List, [], ◌∷◌, leb, if◌then◌else◌}
use ckriopassthru.Network.Inbox.{MessageMap, insert}

pub data LogLevel : Type 0 where
  debug info warning error : LogLevel

abbrev pub level_number : LogLevel → ℕ
level_number debug = 0
level_number info = 1
level_number warning = 2
level_number error = 3

pub record Logger : Type 0 where
  pub message_map : MessageMap LogLevel
  pub curr_log_level : LogLevel

abbrev pub new_logger : Logger
new_logger = record { message_map = []; curr_log_level = info }

unfoldable pub log : String → LogLevel → Logger → Logger
log msg log_level l = record l { message_map = insert msg log_level l.message_map }

unfoldable pub set_log_level : LogLevel → Logger → Logger
set_log_level log_level l = record l { curr_log_level = log_level }

-- The loop of the pump: what it writes.
unfoldable pub written : LogLevel → MessageMap LogLevel → List String
written least [] = []
written least ((msg, log_level) ∷ m) =
    let rest = written least m in
    if leb (level_number least) (level_number log_level) then msg ∷ rest else rest

-- What is written, whether the output is flushed, and the logger.
unfoldable pub log_pump : Logger → List String × Bool × Logger
unfolding written
log_pump l = (
  written l.curr_log_level l.message_map,
  elim l.message_map [ [] ↦ Bool.false | e ∷ m ↦ Bool.true ],
  record l { message_map = [] },
)
