-- ===== src/Logger.antt =====
-- src/logger.h and src/logger.cpp: what the logger writes to its file, to standard error and to the
-- system's log. A message that the functions of the library have formatted is its text.
use faster_config.Base.{
  ℕ, ◌<◌, List, [], ◌∷◌, ◌++◌, Bytes, codes, Bool, true, false, leb, if◌then◌else◌, ◌≡◌, arith,
}
use faster_config.Iptable.{decimal}

-- The three outputs, and the flags of `debugconf` that are read.
pub record Log : Type 0 where
  pub file : Bytes
  pub stderr : Bytes
  pub syslog : List (ℕ × Bytes)
  pub log_stderr : Bool
  pub log_syslog : Bool

-- The file when it has been opened, with the constructor's settings.
abbrev pub new_log : Log
new_log = record { file = []; stderr = []; syslog = []; log_stderr = true; log_syslog = false }

abbrev marked : Bytes → Bytes → Bytes
marked mark text = mark ++ (text ++ b'\n' ∷ [])

-- `trace` of a text; the two other overloads pass theirs on to it.
unfoldable pub trace : Bytes → Log → Log
trace text log = record log { file = log.file ++ marked (codes " ## ") text }

-- `error` of a `const char*`.
unfoldable pub error : Bytes → Log → Log
error text log = record log { file = log.file ++ marked (codes " !! ") text }

-- `error` of a `std::string`.
unfoldable pub error_string : Bytes → Log → Log
unfolding trace
error_string text log = trace text log

-- `DEBUG_LEVEL` and `LOG_WARNING`.
abbrev pub debug_level : ℕ
debug_level = 0

abbrev pub log_warning : ℕ
log_warning = 4

abbrev line_of : Bytes → ℕ → Bytes → Bytes
line_of filename line text =
    b'[' ∷ (filename ++ b':' ∷ (decimal line ++ codes "] " ++ text ++ b'\n' ∷ []))

abbrev to_stderr : Bytes → Log → Log
to_stderr text log = record log { stderr = log.stderr ++ text }

abbrev to_syslog : ℕ → Bytes → Log → Log
to_syslog level text log = record log { syslog = log.syslog ++ (level, text) ∷ [] }

-- `_debug`; a level is not negative.
unfoldable pub debug : Bytes → ℕ → ℕ → Bytes → Log → Log
debug filename line level text log =
    let printed : Log =
      if leb level log_warning
      then to_stderr (line_of filename line text) log
      else if log.log_stderr
      then to_stderr (line_of filename line text) log
      else log in
    if leb level debug_level
    then (if printed.log_syslog then to_syslog level text printed else printed)
    else log

-- Above the level 0, which no call of the program uses, nothing is written.
debug_silent :
    (filename : Bytes) (line level : ℕ) (text : Bytes) (log : Log)
    → 0 < level
    → debug filename line level text log ≡ log
unfolding debug
debug_silent filename line level text log h = ground arith
