-- ===== src/Log.antt =====
-- The logger of src/log/log.c and src/include/log.h: its static state and the calls that set and
-- use it. A text is a list of bytes without its NUL. What log_log does to files is its result; the
-- text that vfprintf makes of the caller's arguments follows the prefix and is not modelled.
pub mod Format
pub mod Buffer
pub mod Text
pub mod Levels
mod Tests
use treasure_house.Base.{ℕ, zero, suc, ◌+◌, ◌-◌, Bool, true, ◌||◌, ◌==◌, leb, if◌then◌else◌, List}
use treasure_house.Base.Int.{ℤ, pos, negsuc}
use treasure_house.Base.Memory.{update}
use treasure_house.Base.Run.{Run, ok, ◌>>=◌}
use treasure_house.Log.Format.{Tm, Message, log_fmt_tostring}

-- LOG_LEVEL_OFF
abbrev pub level_off : ℕ
level_off = 6

-- The static variables, the arrays by level.
pub record Log : Type 0 where
  pub log_level : ℕ → ℕ
  pub log_file : ℕ → List ℕ
  pub log_fmt : List ℕ

-- level <= LOG_LEVEL_ALL || level >= LOG_LEVEL_OFF
unfoldable pub no_level : ℤ → Bool
no_level (pos n) = leb level_off n
no_level (negsuc n) = true

-- A level that no_level lets through, as an index.
unfoldable pub index : ℤ → ℕ
index (pos n) = n
index (negsuc n) = 0

-- for (int i = from; i < from + rounds; i++) log_level[i] = flag;
unfoldable pub set_levels : ℕ → ℕ → ℕ → (ℕ → ℕ) → ℕ → ℕ
set_levels zero from flag levels = levels
set_levels (suc rounds) from flag levels =
    set_levels rounds (from + 1) flag (update levels from flag)

unfoldable pub log_set_level : ℤ → Log → Log
log_set_level level log = if no_level level then log else record log {
  log_level =
      set_levels (level_off - index level) (index level) 1
        (set_levels (index level) 0 0 log.log_level);
}

-- flag is tested against 0 only.
unfoldable pub log_set_level_one : ℤ → ℕ → Log → Log
log_set_level_one level flag log =
    if no_level level
    then log
    else record log { log_level = update log.log_level (index level) (if flag == 0 then 0 else 1) }

unfoldable pub log_set_logfile : ℤ → List ℕ → Log → Log
log_set_logfile level pathname log =
    if no_level level
    then log
    else record log { log_file = update log.log_file (index level) pathname }

unfoldable pub log_set_format : List ℕ → Log → Log
log_set_format fmt log = record log { log_fmt = fmt }

-- What a call of log_log does: nothing, a complaint on stderr, or a prefix and the caller's text.
pub data Logged : Type 0 where
  silent : Logged
  cannot_open : List ℕ → Logged
  written : List ℕ → (ℕ → ℕ) → Logged

-- `opens` tells whether fopen succeeds, `bufsiz` is BUFSIZ, `buf` what the stack held, and `now` what
-- the clock reads, each time.
unfoldable pub log_log :
    (List ℕ → Bool) → ℕ → (ℕ → ℕ) → (ℕ → Tm) → ℤ → List ℕ → ℕ → Log → Run Logged
log_log opens bufsiz buf now level filename lineno log =
    let path = log.log_file (index level) in
    if no_level level || (log.log_level (index level) == 0)
    then ok silent
    else if opens path
    then (log_fmt_tostring
          (record { level = level; filename = filename; lineno = lineno; now = now }) log.log_fmt
          buf bufsiz
        >>= λ after. ok (written path after))
    else ok (cannot_open path)
