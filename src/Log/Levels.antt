-- ===== src/Log/Levels.antt =====
-- Which messages are written, by the level that was set.
use treasure_house.Base.{
  subst, inr, inl, Bool-cases, ◌⊎◌, ℕ, zero, suc, ◌+◌, ◌-◌, ◌≤◌, ◌<◌, ◌≡◌, ◌≢◌, refl, List, Bool,
  true, false, arith, leb, ltb, ◌==◌, ◌||◌, if◌then◌else◌, none,
}
use treasure_house.Base.Int.{ℤ, pos}
use treasure_house.Base.Memory.{update}
use treasure_house.Base.Run.{ok, Ends, ends, Ends-bind}
use treasure_house.Log.{
  Log, level_off, no_level, index, set_levels, log_set_level, Logged, silent, written, log_log,
}
use treasure_house.Log.Format.{Tm, Message, level_to_string}
use treasure_house.Log.Text.{expand, HoldsText, log_fmt_tostring-HoldsText}

set_levels-lem :
    (rounds from flag : ℕ) (levels : ℕ → ℕ) (i : ℕ)
    → set_levels rounds from flag levels i
      ≡ (if leb from i then if ltb i (from + rounds) then flag else levels i else levels i)
unfolding set_levels
set_levels-lem zero from flag levels i = ground arith
set_levels-lem (suc rounds) from flag levels i =
    ground (arith, set_levels-lem rounds (from + 1) flag (update levels from flag) i)

pub log_set_level-lem :
    (n i : ℕ) (log : Log)
    → n < level_off
    → i < level_off
    → (log_set_level (pos n) log).log_level i ≡ (if leb n i then 1 else 0)
unfolding log_set_level no_level index
log_set_level-lem n i log valid inside = ground (
  arith,
  set_levels-lem (level_off - n) n 1 (set_levels n 0 0 log.log_level) i,
  set_levels-lem n 0 0 log.log_level i,
)

log_set_level-log_file :
    (level : ℤ) (log : Log) (i : ℕ) → (log_set_level level log).log_file i ≡ log.log_file i
unfolding log_set_level
log_set_level-log_file level log i = ground arith

log_set_level-log_fmt : (level : ℤ) (log : Log) → (log_set_level level log).log_fmt ≡ log.log_fmt
unfolding log_set_level
log_set_level-log_fmt level log = ground arith

pub level_to_string-named : (n : ℕ) → n < level_off → level_to_string (pos n) ≢ none
unfolding level_to_string
level_to_string-named n inside = ground arith

-- A call that writes to the file `path` with the text before the caller's.
abbrev pub Writes : List ℕ → ℕ → List ℕ → Logged → Type 0
Writes path len text (written p buf) = (p ≡ path) × HoldsText len text buf
Writes path len text _ = ⊥

module _ (opens : List ℕ → Bool) (bufsiz : ℕ) (buf : ℕ → ℕ) (now : ℕ → Tm) (filename : List ℕ)
    (lineno : ℕ) where
  abbrev pub message : ℕ → Message
  message k = record { level = pos k; filename = filename; lineno = lineno; now = now }

  log_log-Writes :
      (k : ℕ) (log : Log) (path fmt : List ℕ)
      → 0 < bufsiz
      → k < level_off
      → log.log_level k ≡ 1
      → log.log_file k ≡ path
      → log.log_fmt ≡ fmt
      → opens path ≡ true
      → Ends
          (Writes path bufsiz (expand (message k) 0 false fmt))
          (log_log opens bufsiz buf now (pos k) filename lineno log)
  unfolding log_log no_level index
  log_log-Writes k log path fmt room inside on file format opened =
      let heard : (leb level_off k || (log.log_level k == 0)) ≡ false = ground arith in
      rw (heard, file, opened)
        (Ends-bind
          (log_fmt_tostring-HoldsText (message k) log.log_fmt buf bufsiz
            (level_to_string-named k inside) room)
          (λ after held.
            ends (
              refl,
              subst (λ f. HoldsText bufsiz (expand (message k) 0 false f) after) format held,
            )))

  log_log-silent :
      (k : ℕ) (log : Log)
      → log.log_level k ≡ 0
      → log_log opens bufsiz buf now (pos k) filename lineno log ≡ ok silent
  unfolding log_log index
  log_log-silent k log off = ground arith

  -- After a call of log_set_level with a level of the six, for a message of one of the six levels
  -- whose file opens: the message is dropped if its level is below the one set. If not, log_log ends,
  -- and before the caller's text it writes to the file of that level the expansion of the format, cut
  -- to BUFSIZ - 1 bytes, each part of the time being that of a reading of the clock of its own.
  pub log_log-log_set_level :
      (n k : ℕ) (log : Log)
      → 0 < bufsiz
      → n < level_off
      → k < level_off
      → opens (log.log_file k) ≡ true
      → ((k < n)
          × (log_log opens bufsiz buf now (pos k) filename lineno (log_set_level (pos n) log)
              ≡ ok silent))
        ⊎ ((n ≤ k)
            × Ends
                (Writes (log.log_file k) bufsiz (expand (message k) 0 false log.log_fmt))
                (log_log opens bufsiz buf now (pos k) filename lineno (log_set_level (pos n) log)))
  log_log-log_set_level n k log room valid inside opened =
      let after = log_set_level (pos n) log in
      elim (Bool-cases (leb n k)) [
        | inl above ↦ inr (
          ground arith,
          log_log-Writes k after (log.log_file k) log.log_fmt room inside
              (ground (arith, log_set_level-lem n k log valid inside))
              (log_set_level-log_file (pos n) log k) (log_set_level-log_fmt (pos n) log) opened,
        )
        | inr below ↦ inl (
          ground arith,
          log_log-silent k after (ground (arith, log_set_level-lem n k log valid inside)),
        )
      ]
