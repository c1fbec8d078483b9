-- ===== src/Log/Tests.antt =====
-- Runs of the logger.
use treasure_house.Log.{
  Log, log_set_level, log_set_level_one, log_set_logfile, log_set_format, log_log, silent, no_level,
  index, set_levels,
}
use treasure_house.Log.Levels.{log_log-log_set_level, Writes, level_to_string-named}
use treasure_house.Log.Text.{expand, HoldsText, log_fmt_tostring-HoldsText}
use treasure_house.Base.{
  false, true, if◌then◌else◌, ltb, ◌<◌, ◌≤◌, ◌⊎◌, arith, zero, ◌+◌, suc, ℕ, ◌≡◌, refl, List, [],
  ◌∷◌,
}
use treasure_house.Base.Int.{pos}
use treasure_house.Base.Run.{Ends, Run, ok}
use treasure_house.Log.Format.{
  Tm, Message, log_fmt_tostring, fmt_loop, fmt_round, fmt_switch, case_of, log_get_time_fmt,
  time_text, snprintf, copy, store, decimal, level_to_string,
}

abbrev noon : Tm
noon = record { tm_year = 122; tm_mon = 6; tm_mday = 9; tm_hour = 12; tm_min = 0; tm_sec = 5 }

-- A second goes by between two readings.
abbrev ticking : ℕ → Tm
ticking n = record noon { tm_sec = 58 + n }

abbrev message : Message
message = record { level = pos 1; filename = 97 ∷ 46 ∷ 99 ∷ []; lineno = 120; now = ticking }

abbrev bytes : ℕ → (ℕ → ℕ) → List ℕ
bytes zero f = []
bytes (suc n) f = f 0 ∷ bytes n (λ k. f (k + 1))

abbrev shown : ℕ → Run (ℕ → ℕ) → List ℕ
shown n (ok f) = bytes n f
shown n _ = []

-- "%m:%l|%L" in a buffer of 11 bytes: 07:120|DEBU and NUL... cut
cut :
    shown 10 (log_fmt_tostring message (37 ∷ 109 ∷ 58 ∷ 37 ∷ 108 ∷ 124 ∷ 37 ∷ 76 ∷ []) (λ _. 9) 10)
    ≡ 48 ∷ 55 ∷ 58 ∷ 49 ∷ 50 ∷ 48 ∷ 124 ∷ 68 ∷ 69 ∷ 0 ∷ []
unfolding log_fmt_tostring fmt_loop fmt_round fmt_switch case_of log_get_time_fmt time_text snprintf
    copy store decimal level_to_string
cut = refl

-- "%S%S": the clock is read twice.
read_twice :
    shown 5 (log_fmt_tostring message (37 ∷ 83 ∷ 37 ∷ 83 ∷ []) (λ _. 9) 10)
    ≡ 53 ∷ 56 ∷ 53 ∷ 57 ∷ 0 ∷ []
unfolding log_fmt_tostring fmt_loop fmt_round fmt_switch case_of log_get_time_fmt time_text snprintf
    copy store decimal level_to_string
read_twice = refl

abbrev format : List ℕ
format = 37 ∷ 109 ∷ 58 ∷ 37 ∷ 108 ∷ 124 ∷ 37 ∷ 76 ∷ []

log_fmt_tostring-HoldsText_example :
    Ends
      (HoldsText 10 (expand message 0 false format))
      (log_fmt_tostring message format (λ _. 9) 10)
log_fmt_tostring-HoldsText_example =
    log_fmt_tostring-HoldsText message format (λ _. 9) 10 (level_to_string-named 1 (ground arith))
      (ground arith)

abbrev initial : Log
initial = record {
  log_level = λ i. if ltb i 4 then 0 else 1;
  log_file = λ _. 47 ∷ 97 ∷ [];
  log_fmt = format;
}

default_level : (log_set_level (pos 4) initial).log_level 3 ≡ initial.log_level 3
unfolding log_set_level no_level index set_levels
default_level = refl

turned_off : (log_set_level_one (pos 5) 0 initial).log_level 5 ≡ 0
unfolding log_set_level_one no_level index
turned_off = refl

redirected : (log_set_logfile (pos 2) (98 ∷ []) initial).log_file 2 ≡ 98 ∷ []
unfolding log_set_logfile no_level index
redirected = refl

reformatted : (log_set_format [] initial).log_fmt ≡ []
unfolding log_set_format
reformatted = refl

log_log-log_set_level_example :
    ((2 < 3)
      × (log_log
            (λ _. true)
            8192
            (λ _. 9)
            ticking
            (pos 2)
            (97 ∷ [])
            7
            (log_set_level (pos 3) initial)
          ≡ ok silent))
    ⊎ ((3 ≤ 2)
        × Ends
            (Writes (initial.log_file 2) 8192 (
              expand
                (record { level = pos 2; filename = 97 ∷ []; lineno = 7; now = ticking })
                0
                false
                format))
            (log_log
              (λ _. true)
              8192
              (λ _. 9)
              ticking
              (pos 2)
              (97 ∷ [])
              7
              (log_set_level (pos 3) initial)))
log_log-log_set_level_example =
    log_log-log_set_level (λ _. true) 8192 (λ _. 9) ticking (97 ∷ []) 7 3 2 initial (ground arith)
      (ground arith) (ground arith) refl
