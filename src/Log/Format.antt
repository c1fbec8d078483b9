-- ===== src/Log/Format.antt =====
-- The prefix of a message: level_to_string, log_get_time_fmt and log_fmt_tostring. A store outside
-- the buffer of `len` bytes is a fault.
use treasure_house.Base.{
  ℕ, zero, suc, ◌+◌, ◌-◌, ◌/◌, ◌%◌, List, [], ◌∷◌, ◌++◌, Option, none, some, ◌==◌, ltb, leb,
  if◌then◌else◌, length, not,
}
use treasure_house.Base.Int.{ℤ, pos, negsuc}
use treasure_house.Base.Memory.{update}
use treasure_house.Base.Run.{Run, ok, fault, ◌>>=◌}

abbrev pub percent : ℕ
percent = 37

-- What localtime fills in, of struct tm: the year counts from 1900, the month from 0.
pub record Tm : Type 0 where
  pub tm_year : ℕ
  pub tm_mon : ℕ
  pub tm_mday : ℕ
  pub tm_hour : ℕ
  pub tm_min : ℕ
  pub tm_sec : ℕ

-- The arguments of log_fmt_tostring that the text depends on, and the time at each of its readings
-- of the clock, the first one at 0.
pub record Message : Type 0 where
  pub level : ℤ
  pub filename : List ℕ
  pub lineno : ℕ
  pub now : ℕ → Tm

-- printf's %0<width>d, and %d at width 1, for what has at most `fuel` digits.
unfoldable pub decimal : ℕ → ℕ → ℕ → List ℕ
decimal zero width n = []
decimal (suc fuel) width n =
    let rest = decimal fuel (width - 1) (n / 10) in
    (if leb width 1 then if ltb n 10 then [] else rest else rest) ++ (48 + n % 10) ∷ []

abbrev pub digits : ℕ → ℕ → List ℕ
digits width n = decimal 20 width n

-- The case labels of the two switches.
pub data Case : Type 0 where
  year month day date hour minute second clock file line level sign other : Case

unfoldable pub case_of : ℕ → Case
case_of c =
    if c == 89
    then year
    else if c == 109
    then month
    else if c == 100
    then day
    else if c == 70
    then date
    else if c == 72
    then hour
    else if c == 77
    then minute
    else if c == 83
    then second
    else if c == 84
    then clock
    else if c == 102
    then file
    else if c == 108
    then line
    else if c == 76
    then level
    else if c == percent
    then sign
    else other

unfoldable pub level_to_string : ℤ → Option (List ℕ)
level_to_string (negsuc n) = none
level_to_string (pos n) =
    if n == 0
    then some (84 ∷ 82 ∷ 65 ∷ 67 ∷ 69 ∷ [])
    else if n == 1
    then some (68 ∷ 69 ∷ 66 ∷ 85 ∷ 71 ∷ [])
    else if n == 2
    then some (73 ∷ 78 ∷ 70 ∷ 79 ∷ [])
    else if n == 3
    then some (87 ∷ 65 ∷ 82 ∷ 78 ∷ 73 ∷ 78 ∷ 71 ∷ [])
    else if n == 4
    then some (69 ∷ 82 ∷ 82 ∷ 79 ∷ 82 ∷ [])
    else if n == 5
    then some (70 ∷ 65 ∷ 84 ∷ 65 ∷ 76 ∷ [])
    else none

-- str[at] = c
unfoldable pub store : ℕ → ℕ → ℕ → (ℕ → ℕ) → Run (ℕ → ℕ)
store len at c buf = if ltb at len then ok (update buf at c) else fault

-- What snprintf(str + at, size, …) stores of the text, with its NUL.
unfoldable pub copy : ℕ → ℕ → ℕ → List ℕ → (ℕ → ℕ) → Run (ℕ → ℕ)
copy len at zero bs buf = ok buf
copy len at (suc size) [] buf = store len at 0 buf
copy len at (suc size) (b ∷ bs) buf =
    if size == 0 then store len at 0 buf else store len at b buf >>= copy len (at + 1) size bs

-- The length that a call of snprintf returns, cut or not, with the buffer.
unfoldable pub snprintf : ℕ → ℕ → ℕ → List ℕ → (ℕ → ℕ) → Run (ℕ × (ℕ → ℕ))
snprintf len at size bs buf = copy len at size bs buf >>= λ after. ok (length bs, after)

-- The text that log_get_time_fmt prints.
unfoldable pub time_text : Tm → Case → Option (List ℕ)
time_text ptm year = some (digits 4 (1900 + ptm.tm_year))
time_text ptm month = some (digits 2 (ptm.tm_mon + 1))
time_text ptm day = some (digits 2 ptm.tm_mday)
time_text ptm date =
    some
      (digits 4 (1900 + ptm.tm_year) ++ 45 ∷ digits 2 (ptm.tm_mon + 1) ++ 45 ∷ digits 2 ptm.tm_mday)
time_text ptm hour = some (digits 2 ptm.tm_hour)
time_text ptm minute = some (digits 2 ptm.tm_min)
time_text ptm second = some (digits 2 ptm.tm_sec)
time_text ptm clock =
    some (digits 2 ptm.tm_hour ++ 58 ∷ digits 2 ptm.tm_min ++ 58 ∷ digits 2 ptm.tm_sec)
time_text ptm _ = none

-- str is the buffer from `at` on, `size` the length given for it, and `now` what the clock reads.
unfoldable pub log_get_time_fmt : ℕ → ℕ → ℕ → Tm → Case → (ℕ → ℕ) → Run (ℕ × (ℕ → ℕ))
log_get_time_fmt len at size now format buf =
    (elim (time_text now format) [ none ↦ ok (0, buf) | some text ↦ snprintf len at size text buf ])
    >>= λ (ret, after). ok (if ltb ret (size - 1) then ret else size - 1, after)

-- The local variables of log_fmt_tostring, with the buffer and the readings of the clock so far.
pub record Cursor : Type 0 where
  pub reads : ℕ
  pub i : ℕ
  pub prev : ℕ
  pub buf : ℕ → ℕ

abbrev pub advance : Cursor → ℕ × (ℕ → ℕ) → Run Cursor
advance s (str_len, buf) = ok (record s { i = s.i + str_len; prev = 0; buf = buf })

-- str[i++] = …; prev = …;
abbrev pub step_to : Cursor → ℕ → (ℕ → ℕ) → Run Cursor
step_to s prev buf = ok (record s { i = s.i + 1; prev = prev; buf = buf })

-- The switch behind a percent sign.
unfoldable pub fmt_switch : Message → ℕ → ℕ → Case → Cursor → Run Cursor
fmt_switch m len c sign s = store len s.i percent s.buf >>= step_to s 0
fmt_switch m len c file s = snprintf len s.i (len - s.i) m.filename s.buf >>= advance s
fmt_switch m len c line s = snprintf len s.i (len - s.i) (digits 1 m.lineno) s.buf >>= advance s
fmt_switch m len c level s = elim (level_to_string m.level) [
  | none ↦ fault
  | some name ↦ snprintf len s.i (len - s.i) name s.buf >>= advance s
]
fmt_switch m len c other s = store len s.i c s.buf >>= step_to s c
fmt_switch m len c time s =
    log_get_time_fmt len s.i (len - s.i) (m.now s.reads) time s.buf
    >>= advance (record s { reads = s.reads + 1 })

-- One round of the loop.
unfoldable pub fmt_round : Message → ℕ → ℕ → Cursor → Run Cursor
fmt_round m len c s =
    if not (s.prev == percent)
    then if not (c == percent)
      then (store len s.i c s.buf >>= step_to s c)
      else ok (record s { prev = c })
    else fmt_switch m len c (case_of c) s

unfoldable pub fmt_loop : Message → ℕ → List ℕ → Cursor → Run Cursor
fmt_loop m len [] s = ok s
fmt_loop m len (c ∷ fmt) s =
    if ltb s.i (len - 1) then fmt_round m len c s >>= fmt_loop m len fmt else ok s

unfoldable pub log_fmt_tostring : Message → List ℕ → (ℕ → ℕ) → ℕ → Run (ℕ → ℕ)
log_fmt_tostring m fmt str len =
    fmt_loop m len fmt (record { reads = 0; i = 0; prev = 0; buf = str }) >>= λ s.
    store len (if ltb s.i len then s.i else len - 1) 0 s.buf
