-- ===== src/Log/Text.antt =====
-- The prefix as a text without bounds, and log_fmt_tostring against it.
use treasure_house.Base.{
  ℕ, ◌+◌, ◌-◌, ◌≤◌, ◌<◌, ◌≡◌, ◌≢◌, ◌⊎◌, refl, ◌∙◌, List, [], ◌∷◌, ◌++◌, length, arith, ltb, ◌==◌,
  true, false, Bool, Bool-cases, inl, inr, if◌then◌else◌, Option, none, some, subst, length-append,
}
use treasure_house.Base.Run.{fault, Ends, ends, Ends-bind, Ends-weaken, Ends-test, ◌>>=◌}
use treasure_house.Log.Format.{
  Message, Case, year, month, day, date, hour, minute, second, clock, file, line, level, sign,
  other, Cursor, advance, step_to, Tm, percent, case_of, digits, time_text, level_to_string,
  fmt_switch, fmt_round, fmt_loop, log_fmt_tostring, log_get_time_fmt, snprintf, store,
}
use treasure_house.Log.Buffer.{
  Spells, Spells-past, Spells-append, Spells-same, Copied, store-Copied, snprintf-Copied,
}

abbrev pub text_or_empty : Option (List ℕ) → List ℕ
text_or_empty none = []
text_or_empty (some text) = text

-- What stands in the text for a percent sign and `c`, the clock having been read `reads` times.
abbrev pub meaning : Message → ℕ → ℕ → Case → List ℕ
meaning m reads c sign = percent ∷ []
meaning m reads c file = m.filename
meaning m reads c line = digits 1 m.lineno
meaning m reads c level = text_or_empty (level_to_string m.level)
meaning m reads c other = c ∷ []
meaning m reads c time = text_or_empty (time_text (m.now reads) time)

-- Each part of the time reads the clock anew.
abbrev pub ticks : Case → ℕ → ℕ
ticks sign reads = reads
ticks file reads = reads
ticks line reads = reads
ticks level reads = reads
ticks other reads = reads
ticks time reads = reads + 1

-- The format expanded; the flag tells that a percent sign came before.
abbrev pub expand : Message → ℕ → Bool → List ℕ → List ℕ
expand m reads escaped [] = []
expand m reads true (c ∷ fmt) =
    meaning m reads c (case_of c) ++ expand m (ticks (case_of c) reads) false fmt
expand m reads false (c ∷ fmt) =
    if c == percent then expand m reads true fmt else c ∷ expand m reads false fmt

-- The cursor is past `count` bytes, or where both are past the room that the buffer has.
abbrev Reached : ℕ → ℕ → ℕ → Type 0
Reached len i count = (i ≡ count) ⊎ ((len - 1 ≤ i) × (len - 1 ≤ count))

-- From `s` to `t` the bytes were appended.
abbrev Moved : ℕ → Cursor → List ℕ → Cursor → Type 0
Moved len s bytes t = Copied (len - 1) s.buf s.i bytes t.buf × Reached len t.i (s.i + length bytes)

abbrev Directed : ℕ → ℕ → Cursor → List ℕ → Cursor → Type 0
Directed len reads s bytes t =
    Moved len s bytes t × ((t.prev == percent) ≡ false) × (t.reads ≡ reads)

stored :
    (len c prev : ℕ) (s : Cursor)
    → s.i < len - 1
    → Ends
        (λ t. Moved len s (c ∷ []) t × (t.prev ≡ prev) × (t.reads ≡ s.reads))
        (store len s.i c s.buf >>= step_to s prev)
stored len c prev s below =
    Ends-bind (store-Copied len s.i c s.buf (omega arith))
      (λ buf (same, put). ends (((same, ((λ inside. put), tt)), inl refl), refl, refl))

printed :
    (len : ℕ) (bytes : List ℕ) (s : Cursor)
    → s.i < len - 1
    → Ends (Directed len s.reads s bytes) (snprintf len s.i (len - s.i) bytes s.buf >>= advance s)
printed len bytes s below =
    Ends-bind (snprintf-Copied len s.i bytes s.buf (omega arith))
      (λ (n, buf) (e, copied). ends ((copied, inl (ground arith)), refl, refl))

log_get_time_fmt-Copied :
    (len at : ℕ) (now : Tm) (k : Case) (bytes : List ℕ) (buf : ℕ → ℕ)
    → time_text now k ≡ some bytes
    → at < len - 1
    → Ends
        (λ p. Copied (len - 1) buf at bytes p.1 × Reached len (at + p.0) (at + length bytes))
        (log_get_time_fmt len at (len - at) now k buf)
unfolding log_get_time_fmt
log_get_time_fmt-Copied len at now k bytes buf e below = rw e (
    Ends-bind (snprintf-Copied len at bytes buf (omega arith)) (λ (n, after) (full, copied). ends (
      copied,
      elim (Bool-cases (ltb n (len - at - 1))) [
        | inl short ↦ inl (ground arith)
        | inr long ↦ inr (ground arith)
      ],
    )))

timed :
    (m : Message) (len : ℕ) (k : Case) (bytes : List ℕ) (s : Cursor)
    → time_text (m.now s.reads) k ≡ some bytes
    → s.i < len - 1
    → Ends (Directed len (s.reads + 1) s bytes) (
        log_get_time_fmt len s.i (len - s.i) (m.now s.reads) k s.buf
        >>= advance (record s { reads = s.reads + 1 }))
timed m len k bytes s e below =
    Ends-bind (log_get_time_fmt-Copied len s.i (m.now s.reads) k bytes s.buf e below)
      (λ (n, buf) moved. ends (moved, refl, refl))

level_name :
    (len : ℕ) (name : Option (List ℕ)) (s : Cursor)
    → name ≢ none
    → s.i < len - 1
    → Ends (Directed len s.reads s (text_or_empty name)) (elim name [
      | none ↦ fault
      | some text ↦ snprintf len s.i (len - s.i) text s.buf >>= advance s
    ])
level_name len none s named below = absurd (named refl)
level_name len (some text) s named below = printed len text s below

-- Each case of the switch writes what the documentation says of it.
fmt_switch-Directed :
    (m : Message) (len c : ℕ) (k : Case) (s : Cursor)
    → level_to_string m.level ≢ none
    → (k ≡ other → (c == percent) ≡ false)
    → s.i < len - 1
    → Ends (Directed len (ticks k s.reads) s (meaning m s.reads c k)) (fmt_switch m len c k s)
unfolding fmt_switch time_text
fmt_switch-Directed m len c sign s named plain below =
    Ends-weaken (stored len percent 0 s below) (λ t (moved, e, same). (moved, ground arith, same))
fmt_switch-Directed m len c file s named plain below = printed len m.filename s below
fmt_switch-Directed m len c line s named plain below = printed len (digits 1 m.lineno) s below
fmt_switch-Directed m len c level s named plain below =
    level_name len (level_to_string m.level) s named below
fmt_switch-Directed m len c other s named plain below =
    Ends-weaken (stored len c c s below)
      (λ t (moved, e, same). (moved, ground (arith, plain refl), same))
fmt_switch-Directed m len c year s named plain below =
    timed m len year (text_or_empty (time_text (m.now s.reads) year)) s refl below
fmt_switch-Directed m len c month s named plain below =
    timed m len month (text_or_empty (time_text (m.now s.reads) month)) s refl below
fmt_switch-Directed m len c day s named plain below =
    timed m len day (text_or_empty (time_text (m.now s.reads) day)) s refl below
fmt_switch-Directed m len c date s named plain below =
    timed m len date (text_or_empty (time_text (m.now s.reads) date)) s refl below
fmt_switch-Directed m len c hour s named plain below =
    timed m len hour (text_or_empty (time_text (m.now s.reads) hour)) s refl below
fmt_switch-Directed m len c minute s named plain below =
    timed m len minute (text_or_empty (time_text (m.now s.reads) minute)) s refl below
fmt_switch-Directed m len c second s named plain below =
    timed m len second (text_or_empty (time_text (m.now s.reads) second)) s refl below
fmt_switch-Directed m len c clock s named plain below =
    timed m len clock (text_or_empty (time_text (m.now s.reads) clock)) s refl below

case_of-other : (c : ℕ) → case_of c ≡ other → (c == percent) ≡ false
unfolding case_of
case_of-other c e = ground arith

Moved-then :
    (len : ℕ) (xs ys : List ℕ) (s t u : Cursor)
    → s.i < len - 1
    → Moved len s xs t
    → Moved len t ys u
    → Moved len s (xs ++ ys) u
Moved-then len xs ys s t u below ((same, put), inl at) ((later, rest), to) = (
  (
    λ k l. later k (omega arith) ∙ same k l,
    Spells-append (len - 1) u.buf s.i xs ys
        (Spells-same (len - 1) t.buf u.buf s.i xs (λ k l m. later k (omega arith)) put)
        (subst (λ i. Spells (len - 1) u.buf i ys) at rest),
  ),
  elim to [
    | inl e ↦ inl (omega (arith, length-append xs ys))
    | inr (past, long) ↦ inr (past, omega (arith, length-append xs ys))
  ],
)
Moved-then len xs ys s t u below ((same, put), inr (past, long)) ((later, rest), to) = (
  (
    λ k l. later k (omega arith) ∙ same k l,
    Spells-append (len - 1) u.buf s.i xs ys
        (Spells-same (len - 1) t.buf u.buf s.i xs (λ k l m. later k (omega arith)) put)
        (Spells-past (len - 1) u.buf (s.i + length xs) ys long),
  ),
  elim to [
    | inl e ↦ inr (omega arith, omega (arith, length-append xs ys))
    | inr (over, longer) ↦ inr (over, omega (arith, length-append xs ys))
  ],
)

Moved-past : (len : ℕ) (bs : List ℕ) (s : Cursor) → len - 1 ≤ s.i → Moved len s bs s
Moved-past len bs s past =
    ((λ k l. refl, Spells-past (len - 1) s.buf s.i bs past), inr (past, omega arith))

module _ (m : Message) (len : ℕ) (named : level_to_string m.level ≢ none) where
  -- The loop appends the expansion of what is left of the format.
  fmt_loop-Moved :
      (fmt : List ℕ) (escaped : Bool) (s : Cursor)
      → (s.prev == percent) ≡ escaped
      → Ends (Moved len s (expand m s.reads escaped fmt)) (fmt_loop m len fmt s)
  unfolding fmt_loop fmt_round
  fmt_loop-Moved [] escaped s flag = ends ((λ k l. refl, tt), inl (omega arith))
  fmt_loop-Moved (c ∷ fmt) true s flag =
      Ends-test (ltb s.i (len - 1))
        (λ room.
          let below : s.i < len - 1 = ground arith in
          rw flag (
            Ends-bind (fmt_switch-Directed m len c (case_of c) s named (case_of-other c) below)
              (λ t (moved, plain, now). Ends-weaken (fmt_loop-Moved fmt false t plain) (λ u rest.
                subst (λ r. Moved len s (meaning m s.reads c (case_of c) ++ expand m r false fmt) u)
                  now
                  (Moved-then len (meaning m s.reads c (case_of c)) (expand m t.reads false fmt) s t
                    u below moved rest)))))
        (λ full. ends (Moved-past len (expand m s.reads true (c ∷ fmt)) s (ground arith)))
  fmt_loop-Moved (c ∷ fmt) false s flag =
      Ends-test (ltb s.i (len - 1))
        (λ room.
          let below : s.i < len - 1 = ground arith in
          rw flag (elim (Bool-cases (c == percent)) [
            | inl found ↦ rw found (fmt_loop-Moved fmt true (record s { prev = c }) found)
            | inr plain ↦ rw plain (
                Ends-bind (stored len c c s below) (λ t (moved, e, now).
                  Ends-weaken (fmt_loop-Moved fmt false t (ground arith)) (λ u rest.
                    subst (λ r. Moved len s (c ∷ expand m r false fmt) u) now
                      (Moved-then len (c ∷ []) (expand m t.reads false fmt) s t u below moved
                        rest))))
          ]))
        (λ full. ends (Moved-past len (expand m s.reads false (c ∷ fmt)) s (ground arith)))

-- A buffer that holds the text, cut to the room that `len` bytes leave for it, and the NUL.
abbrev pub HoldsText : ℕ → List ℕ → (ℕ → ℕ) → Type 0
HoldsText len text buf =
    Spells (len - 1) buf 0 text × (buf (if ltb (length text) len then length text else len - 1) ≡ 0)

-- Into a buffer of one byte or more, for a message of one of the six levels, log_fmt_tostring ends
-- without writing outside the buffer, whatever the format and the file name are: the buffer then
-- holds the expansion of the format, cut to len - 1 bytes, and a NUL behind it. In the expansion each
-- part of the time is that of a reading of the clock of its own.
pub log_fmt_tostring-HoldsText :
    (m : Message) (fmt : List ℕ) (str : ℕ → ℕ) (len : ℕ)
    → level_to_string m.level ≢ none
    → 0 < len
    → Ends (HoldsText len (expand m 0 false fmt)) (log_fmt_tostring m fmt str len)
unfolding log_fmt_tostring
log_fmt_tostring-HoldsText m fmt str len named room =
    Ends-bind
      (fmt_loop-Moved m len named fmt false (record { reads = 0; i = 0; prev = 0; buf = str }) refl)
      (λ t ((same, put), to).
        let text = expand m 0 false fmt in
        let stop = if ltb t.i len then t.i else len - 1 in
        let inside : stop < len = ground arith in
        let end : stop ≡ (if ltb (length text) len then length text else len - 1) = ground arith in
        Ends-weaken (store-Copied len stop 0 t.buf inside) (λ after (kept, nul). (
          Spells-same (len - 1) t.buf after 0 text (λ k l h. kept k (ground arith)) put,
          subst (λ k. after k ≡ 0) end nul,
        )))
