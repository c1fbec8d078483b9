-- ===== src/Timer.antt =====
-- The timers of src/coroutine/co_time.c and co_time.h. A time is a `long` of milliseconds that is
-- not negative, since CLOCK_MONOTONIC counts from the boot; the clock's reading is an argument.
pub mod Order
mod Tests
use treasure_house.Base.{ℕ, ◌+◌, ◌-◌, ◌*◌, ◌/◌, ◌%◌, ◌^◌, Option, none, some, ltb, if◌then◌else◌}
use treasure_house.Base.Int.{ℤ, pos, negsuc}

-- struct timespec
pub record Timespec : Type 0 where
  pub tv_sec : ℕ
  pub tv_nsec : ℕ

unfoldable pub ns_to_ms : ℕ → ℕ
ns_to_ms ns = ns / 1000 / 1000

unfoldable pub s_to_ms : ℕ → ℕ
s_to_ms s = s * 1000

unfoldable pub time_now : Timespec → ℕ
unfolding ns_to_ms s_to_ms
time_now now = s_to_ms now.tv_sec + ns_to_ms now.tv_nsec

-- A callback turns the state `S` of its world into another.
pub record CoTimer (S : Type 0) : Type 0 where
  pub when : ℕ
  pub callback : Option (ℕ → S → S)
  pub args : ℕ

unfoldable pub co_timer_after : {S : Type 0} → Timespec → ℕ → Option (ℕ → S → S) → ℕ → CoTimer S
unfolding time_now
co_timer_after now after_ms callback args = record {
  when = time_now now + after_ms;
  callback = callback;
  args = args;
}

-- A timer without a callback does nothing.
unfoldable pub co_timer_run : {S : Type 0} → CoTimer S → S → S
co_timer_run t s = elim t.callback [ none ↦ s | some callback ↦ callback t.args s ]

-- The conversion of a `long`, as its bit pattern, to `int`.
unfoldable pub to_int : ℕ → ℤ
to_int w = if ltb (w % 2 ^ 32) (2 ^ 31) then pos (w % 2 ^ 32) else negsuc (2 ^ 32 - w % 2 ^ 32 - 1)

-- `when1 - when2` is a `long`, and the result is an `int`.
unfoldable pub co_timer_cmp : {S : Type 0} → CoTimer S → CoTimer S → ℤ
unfolding to_int
co_timer_cmp t1 t2 = to_int ((t1.when + 2 ^ 64 - t2.when) % 2 ^ 64)
