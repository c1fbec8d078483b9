-- ===== src/Timer/Tests.antt =====
-- Timers at the edge of the window, and the theorems at them.
use treasure_house.Base.{ℕ, ◌+◌, ◌≡◌, refl, true, false, none, some, arith, leb}
use treasure_house.Base.Int.{le_zero, ge_zero}
use treasure_house.Timer.{CoTimer, co_timer_after, co_timer_run, co_timer_cmp}
use treasure_house.Timer.Order.{
  windowed_cmp, windowed_cmp-IsComparison, co_timer_cmp_window, co_timer_cmp_wraps,
}
use treasure_house.Heap.Order.{IsComparison}

abbrev due_at : ℕ → CoTimer ℕ
due_at t = record { when = t; callback = none; args = 0 }

co_timer_cmp_window_example :
    (le_zero (co_timer_cmp (due_at 5) (due_at 9)) ≡ leb 5 9)
    × (ge_zero (co_timer_cmp (due_at 5) (due_at 9)) ≡ leb 9 5)
co_timer_cmp_window_example =
    co_timer_cmp_window (due_at 5) (due_at 9) (omega arith) (omega arith) (omega arith)
      (omega arith)

co_timer_cmp_wraps_example :
    (le_zero (co_timer_cmp (due_at 1000) (due_at 3_000_000_000)) ≡ false)
    × (le_zero (co_timer_cmp (due_at 3_000_000_000) (due_at 1000)) ≡ true)
co_timer_cmp_wraps_example =
    co_timer_cmp_wraps (due_at 1000) (due_at 3_000_000_000) (omega arith) (omega arith)
      (omega arith)

windowed_cmp-IsComparison_example : IsComparison (windowed_cmp {S = ℕ} {base = 1000})
windowed_cmp-IsComparison_example = windowed_cmp-IsComparison ℕ 1000 (omega arith)

-- 2 s and 3,500,000 ns after the boot, with 10 ms to go.
after_now :
    co_timer_run
      (co_timer_after (record { tv_sec = 2; tv_nsec = 3_500_000 }) 10 (some (λ n m. n + m)) 4)
      3
    ≡ 7
unfolding co_timer_after co_timer_run
after_now = refl
