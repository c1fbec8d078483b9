-- ===== src/Timer/Order.antt =====
-- When co_timer_cmp orders timers by their times: inside a window of 2^31 ms, and not beyond.
use treasure_house.Base.{ℕ, ◌+◌, ◌^◌, ◌≤◌, ◌<◌, ◌≡◌, true, false, arith, leb}
use treasure_house.Base.Int.{ℤ, le_zero, ge_zero}
use treasure_house.Heap.Order.{IsComparison}
use treasure_house.Timer.{CoTimer, co_timer_cmp}

module _ {S : Type 0} where
  -- Timers less than 2^31 ms apart are ordered by their times, both ways round.
  pub co_timer_cmp_window :
      (t1 t2 : CoTimer S)
      → t1.when < 2 ^ 63
      → t2.when < 2 ^ 63
      → t1.when < t2.when + 2 ^ 31
      → t2.when < t1.when + 2 ^ 31
      → (le_zero (co_timer_cmp t1 t2) ≡ leb t1.when t2.when)
        × (ge_zero (co_timer_cmp t1 t2) ≡ leb t2.when t1.when)
  unfolding co_timer_cmp
  co_timer_cmp_window t1 t2 h1 h2 a b = ground arith

  -- A timer that is due between 2^31 and 2^32 ms after another counts as due before it.
  pub co_timer_cmp_wraps :
      (t1 t2 : CoTimer S)
      → t2.when < 2 ^ 63
      → t1.when + 2 ^ 31 < t2.when
      → t2.when < t1.when + 2 ^ 32
      → (le_zero (co_timer_cmp t1 t2) ≡ false) × (le_zero (co_timer_cmp t2 t1) ≡ true)
  unfolding co_timer_cmp
  co_timer_cmp_wraps t1 t2 h a b = ground arith

-- A timer that is due within 2^31 ms from `base`.
pub record Windowed (S : Type 0) (base : ℕ) : Type 0 where
  pub timer : CoTimer S
  pub from : base ≤ timer.when
  pub to : timer.when < base + 2 ^ 31

unfoldable pub windowed_cmp : {S : Type 0} {base : ℕ} → Windowed S base → Windowed S base → ℤ
windowed_cmp a b = co_timer_cmp a.timer b.timer

-- On the timers of one window, whose end is below 2^63, co_timer_cmp flips its sign with its
-- arguments, and it chains.
pub windowed_cmp-IsComparison :
    (S : Type 0) (base : ℕ)
    → base + 2 ^ 31 ≤ 2 ^ 63
    → IsComparison (windowed_cmp {S = S} {base = base})
unfolding windowed_cmp
windowed_cmp-IsComparison S base h = record {
  flips = λ a b. ground (
    arith,
    co_timer_cmp_window a.timer b.timer,
    co_timer_cmp_window b.timer a.timer,
    a.from,
    a.to,
    b.from,
    b.to,
  );
  chains = λ a b c p q. ground (
    arith,
    co_timer_cmp_window a.timer b.timer,
    co_timer_cmp_window b.timer c.timer,
    co_timer_cmp_window a.timer c.timer,
    a.from,
    a.to,
    b.from,
    b.to,
    c.from,
    c.to,
  );
}
