-- ===== src/Sched/Tests/Sleeps.antt =====
-- Coroutine 7 sleeps, from 2 to 5 ms, while coroutine 8 sleeps until 9.
use treasure_house.Base.{ℕ, ◌+◌, ◌≡◌, ◌≤◌, ◌<◌, ◌^◌, ◌⊎◌, refl, true, [], ◌∷◌, some, arith}
use treasure_house.Base.Int.{ℤ}
use treasure_house.Base.Run.{Ends}
use treasure_house.Lists.{has}
use treasure_house.Lists.Plain.{plain}
use treasure_house.Heap.{HeapT}
use treasure_house.Heap.Order.{IsComparison}
use treasure_house.Heap.Queue.{IsValid}
use treasure_house.Timer.{CoTimer, Timespec, time_now, ns_to_ms, s_to_ms, co_timer_after}
use treasure_house.Timer.Order.{
  Windowed, windowed_cmp, windowed_cmp-IsComparison, co_timer_cmp_window,
}
use treasure_house.Sched.{Board, Sched, sched_running, sched_delay, co_after_delay}
use treasure_house.Sched.Loop.{process_expired_timers}
use treasure_house.Sched.Queues.{ready, waiting}
use treasure_house.Sched.Timers.{Expired, ByTime}
use treasure_house.Sched.Sleep.{sleeps_until_due}
use treasure_house.Sched.Tests.{board, fresh-Fits}

record Nap : Type 0 where
  pub when : ℕ
  pub co : ℕ
  pub short : when < 2 ^ 31

abbrev nap : Nap → CoTimer (Board plain)
nap n = record { when = n.when; callback = some co_after_delay; args = n.co }

abbrev in_window : Nap → Windowed (Board plain) 0
in_window n = record { timer = nap n; from = omega arith; to = omega (arith, n.short) }

abbrev nap_cmp : Nap → Nap → ℤ
nap_cmp a b = windowed_cmp (in_window a) (in_window b)

nap_cmp-IsComparison : IsComparison nap_cmp
nap_cmp-IsComparison =
    let v = windowed_cmp-IsComparison (Board plain) 0 (omega arith) in
    record {
      flips = λ a b. v.flips (in_window a) (in_window b);
      chains = λ a b c. v.chains (in_window a) (in_window b) (in_window c);
    }

abbrev long_nap : Nap
long_nap = record { when = 9; co = 8; short = omega arith }

abbrev short_nap : Nap
short_nap = record { when = 5; co = 7; short = omega arith }

abbrev naps : HeapT Nap
naps = record {
  elements = λ i. long_nap;
  block = 128;
  cmp_fn = nap_cmp;
  elem_size = 8;
  elem_num = 1;
  cap = 16;
}

naps-IsValid : IsValid naps
naps-IsValid = record {
  ordered = λ c p q. absurd (omega arith);
  bounded = omega arith;
  sized = refl;
  width = refl;
}

naps-ByTime : ByTime nap naps
unfolding windowed_cmp
naps-ByTime a b ahead = ground (arith, ahead, co_timer_cmp_window (nap a) (nap b), a.short, b.short)

abbrev drowsy : Sched plain Nap
drowsy = record {
  board = board;
  co_timer_heap = naps;
  co_curr = 7;
  status = sched_running;
  co_nums = 2;
  stack = λ k. k;
}

abbrev at_two : Timespec
at_two = record { tv_sec = 0; tv_nsec = 2000000 }

sleeps_until_due_example :
    Ends
      (λ t.
        (waiting t.board ≡ 7 ∷ [])
        × Ends
            (λ r.
              (e : Expired nap
                (λ k. 6 + k)
                t.co_timer_heap
                t.board
                (r.0, r.1.co_timer_heap, r.1.board))
              × (((time_now at_two + 3 ≤ 6 + e.last) × (has 7 (ready r.1.board) ≡ true))
                  ⊎ ((6 + e.last < time_now at_two + 3) × (has 7 (waiting r.1.board) ≡ true))))
            (process_expired_timers nap (λ k. 6 + k) t))
      (sched_delay at_two (λ _. short_nap) 3 4 drowsy)
unfolding co_timer_after time_now ns_to_ms s_to_ms
sleeps_until_due_example =
    sleeps_until_due nap at_two (λ _. short_nap) 3 4 (λ k. 6 + k) drowsy refl refl fresh-Fits
      (omega arith) nap_cmp-IsComparison naps-IsValid (omega arith) naps-ByTime (λ n. refl)
      (λ i below. refl) refl (λ i j le. omega arith)
