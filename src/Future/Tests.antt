-- ===== src/Future/Tests.antt =====
-- Runs of futures, and the theorems at them.
use treasure_house.Base.{ℕ, true, false, ◌==◌, ◌≡◌, refl, none, some, [], ◌∷◌}
use treasure_house.Base.Int.{negsuc}
use treasure_house.Base.Run.{ok, fault, Ends, ◌>>=◌}
use treasure_house.Lists.Plain.{plain}
use treasure_house.Coroutine.{Coroutine, co_waiting}
use treasure_house.Sched.{Board, sched_co_resume}
use treasure_house.Sched.Queues.{ready}
use treasure_house.Future.{
  Future, Memory, pending, future_create, future_done, future_add_done_callback, future_set_result,
  is_finished, call_back, await_suspends, await_result, future_await,
}
use treasure_house.Future.Await.{set_then_await, await_round_trip}

abbrev fresh : Future ℕ
fresh = record { errno = 0; status = pending; result = 0; done_callback = none; done_args = 0 }

abbrev memory : Memory ℕ
memory = record { futures = λ _. some fresh; world = 3 }

never_done : future_done 4 ≡ negsuc 0
unfolding future_done
never_done = refl

set_then_await_example :
    Ends
      (λ late.
        Ends
          (λ r.
            (v : ℕ × Memory ℕ) × (r ≡ some v)
            × (v.0 ≡ 42)
            × (v.1.world ≡ call_back fresh 3)
            × (await_suspends 4 v.1 ≡ fault))
          (future_await (λ y. y.result) 4 late))
      (future_set_result 4 42 memory >>= future_add_done_callback 4 (λ args s. s) 5)
set_then_await_example =
    set_then_await (λ y. y.result) 4 42 5 (λ args s. s) fresh memory (λ y. refl) refl

abbrev asleep : Coroutine
asleep = record {
  sched = 1;
  stack = λ _. 0;
  block = 0;
  stack_size = 0;
  fn_data = 0;
  fn = 0;
  status = co_waiting;
}

abbrev board : Board plain
board = record {
  queues = λ _. [];
  cos = λ _. asleep;
  co_queue = 100;
  co_ready_queue = 200;
  ready_at = 200;
}

abbrev empty : Memory (Board plain)
empty = record { futures = λ _. none; world = board }

abbrev suspended : Board plain
suspended = record board { queues = λ q. elim (q == 100) [ true ↦ 7 ∷ [] | false ↦ 8 ∷ [] ] }

await_round_trip_example :
    Ends
      (λ m1.
        (future_await (λ y. y.result) 4 m1 ≡ ok none)
        × Ends
            (λ m2.
              (ready m2.world ≡ 8 ∷ 7 ∷ [])
              × Ends
                  (λ r.
                    ((x : Future (Board plain)) × (m2.futures 4 ≡ some x)
                      × (x.result ≡ 42)
                      × (is_finished x.status ≡ true)
                      × (r.0 ≡ x.result))
                    × (ready r.1.world ≡ ready m2.world)
                    × (future_await (λ y. y.result) 4 r.1 ≡ fault))
                  (await_result (λ y. y.result) 4 m2))
            (future_set_result 4 42 (record m1 { world = suspended })))
      (future_add_done_callback 4 sched_co_resume 7 (future_create 4 empty))
await_round_trip_example = await_round_trip (λ y. y.result) 4 7 42 empty suspended refl
