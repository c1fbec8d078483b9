-- ===== src/Sched/Tests.antt =====
-- Runs of a scheduler, and the theorems at them: coroutine 7 is submitted, runs and is suspended,
-- and two timers stand on the heap.
mod Sleeps
use treasure_house.Base.{
  ℕ, ◌+◌, ◌≡◌, ◌<◌, refl, true, false, [], ◌∷◌, some, arith, if◌then◌else◌, ◌==◌,
}
use treasure_house.Base.Memory.{update}
use treasure_house.Base.Run.{ok, fault, Ends, ◌>>=◌}
use treasure_house.Lists.{has}
use treasure_house.Lists.Plain.{plain}
use treasure_house.Lists.Counts.{occurs}
use treasure_house.Heap.{HeapT}
use treasure_house.Heap.Queue.{IsValid}
use treasure_house.Timer.{co_timer_cmp, to_int}
use treasure_house.Timer.Order.{Windowed, windowed_cmp, windowed_cmp-IsComparison}
use treasure_house.Coroutine.{co_runnable, Coroutine, co_new, co_runnable}
use treasure_house.Sched.{
  Board, Sched, sched_created, sched_running, unlink, first_entry, co_queue_popleft,
  co_queue_append, set_status, sched_co_resume, co_after_delay, pick_one_co, schedule,
  sched_suspend_coroutine, sched_yield_coroutine, sched_sched, co_wrapper_end, sched_wakeup,
}
use treasure_house.Sched.Loop.{
  process_expired_timers, main_loop_pass, switched, over, waits, sched_create, queue_init,
  sched_run_entry,
}
use treasure_house.Sched.Stack.{Fits, yield_keeps_stack, resume_loses_stack}
use treasure_house.Sched.Timers.{Expired, process_expired_timers-Expired, timers_fit_window}
use treasure_house.Sched.Queues.{ready, waiting}

abbrev Timers : Type 0
Timers = Windowed (Board plain) 0

early : Timers
early = record {
  timer = record { when = 5; callback = some co_after_delay; args = 7 };
  from = omega arith;
  to = omega arith;
}

late : Timers
late = record {
  timer = record { when = 9; callback = some co_after_delay; args = 8 };
  from = omega arith;
  to = omega arith;
}

abbrev heap : HeapT Timers
heap = record {
  elements = λ i. if i == 0 then early else late;
  block = 128;
  cmp_fn = windowed_cmp;
  elem_size = 8;
  elem_num = 2;
  cap = 16;
}

abbrev fresh : Coroutine
fresh = record {
  sched = 0;
  stack = λ _. 0;
  block = 0;
  stack_size = 0;
  fn_data = 6;
  fn = 5;
  status = co_runnable;
}

made : co_new 5 6 (λ _. 0) ≡ fresh
unfolding co_new
made = refl

abbrev board : Board plain
board = record {
  queues = λ _. [];
  cos = λ _. fresh;
  co_queue = 100;
  co_ready_queue = 200;
  ready_at = 200;
}

abbrev empty : Sched plain Timers
empty = record {
  board = board;
  co_timer_heap = heap;
  co_curr = 0;
  status = sched_running;
  co_nums = 0;
  stack = λ k. k;
}

abbrev one_ready : Sched plain Timers
one_ready = record empty {
  board =
      co_queue_append 200 7
        (record board { cos = update board.cos 7 (record fresh { sched = 1 }) });
  co_nums = 1;
}

abbrev one_runs : Sched plain Timers
one_runs = record one_ready {
  board = set_status 7 co_runnable (unlink 7 one_ready.board);
  co_curr = 7;
}

fresh-Fits : Fits fresh
fresh-Fits = omega arith

yield_keeps_stack_example :
    Ends
      (λ after. (k : ℕ) → k < 3 → after.stack k ≡ k)
      (sched_yield_coroutine 3 one_runs >>= λ t.
        schedule (record t { stack = λ _. 0; co_curr = 7 }))
unfolding set_status unlink co_queue_append
yield_keeps_stack_example =
    yield_keeps_stack 3 one_runs (λ t. record t { stack = λ _. 0; co_curr = 7 }) (ground arith)
      (omega arith) (omega arith) (λ t. refl) (λ t. refl)

resume_loses_stack_example :
    Ends
      (λ after. after.stack ≡ (λ _. 0))
      (sched_suspend_coroutine 3 one_runs >>= λ t.
        schedule (record t { stack = λ _. 0; co_curr = 7; board = sched_co_resume 7 t.board }))
unfolding set_status unlink co_queue_append
resume_loses_stack_example =
    resume_loses_stack 3 one_runs (λ t. record t { stack = λ _. 0; co_curr = 7 }) (λ _. 0)
      (ground arith) (omega arith) (omega arith) (λ t. refl) (λ t. refl)

heap-IsValid : IsValid heap
unfolding windowed_cmp co_timer_cmp to_int early late
heap-IsValid = record {
  ordered = λ c p q. let last : c ≡ 1 = omega arith in rw last refl;
  bounded = omega arith;
  sized = refl;
  width = refl;
}

process_expired_timers-Expired_example :
    Ends
      (λ r. Expired (λ w. w.timer) (λ k. 6 + k) heap board (r.0, r.1.co_timer_heap, r.1.board))
      (process_expired_timers (λ w. w.timer) (λ k. 6 + k) empty)
process_expired_timers-Expired_example =
    process_expired_timers-Expired (λ w. w.timer) (λ k. 6 + k) empty
      (windowed_cmp-IsComparison (Board plain) 0 (omega arith)) heap-IsValid
      (timers_fit_window heap (omega arith) refl) (λ i j le. omega arith)

stopped : main_loop_pass (λ w. w.timer) (λ k. k) (λ k. k) (sched_wakeup one_ready) ≡ ok over
unfolding main_loop_pass sched_wakeup
stopped = refl

waiting_for_work : main_loop_pass (λ w. w.timer) (λ k. k) (λ k. k) empty ≡ ok waits
unfolding main_loop_pass
waiting_for_work = refl

no_block : sched_create (λ w. w.timer) (λ _. false) board heap.elements (λ k. k) ≡ fault
unfolding sched_create queue_init
no_block = refl

entered : (sched_run_entry (record empty { status = sched_created })).status ≡ sched_running
unfolding sched_run_entry
entered = refl

run_out : (co_wrapper_end one_runs).co_nums ≡ 0
unfolding co_wrapper_end
run_out = refl
