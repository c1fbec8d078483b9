-- ===== src/Wait/Tests.antt =====
-- Runs of a wait queue, and the theorems at them: coroutines 7 and 8 wait with the entries 71 and 81.
use treasure_house.Base.{ℕ, ◌≡◌, refl, [], ◌∷◌, true, false, ◌==◌}
use treasure_house.Base.Int.{pos}
use treasure_house.Base.Memory.{update}
use treasure_house.Base.Run.{ok, fault, Ends, ends}
use treasure_house.Lists.Plain.{plain}
use treasure_house.Heap.{HeapT}
use treasure_house.Coroutine.{Coroutine, co_runnable, co_waiting}
use treasure_house.Sched.{
  Board, Sched, sched_co_resume, sched_running, co_queue_append, set_status, unlink, first_entry,
  co_queue_popleft,
}
use treasure_house.Sched.Queues.{ready}
use treasure_house.Wait.{
  prepare_to_wait_event, wake_each, call_func, autoremove_wake_function, sched_wakeup_coroutine,
  Waits, WaitEntry, alone, linked, calls_autoremove, calls_wakeup, init_wait_entry, finish_wait,
  prepare_to_wait, prepare_to_wait_event, wake_up,
}
use treasure_house.Wait.Wake.{resume_all, wake_up_wakes_all}
use treasure_house.Wait.Blocked.{running_cannot_wait}
use treasure_house.Wait.Finish.{prepare_then_finish}

abbrev asleep : Coroutine
asleep = record {
  sched = 1;
  stack = λ _. 0;
  block = 0;
  stack_size = 0;
  fn_data = 0;
  fn = 0;
  status = co_waiting;
}

abbrev fresh : Coroutine
fresh = record {
  sched = 0;
  stack = λ _. 0;
  block = 0;
  stack_size = 0;
  fn_data = 6;
  fn = 5;
  status = co_runnable;
}

abbrev board : Board plain
board = record {
  queues = λ _. [];
  cos = λ _. fresh;
  co_queue = 100;
  co_ready_queue = 200;
  ready_at = 200;
}

abbrev both_asleep : Board plain
both_asleep = record {
  queues = λ q. elim (q == 100) [ true ↦ 7 ∷ 8 ∷ [] | false ↦ [] ];
  cos = λ _. asleep;
  co_queue = 100;
  co_ready_queue = 200;
  ready_at = 200;
}

abbrev unlinked : WaitEntry
unlinked = record { flag = 1; co = 7; func = calls_autoremove; link = alone }

abbrev both_wait : Waits plain
both_wait = record {
  task_list = 71 ∷ 81 ∷ [];
  entry = λ e. elim (e == 71) [
    | true ↦ record { flag = 1; co = 7; func = calls_autoremove; link = linked }
    | false ↦ record { flag = 0; co = 8; func = calls_wakeup; link = linked }
  ];
  board = both_asleep;
  co_curr = 9;
}

both_woken : Ends (λ w. ready w.board ≡ 7 ∷ 8 ∷ []) (wake_up 1 both_wait)
unfolding wake_up wake_each call_func autoremove_wake_function sched_wakeup_coroutine
    sched_co_resume co_queue_append unlink set_status
both_woken = ends refl

wake_up_wakes_all_example :
    wake_up 1 both_wait
    ≡ ok (record both_wait { board = resume_all both_wait.entry (71 ∷ 81 ∷ []) both_asleep })
wake_up_wakes_all_example = wake_up_wakes_all 1 both_wait refl

abbrev ready_to_wait : Waits plain
ready_to_wait = record {
  task_list = 81 ∷ [];
  entry = λ _. unlinked;
  board = both_asleep;
  co_curr = 7;
}

prepared : ((init_wait_entry 71 1 ready_to_wait).entry 71).co ≡ 7
unfolding init_wait_entry
prepared = refl

prepare_then_finish_example :
    Ends
      (λ p.
        (p.task_list ≡ 71 ∷ 81 ∷ [])
        × Ends
            (λ v.
              (v.task_list ≡ 81 ∷ [])
              × (finish_wait 71 v ≡ fault)
              × Ends (λ u. u.task_list ≡ 81 ∷ []) (prepare_to_wait 71 co_runnable v))
            (finish_wait 71 p))
      (prepare_to_wait 71 co_runnable ready_to_wait)
prepare_then_finish_example = prepare_then_finish 71 co_runnable ready_to_wait refl refl refl

abbrev heap : HeapT ℕ
heap = record {
  elements = λ i. 0;
  block = 128;
  cmp_fn = λ x y. pos 0;
  elem_size = 8;
  elem_num = 0;
  cap = 16;
}

abbrev empty : Sched plain ℕ
empty = record {
  board = board;
  co_timer_heap = heap;
  co_curr = 0;
  status = sched_running;
  co_nums = 0;
  stack = λ k. k;
}

abbrev one_ready : Sched plain ℕ
one_ready = record empty {
  board =
      co_queue_append 200 7
        (record board { cos = update board.cos 7 (record fresh { sched = 1 }) });
  co_nums = 1;
}

abbrev runs_and_waits : Waits plain
runs_and_waits = record {
  task_list = [];
  entry = λ _. unlinked;
  board = (co_queue_popleft 200 one_ready.board).1;
  co_curr = 7;
}

running_cannot_wait_example :
    (prepare_to_wait 71 co_waiting runs_and_waits ≡ fault)
    × (prepare_to_wait_event (λ e w. w) (λ e w. w) 71 co_waiting runs_and_waits ≡ fault)
unfolding co_queue_popleft co_queue_append unlink first_entry
running_cannot_wait_example =
    running_cannot_wait 200 one_ready.board runs_and_waits 71 co_waiting (λ e w. w) (λ e w. w) refl
      refl refl refl (λ x v. (refl, refl)) (λ x v. (refl, refl))
