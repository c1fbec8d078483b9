-- ===== src/Sched/Loop.antt =====
-- The scheduler's main loop, with the timers that it runs, and how a scheduler starts. Between two
-- passes of the loop other threads run, and coroutines while `schedule` has switched to one.
use treasure_house.Base.{ℕ, zero, suc, ◌+◌, ◌-◌, Bool, none, some, ltb, ◌==◌, if◌then◌else◌, not}
use treasure_house.Base.Memory.{update}
use treasure_house.Base.Run.{Run, ok, fault, out_of_fuel, ◌>>=◌}
use treasure_house.Lists.{ListLib}
use treasure_house.Heap.{HeapT, heap_create, heap_pop, heap_top}
use treasure_house.Timer.{CoTimer, co_timer_run, co_timer_cmp}
use treasure_house.Sched.{
  Board, Sched, sched_created, sched_running, is_running, pick_one_co, schedule,
}

-- INIT_LIST_HEAD behind a pointer.
unfoldable pub queue_init : {L : ListLib} → (ℕ → Bool) → ℕ → Board L → Run (Board L)
queue_init {L} has_block q board =
    if has_block q
    then ok (record board { queues = update board.queues q L.init_list_head })
    else fault

-- What one pass of main_loop comes to: it is over, it waits for a coroutine, it has switched to one,
-- or it has waited in epoll for at most so many milliseconds.
pub data Pass (L : ListLib) (A : Type 0) : Type 0 where
  over : Pass L A
  waits : Pass L A
  switched : Sched L A → Pass L A
  idled : ℕ → Sched L A → Pass L A

module _ {L : ListLib} {A : Type 0} (timer : A → CoTimer (Board L)) where
  -- The loop of process_expired_timers: the delay it returns, with the heap and the board. The
  -- clock's readings are 0 first, then 1, and so on.
  unfoldable pub expire : ℕ → (ℕ → ℕ) → HeapT A → Board L → Run (ℕ × HeapT A × Board L)
  expire zero clock heap board = out_of_fuel
  expire (suc fuel) clock heap board = heap_top heap >>= λ top. elim top [
    | none ↦ ok (0, heap, board)
    | some t ↦
        if ltb (clock 0) (timer t).when
        then ok ((timer t).when - clock 0, heap, board)
        else (heap_pop heap >>= λ (_, left).
            expire fuel (λ k. clock (k + 1)) left (co_timer_run (timer t) board))
  ]

  unfoldable pub process_expired_timers : (ℕ → ℕ) → Sched L A → Run (ℕ × Sched L A)
  process_expired_timers clock s =
      expire (s.co_timer_heap.elem_num + 1) clock s.co_timer_heap s.board
      >>= λ (delay, heap, board). ok (delay, record s { co_timer_heap = heap; board = board })

  -- `clock` and `later` are the clock's readings before and after event_loop_run.
  unfoldable pub main_loop_pass : (ℕ → ℕ) → (ℕ → ℕ) → Sched L A → Run (Pass L A)
  main_loop_pass clock later s =
      if not (is_running s.status)
      then ok over
      else if s.co_nums == 0
      then ok waits
      else let (idle, picked) = pick_one_co s in
        if idle
        then (process_expired_timers clock picked >>= λ (delay, before).
            process_expired_timers later before >>= λ (_, after). ok (idled delay after))
        else (schedule picked >>= λ run. ok (switched run))

  -- sched_create, in memory that held `board` and `fresh`: queue_init writes through the pointers to
  -- queues as malloc left them, which is a fault unless a block is there.
  unfoldable pub sched_create : (ℕ → Bool) → Board L → (ℕ → A) → (ℕ → ℕ) → Run (Sched L A)
  sched_create has_block board fresh stack = queue_init has_block board.co_queue board >>= λ one.
      queue_init has_block board.co_ready_queue one >>= λ two. ok (record {
        board = two;
        co_timer_heap = heap_create (λ a b. co_timer_cmp (timer a) (timer b)) fresh;
        co_curr = 0;
        status = sched_created;
        co_nums = 0;
        stack = stack;
      })

-- sched_run_entry, up to the loop.
unfoldable pub sched_run_entry : {L : ListLib} {A : Type 0} → Sched L A → Sched L A
sched_run_entry s = record s { status = sched_running }
