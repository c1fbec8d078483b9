-- ===== src/Sched.antt =====
-- The scheduler of src/coroutine/sched/core.c and coroutine_sched.h: its queues, the stack that its
-- coroutines share, and the calls that move a coroutine. A call that ends in swapcontext is modelled
-- up to the switch. Locks are the platform's, and co_nums does not overflow.
pub mod Loop
pub mod Stack
pub mod Timers
pub mod Sleep
pub mod Queues
pub mod Suspend
mod Tests
use treasure_house.Base.{
  ℕ, ◌+◌, ◌-◌, ◌*◌, Bool, true, false, List, [], ◌∷◌, ltb, leb, ◌==◌, if◌then◌else◌, some,
}
use treasure_house.Base.Memory.{update}
use treasure_house.Base.Run.{Run, ok, fault, ◌>>=◌}
use treasure_house.Lists.{ListLib}
use treasure_house.Coroutine.{Coroutine, CoStatus, co_runnable, co_waiting, is_runnable}
use treasure_house.Heap.{HeapT, heap_push}
use treasure_house.Timer.{CoTimer, Timespec, co_timer_after}

-- CO_STACK_SIZE
abbrev pub co_stack_size : ℕ
co_stack_size = 1024 * 1024

pub data SchedStatus : Type 0 where
  sched_created sched_running sched_stopped : SchedStatus

abbrev pub is_running : SchedStatus → Bool
is_running sched_running = true
is_running _ = false

-- The memory of the queues, by their address, and of the coroutines, with three addresses of the
-- struct sched that the coroutines belong to: where its pointers to queues point, and where the
-- field co_ready_queue itself stands, which pick_one_co takes for the queue.
pub record Board (L : ListLib) : Type 0 where
  pub queues : ℕ → L.Head
  pub cos : ℕ → Coroutine
  pub co_queue : ℕ
  pub co_ready_queue : ℕ
  pub ready_at : ℕ

-- struct sched: the heap holds pointers `A` to timers, and `stack` counts from the top, sched->stack
-- + sched->stack_size.
pub record Sched (L : ListLib) (A : Type 0) : Type 0 where
  pub board : Board L
  pub co_timer_heap : HeapT A
  pub co_curr : ℕ
  pub status : SchedStatus
  pub co_nums : ℕ
  pub stack : ℕ → ℕ

-- list_entry(queue.next, …) of a list that is not empty
unfoldable pub first_entry : List ℕ → ℕ
first_entry [] = 0
first_entry (co ∷ more) = co

module _ {L : ListLib} where
  open L use {entries, list_add_tail, list_del, list_empty}

  -- list_del on a coroutine's entry, on whichever queue it stands.
  unfoldable pub unlink : ℕ → Board L → Board L
  unlink co b = record b { queues = λ q. list_del co (b.queues q) }

  unfoldable pub co_queue_popleft : ℕ → Board L → ℕ × Board L
  co_queue_popleft queue b =
      if list_empty (b.queues queue)
      then (0, b)
      else let co = first_entry (entries (b.queues queue)) in (co, unlink co b)

  unfoldable pub co_queue_append : ℕ → ℕ → Board L → Board L
  co_queue_append queue co b = record b {
    queues = update b.queues queue (list_add_tail co (b.queues queue));
  }

  unfoldable pub set_status : ℕ → CoStatus → Board L → Board L
  set_status co status b = record b {
    cos = update b.cos co (record (b.cos co) { status = status });
  }

  -- The pointer that sched_co_resume returns is always NULL. This is for a coroutine that stands on
  -- a queue: list_del of another one follows poisoned links.
  unfoldable pub sched_co_resume : ℕ → Board L → Board L
  sched_co_resume co b =
      co_queue_append b.co_ready_queue co (set_status co co_runnable (unlink co b))

  unfoldable pub co_after_delay : ℕ → Board L → Board L
  co_after_delay co b = sched_co_resume co b

-- save_co_stack: `depth` is top - &stack_base, the bytes in use. A copy past the block is a fault,
-- and so is an assertion that fails.
unfoldable pub save_co_stack : ℕ → (ℕ → ℕ) → Coroutine → Run Coroutine
save_co_stack depth stack co =
    let block = if ltb co.stack_size depth then depth else co.block in
    if leb depth co_stack_size
    then (if leb depth block
        then ok (record co {
          stack = λ k. if ltb k depth then stack k else co.stack k;
          block = block;
          stack_size = depth;
        })
        else fault)
    else fault

-- The bytes below those saved stay.
unfoldable pub restore_co_stack : Coroutine → (ℕ → ℕ) → Run (ℕ → ℕ)
restore_co_stack co stack =
    if leb co.stack_size co_stack_size
    then (if leb co.stack_size co.block
        then ok (λ k. if ltb k co.stack_size then co.stack k else stack k)
        else fault)
    else fault

module _ {L : ListLib} {A : Type 0} where
  -- The result is whether there was none.
  unfoldable pub pick_one_co : Sched L A → Bool × Sched L A
  pick_one_co s =
      let (co, board) = co_queue_popleft s.board.ready_at s.board in
      (co == 0, record s { board = board; co_curr = co })

  -- schedule, up to the switch to the coroutine.
  unfoldable pub schedule : Sched L A → Run (Sched L A)
  schedule s =
      if s.co_curr == 0
      then fault
      else let co = s.board.cos s.co_curr in
        (if is_runnable co.status then ok s.stack else restore_co_stack co s.stack) >>= λ stack.
        ok (record s { board = set_status s.co_curr co_runnable s.board; stack = stack })

  -- Up to the switch to the main loop.
  unfoldable pub schedule_yield_coroutine : ℕ → CoStatus → Sched L A → Run (Sched L A)
  schedule_yield_coroutine depth status s =
      save_co_stack depth s.stack (s.board.cos s.co_curr) >>= λ co. ok (record s {
        board = record s.board {
          cos = update s.board.cos s.co_curr (record co { status = status });
        };
      })

  unfoldable pub sched_suspend_coroutine : ℕ → Sched L A → Run (Sched L A)
  sched_suspend_coroutine depth s =
      schedule_yield_coroutine depth co_waiting
        (record s { board = co_queue_append s.board.co_queue s.co_curr s.board })

  unfoldable pub sched_yield_coroutine : ℕ → Sched L A → Run (Sched L A)
  sched_yield_coroutine depth s =
      schedule_yield_coroutine depth co_waiting
        (record s { board = co_queue_append s.board.co_ready_queue s.co_curr s.board })

  -- `address` is the scheduler's.
  unfoldable pub sched_sched : ℕ → ℕ → Sched L A → Run (Sched L A)
  sched_sched address co s =
      let c = s.board.cos co in
      if is_runnable c.status
      then ok (record s {
        board =
            co_queue_append s.board.co_ready_queue co
              (record s.board { cos = update s.board.cos co (record c { sched = address }) });
        co_nums = s.co_nums + 1;
      })
      else fault

  -- co_wrapper behind the call of the coroutine's function, for the scheduler's part. The coroutine
  -- is freed.
  unfoldable pub co_wrapper_end : Sched L A → Sched L A
  co_wrapper_end s = record s { co_nums = s.co_nums - 1 }

  unfoldable pub sched_wakeup : Sched L A → Sched L A
  sched_wakeup s = record s { status = sched_stopped }

  -- `pointer` is the address at which malloc puts a timer.
  unfoldable pub sched_delay :
      Timespec → (CoTimer (Board L) → A) → ℕ → ℕ → Sched L A → Run (Sched L A)
  sched_delay now pointer delay_ms depth s =
      heap_push s.co_timer_heap
        (pointer (co_timer_after now delay_ms (some co_after_delay) s.co_curr))
      >>= λ heap. sched_suspend_coroutine depth (record s { co_timer_heap = heap })
