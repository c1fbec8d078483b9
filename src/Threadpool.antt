-- ===== src/Threadpool.antt =====
-- The thread pool of src/threadpool/threadpool.c and threadpool.h. Each function below is what the
-- source does while it holds the lock; a wait on a condition gives the lock back, so that
-- workqueue_get and threadpool_wait are one pass of their loops. Counters do not overflow, and a
-- negative number of threads, for which the size of the pool wraps, is left out.
pub mod Steps
pub mod Queue
pub mod Counts
pub mod Invariant
pub mod Kept
pub mod Done
pub mod Finish
mod Tests
use treasure_house.Base.{
  ℕ, ◌+◌, ◌-◌, ◌*◌, Bool, true, false, ◌&&◌, Option, none, some, List, [], ◌∷◌, ltb, ◌==◌,
  if◌then◌else◌,
}
use treasure_house.Base.Run.{Run, ok, fault, ◌>>=◌}
use treasure_house.Lists.{ListLib}

-- enum work_status
pub data WorkStatus : Type 0 where
  init running stopping stopped : WorkStatus

abbrev pub is_running : WorkStatus → Bool
is_running running = true
is_running _ = false

abbrev pub is_stopped : WorkStatus → Bool
is_stopped stopped = true
is_stopped _ = false

-- struct workqueue: `list` links the works by address.
pub record Workqueue (L : ListLib) : Type 0 where
  pub list : L.Head
  pub num : ℕ
  pub status : WorkStatus

-- struct threadpool
pub record Threadpool : Type 0 where
  pub max_threads : ℕ
  pub threads_num : ℕ
  pub status : WorkStatus

-- What one pass of workqueue_get's loop comes to.
pub data Got (L : ListLib) : Type 0 where
  waits : Got L
  returns : Option ℕ → Workqueue L → Got L

module _ {L : ListLib} where
  open L use {entries, list_add_tail, list_del, init_list_head}

  unfoldable pub init_workqueue : Workqueue L
  init_workqueue = record { list = init_list_head; num = 0; status = running }

  -- The loop over the list takes its first entry. If there were none, the pointer would be none to
  -- a work: a fault.
  unfoldable pub take_first : List ℕ → Workqueue L → Run (Got L)
  take_first [] wq = fault
  take_first (work ∷ more) wq =
      ok (returns (some work) (record wq { list = list_del work wq.list; num = wq.num - 1 }))

  unfoldable pub workqueue_get : Workqueue L → Run (Got L)
  unfolding take_first
  workqueue_get wq =
      if wq.num == 0
      then ok (if is_running wq.status then waits else returns none wq)
      else take_first (entries wq.list) wq

  unfoldable pub workqueue_put : ℕ → Workqueue L → Workqueue L
  workqueue_put work wq = record wq { list = list_add_tail work wq.list; num = wq.num + 1 }

  unfoldable pub workqueue_stop : Workqueue L → Workqueue L
  workqueue_stop wq = record wq { status = stopping }

-- The end of worker_fn.
unfoldable pub worker_exit : Threadpool → Threadpool
worker_exit pool =
    let left = pool.threads_num - 1 in
    record pool { threads_num = left; status = if left == 0 then stopped else pool.status }

-- MIN(get_cpu_num() * 3, max_threads), for a machine of `cpus` processors; `memory` says which of
-- the two calls of malloc succeed. `none` is NULL. The pool that is freed and then returned when
-- there is no memory for the queue is `fault`.
unfoldable pub threadpool_create : ℕ → Bool → Bool → ℕ → Run (Option Threadpool)
threadpool_create cpus pool_memory queue_memory max_threads =
    if pool_memory
    then (if queue_memory
        then ok (
            some (record {
              max_threads = if ltb (cpus * 3) max_threads then cpus * 3 else max_threads;
              threads_num = 0;
              status = running;
            }))
        else fault)
    else ok none

-- Does submit start a thread, and how does it end?
pub data Submitted (L : ListLib) : Type 0 where
  refused : Submitted L
  queued : (started : Bool) → Threadpool → Workqueue L → Submitted L

-- `created` says whether pthread_create succeeds; `work` is the work's new address.
unfoldable pub threadpool_submit : {L : ListLib} → Bool → ℕ → Threadpool → Workqueue L → Submitted L
threadpool_submit created work pool wq =
    if is_running pool.status
    then (if ltb pool.threads_num pool.max_threads
        then (if created
            then queued true (record pool { threads_num = pool.threads_num + 1 })
                (workqueue_put work wq)
            else refused)
        else queued false pool (workqueue_put work wq))
    else refused

unfoldable pub threadpool_shutdown :
    {L : ListLib} → Threadpool → Workqueue L → Threadpool × Workqueue L
unfolding workqueue_stop
threadpool_shutdown pool wq = (
  record pool { status = if pool.threads_num == 0 then stopped else stopping },
  workqueue_stop wq,
)

-- threadpool_wait returns, rather than waits.
unfoldable pub wait_returns : Threadpool → Bool
wait_returns pool = is_stopped pool.status
