-- ===== src/Threadpool/Steps.antt =====
-- Callers and workers together, as sequences of steps. A step is one critical section or one run of
-- a task. threadpool_submit holds the pool's lock throughout, and what a worker can do to the queue
-- between its two parts is to find nothing and wait; so it is one step, and so is
-- threadpool_shutdown.
use treasure_house.Base.{ℕ, ◌≡◌, Bool, false, none, some, List, [], ◌∷◌, ◌++◌, if◌then◌else◌}
use treasure_house.Base.Run.{ok}
use treasure_house.Lists.{ListLib, has}
use treasure_house.Threadpool.{
  Workqueue, Threadpool, running, returns, queued, init_workqueue, workqueue_get, threadpool_submit,
  threadpool_shutdown, worker_exit,
}

-- Where a thread stands in worker_fn.
pub data Phase : Type 0 where
  fetching : Phase
  working : ℕ → Phase
  leaving : Phase
  done : Phase

-- `submitted` and `executed` record the works that were accepted and those whose task has run.
pub record State (L : ListLib) : Type 0 where
  pub pool : Threadpool
  pub queue : Workqueue L
  pub workers : List Phase
  pub submitted : List ℕ
  pub executed : List ℕ

module _ {L : ListLib} where
  open L use {entries}

  pub data Step (s : State L) : State L → Type 0 where
    -- threadpool_submit accepts a work at an address that is not in use.
    submits :
        (created started : Bool) (work : ℕ) (pool : Threadpool) (queue : Workqueue L)
        → has work (entries s.queue.list) ≡ false
        → threadpool_submit created work s.pool s.queue ≡ queued started pool queue
        → Step s (record s {
          pool = pool;
          queue = queue;
          workers = if started then fetching ∷ s.workers else s.workers;
          submitted = work ∷ s.submitted;
        })
    shuts_down : Step s (record s {
      pool = (threadpool_shutdown s.pool s.queue).0;
      queue = (threadpool_shutdown s.pool s.queue).1;
    })
    -- A worker comes back from workqueue_get with a work, or with NULL.
    fetches :
        (xs ys : List Phase) (work : ℕ) (queue : Workqueue L)
        → s.workers ≡ xs ++ fetching ∷ ys
        → workqueue_get s.queue ≡ ok (returns (some work) queue)
        → Step s (record s { queue = queue; workers = xs ++ working work ∷ ys })
    finds_end :
        (xs ys : List Phase) (queue : Workqueue L)
        → s.workers ≡ xs ++ fetching ∷ ys
        → workqueue_get s.queue ≡ ok (returns none queue)
        → Step s (record s { queue = queue; workers = xs ++ leaving ∷ ys })
    -- do_work
    works :
        (xs ys : List Phase) (work : ℕ)
        → s.workers ≡ xs ++ working work ∷ ys
        → Step s (record s { workers = xs ++ fetching ∷ ys; executed = work ∷ s.executed })
    leaves :
        (xs ys : List Phase)
        → s.workers ≡ xs ++ leaving ∷ ys
        → Step s (record s { pool = worker_exit s.pool; workers = xs ++ done ∷ ys })

  pub data Reach (s : State L) : State L → Type 0 where
    here : Reach s s
    next : {t u : State L} → Reach s t → Step t u → Reach s u

  -- A pool that was just created, for at most `max_threads` threads.
  abbrev pub start : ℕ → State L
  start max_threads = record {
    pool = record { max_threads = max_threads; threads_num = 0; status = running };
    queue = init_workqueue;
    workers = [];
    submitted = [];
    executed = [];
  }
