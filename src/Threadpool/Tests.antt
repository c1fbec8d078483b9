-- ===== src/Threadpool/Tests.antt =====
-- A pool for one thread: a run from the start to the end, and the theorems at it.
use treasure_house.Base.{ℕ, ◌≡◌, refl, Bool, true, false, some, [], ◌∷◌, arith}
use treasure_house.Base.Run.{ok}
use treasure_house.Lists.Plain.{plain}
use treasure_house.Threadpool.{
  Threadpool, Workqueue, running, stopping, stopped, is_running, threadpool_create,
  threadpool_submit, threadpool_shutdown, refused, queued, init_workqueue, workqueue_put,
  workqueue_stop, workqueue_get, take_first, worker_exit, wait_returns,
}
use treasure_house.Threadpool.Steps.{
  State, Reach, here, next, submits, shuts_down, fetches, finds_end, works, leaves, fetching, done,
  start,
}
use treasure_house.Lists.Counts.{occurs}
use treasure_house.Threadpool.Invariant.{Sound}
use treasure_house.Threadpool.Kept.{started-Sound}
use treasure_house.Threadpool.Done.{waited_all_done, off_for_good, zero_threads_lose}
use treasure_house.Threadpool.Finish.{shutdown_can_finish}

created :
    threadpool_create 4 true true 1
    ≡ ok (some (record { max_threads = 1; threads_num = 0; status = running }))
unfolding threadpool_create
created = refl

abbrev queue : Workqueue plain
queue = record { list = 7 ∷ []; num = 1; status = running }

-- The work at 7 was accepted, and then the pool was shut down.
abbrev asked : State plain
asked = record {
  pool = record { max_threads = 1; threads_num = 1; status = stopping };
  queue = record queue { status = stopping };
  workers = fetching ∷ [];
  submitted = 7 ∷ [];
  executed = [];
}

abbrev finished : State plain
finished = record {
  pool = record { max_threads = 1; threads_num = 0; status = stopped };
  queue = record { list = []; num = 0; status = stopping };
  workers = done ∷ [];
  submitted = 7 ∷ [];
  executed = 7 ∷ [];
}

Reach-asked : Reach (start 1) asked
unfolding threadpool_submit threadpool_shutdown init_workqueue workqueue_put workqueue_stop
Reach-asked =
    next
      (next here (
        submits true true 7 (record { max_threads = 1; threads_num = 1; status = running }) queue
          refl refl))
      shuts_down

Reach-finished : Reach asked finished
unfolding workqueue_get take_first worker_exit
Reach-finished =
    next
      (next
        (next
          (next here (fetches [] [] 7 (record { list = []; num = 0; status = stopping }) refl refl))
          (works [] [] 7 refl))
        (finds_end [] [] (record { list = []; num = 0; status = stopping }) refl refl))
      (leaves [] [] refl)

append : {s t u : State plain} → Reach s t → Reach t u → Reach s u
append r here = r
append r (next q st) = next (append r q) st

started-Sound_example : Sound asked
started-Sound_example = started-Sound 1 asked (omega arith) Reach-asked

waited_all_done_example : occurs 7 (7 ∷ []) ≡ occurs 7 (7 ∷ [])
unfolding wait_returns
waited_all_done_example =
    waited_all_done 1 finished (omega arith) (append Reach-asked Reach-finished) refl 7

off_for_good_example :
    (is_running stopped ≡ false)
    × ((created : Bool) (work : ℕ)
        → threadpool_submit created work finished.pool finished.queue ≡ refused)
off_for_good_example = off_for_good asked finished refl Reach-finished

shutdown_can_finish_example : (t : State plain) × Reach asked t × (wait_returns t.pool ≡ true)
shutdown_can_finish_example = shutdown_can_finish 1 asked (omega arith) Reach-asked refl

abbrev no_thread : Threadpool
no_thread = record { max_threads = 0; threads_num = 0; status = running }

zero_threads_lose_example :
    (q : Workqueue plain) × (threadpool_submit true 9 no_thread queue ≡ queued false no_thread q)
    × (wait_returns (threadpool_shutdown no_thread q).0 ≡ true)
    × ((threadpool_shutdown no_thread q).1.list ≡ 7 ∷ 9 ∷ [])
zero_threads_lose_example = zero_threads_lose no_thread queue true 9 refl refl refl refl
