-- ===== src/Threadpool/Done.antt =====
-- What threadpool_wait may rely on, and that a pool that was shut down can finish.
use treasure_house.Base.{◌++◌, ℕ, ◌≡◌, ◌≤◌, ◌<◌, Bool, true, false, List, [], ◌∷◌, arith}
use treasure_house.Lists.{has, ListLib}
use treasure_house.Threadpool.{
  Workqueue, Threadpool, queued, workqueue_put, workqueue_stop, is_running, worker_exit,
  threadpool_shutdown, threadpool_submit, refused, wait_returns,
}
use treasure_house.Threadpool.Steps.{
  Phase, fetching, working, leaving, done, State, Step, submits, shuts_down, fetches, finds_end,
  works, leaves, Reach, here, next, start,
}
use treasure_house.Threadpool.Counts.{total, live, in_hand}
use treasure_house.Lists.Counts.{occurs-le-length, occurs}
use treasure_house.Threadpool.Queue.{threadpool_submit-Accepted}
use treasure_house.Threadpool.Invariant.{start-Sound}
use treasure_house.Threadpool.Kept.{Reach-Sound}

in_hand-le-live : (w : ℕ) (ps : List Phase) → total (in_hand w) ps ≤ total live ps
unfolding total
in_hand-le-live w [] = omega arith
in_hand-le-live w (fetching ∷ ps) = omega (arith, in_hand-le-live w ps)
in_hand-le-live w (working x ∷ ps) = ground (arith, in_hand-le-live w ps)
in_hand-le-live w (leaving ∷ ps) = omega (arith, in_hand-le-live w ps)
in_hand-le-live w (done ∷ ps) = omega (arith, in_hand-le-live w ps)

module _ {L : ListLib} where
  open L use {entries}

  -- When threadpool_wait returns, each work was executed exactly as often as it was submitted, in
  -- every run of a pool for at least one thread.
  pub waited_all_done :
      (max_threads : ℕ) (s : State L)
      → 0 < max_threads
      → Reach (start max_threads) s
      → wait_returns s.pool ≡ true
      → (w : ℕ) → occurs w s.submitted ≡ occurs w s.executed
  unfolding wait_returns
  waited_all_done max_threads s room r over w =
      let v = Reach-Sound (start-Sound max_threads room) r in
      let idle = v.over over in
      omega (
        arith,
        v.balance w,
        in_hand-le-live w s.workers,
        v.alive,
        v.manned idle,
        v.counted,
        occurs-le-length w (entries s.queue.list),
      )

  Step-stays_off :
      {s t : State L}
      → is_running s.pool.status ≡ false
      → Step s t
      → is_running t.pool.status ≡ false
  unfolding threadpool_shutdown worker_exit
  Step-stays_off {s} off (submits created started work pool queue new h) = ground (
    arith,
    (threadpool_submit-Accepted created started work s.pool pool s.queue queue h).was_running,
  )
  Step-stays_off off shuts_down = ground arith
  Step-stays_off off (fetches xs ys work queue e h) = off
  Step-stays_off off (finds_end xs ys queue e h) = off
  Step-stays_off off (works xs ys work e) = off
  Step-stays_off off (leaves xs ys e) = ground arith

  -- Once a pool does not run, it never runs again, and threadpool_submit refuses every work.
  pub off_for_good :
      (s t : State L)
      → is_running s.pool.status ≡ false
      → Reach s t
      → (is_running t.pool.status ≡ false)
        × ((created : Bool) (work : ℕ) → threadpool_submit created work t.pool t.queue ≡ refused)
  unfolding threadpool_submit
  off_for_good s t off r = (still r, λ created work. rw (still r))
    where
      still : {u : State L} → Reach s u → is_running u.pool.status ≡ false
      still here = off
      still (next q st) = Step-stays_off (still q) st

  -- A pool for no thread, and without one, accepts each work that is not on its queue while it runs,
  -- and starts no thread for it; after a shutdown threadpool_wait returns at once, with the work still
  -- on the queue.
  pub zero_threads_lose :
      (pool : Threadpool) (wq : Workqueue L) (created : Bool) (work : ℕ)
      → pool.max_threads ≡ 0
      → pool.threads_num ≡ 0
      → is_running pool.status ≡ true
      → has work (entries wq.list) ≡ false
      → (queue : Workqueue L) × (threadpool_submit created work pool wq ≡ queued false pool queue)
        × (wait_returns (threadpool_shutdown pool queue).0 ≡ true)
        × (entries (threadpool_shutdown pool queue).1.list ≡ entries wq.list ++ work ∷ [])
  unfolding threadpool_submit threadpool_shutdown workqueue_put wait_returns workqueue_stop
  zero_threads_lose pool wq created work none_allowed idle runs new =
      (workqueue_put work wq, ground arith, ground arith, L.entries-list_add_tail work wq.list new)
