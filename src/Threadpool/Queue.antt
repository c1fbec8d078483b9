-- ===== src/Threadpool/Queue.antt =====
-- What workqueue_get, workqueue_put and threadpool_submit come to, read off their results.
use treasure_house.Base.{
  ℕ, ◌≡◌, ◌≢◌, ◌+◌, ◌-◌, refl, Bool, true, false, none, some, List, [], ◌∷◌, arith, ltb,
  if◌then◌else◌,
}
use treasure_house.Base.Run.{ok}
use treasure_house.Lists.{ListLib}
use treasure_house.Threadpool.{
  Workqueue, Threadpool, is_running, returns, take_first, workqueue_get, workqueue_put, queued,
  threadpool_submit,
}

module _ {L : ListLib} where
  open L use {entries, list_del}

  -- `queue` is `wq` without its first work.
  pub record Fetched (wq : Workqueue L) (work : ℕ) (queue : Workqueue L) : Type 0 where
    pub more : List ℕ
    pub first : entries wq.list ≡ work ∷ more
    pub list : queue.list ≡ list_del work wq.list
    pub num : queue.num ≡ wq.num - 1
    pub status : queue.status ≡ wq.status

  take_first-Fetched :
      (xs : List ℕ) (wq queue : Workqueue L) (work : ℕ)
      → entries wq.list ≡ xs
      → take_first xs wq ≡ ok (returns (some work) queue)
      → Fetched wq work queue
  unfolding take_first
  take_first-Fetched [] wq queue work e h = absurd (ground arith)
  take_first-Fetched (x ∷ xs) wq queue work e h = record {
    more = xs;
    first = ground arith;
    list = ground arith;
    num = ground arith;
    status = ground arith;
  }

  pub workqueue_get-Fetched :
      (wq queue : Workqueue L) (work : ℕ)
      → workqueue_get wq ≡ ok (returns (some work) queue)
      → Fetched wq work queue
  unfolding workqueue_get
  workqueue_get-Fetched wq queue work h =
      take_first-Fetched (entries wq.list) wq queue work refl (ground arith)

  take_first-ne-none :
      (xs : List ℕ) (wq queue : Workqueue L) → take_first xs wq ≢ ok (returns none queue)
  unfolding take_first
  take_first-ne-none [] wq queue h = ground arith
  take_first-ne-none (x ∷ xs) wq queue h = ground arith

  -- NULL comes only from an empty queue that no longer runs, and leaves it as it was.
  pub workqueue_get-none :
      (wq queue : Workqueue L)
      → workqueue_get wq ≡ ok (returns none queue)
      → (wq.num ≡ 0) × (is_running wq.status ≡ false) × (queue ≡ wq)
  unfolding workqueue_get
  workqueue_get-none wq queue h = ground (arith, take_first-ne-none (entries wq.list) wq queue)

  -- An accepted work was put on the queue of a running pool, and a thread was started if there was
  -- room for one.
  pub record Accepted (work : ℕ) (pool : Threadpool) (wq : Workqueue L) (started : Bool)
      (pool' : Threadpool) (queue : Workqueue L) : Type 0 where
    pub was_running : is_running pool.status ≡ true
    pub started_lem : started ≡ ltb pool.threads_num pool.max_threads
    pub threads : pool'.threads_num ≡ pool.threads_num + (if started then 1 else 0)
    pub max : pool'.max_threads ≡ pool.max_threads
    pub status : pool'.status ≡ pool.status
    pub put : queue ≡ workqueue_put work wq

  pub threadpool_submit-Accepted :
      (created started : Bool) (work : ℕ) (pool pool' : Threadpool) (wq queue : Workqueue L)
      → threadpool_submit created work pool wq ≡ queued started pool' queue
      → Accepted work pool wq started pool' queue
  unfolding threadpool_submit
  threadpool_submit-Accepted created started work pool pool' wq queue h = record {
    was_running = ground arith;
    started_lem = ground arith;
    threads = ground arith;
    max = ground arith;
    status = ground arith;
    put = ground arith;
  }
