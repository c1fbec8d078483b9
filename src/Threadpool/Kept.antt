-- ===== src/Threadpool/Kept.antt =====
-- The steps of the callers keep the invariant, and so does every run.
use treasure_house.Base.{
  ◌<◌, length-append, Bool, ℕ, ◌≡◌, refl, false, [], ◌∷◌, ◌++◌, arith, if◌then◌else◌,
}
use treasure_house.Lists.{ListLib, has}
use treasure_house.Threadpool.{
  queued, threadpool_submit, Threadpool, Workqueue, threadpool_shutdown,
}
use treasure_house.Threadpool.Queue.{threadpool_submit-Accepted}
use treasure_house.Threadpool.{workqueue_stop, workqueue_put}
use treasure_house.Threadpool.Steps.{
  start, Step, submits, shuts_down, fetches, finds_end, works, leaves, Reach, here, next, fetching,
  State,
}
use treasure_house.Threadpool.Counts.{total, gone}
use treasure_house.Lists.Counts.{occurs, occurs-append, NoRepeats-snoc}
use treasure_house.Threadpool.Invariant.{
  start-Sound, Sound, works-Sound, leaves-Sound, finds_end-Sound, fetches-Sound,
}

module _ {L : ListLib} where
  open L use {entries, entries-list_add_tail}

  module _ {s : State L} (v : Sound s) where
    open s use {pool, queue, workers, submitted, executed}

    shuts_down-Sound : Sound (record s {
      pool = (threadpool_shutdown pool queue).0;
      queue = (threadpool_shutdown pool queue).1;
    })
    unfolding threadpool_shutdown workqueue_stop
    shuts_down-Sound = record {
      room = v.room;
      limit = v.limit;
      counted = v.counted;
      apart = v.apart;
      alive = v.alive;
      agree = ground arith;
      ended = λ p. (refl, (v.ended p).1);
      manned = v.manned;
      over = ground arith;
      closed = ground arith;
      balance = v.balance;
    }

    submits-Sound :
        (created started : Bool) (work : ℕ) (pool' : Threadpool) (queue' : Workqueue L)
        → has work (entries queue.list) ≡ false
        → threadpool_submit created work pool queue ≡ queued started pool' queue'
        → Sound (record s {
          pool = pool';
          queue = queue';
          workers = if started then fetching ∷ workers else workers;
          submitted = work ∷ submitted;
        })
    unfolding occurs total workqueue_put
    submits-Sound created started work pool' queue' new h =
        let a = threadpool_submit-Accepted created started work pool pool' queue queue' h in
        let added : entries (workqueue_put work queue).list ≡ entries queue.list ++ work ∷ [] =
          entries-list_add_tail work queue.list new in
        rw a.put (record {
          room = rw a.max v.room;
          limit = ground (arith, a.threads, a.max, a.started_lem, v.limit);
          counted =
              rw added (omega (arith, v.counted, length-append (entries queue.list) (work ∷ [])));
          apart = rw added (NoRepeats-snoc work (entries queue.list) v.apart new);
          alive = ground (arith, v.alive, a.threads);
          agree = ground (arith, v.agree, a.status);
          ended = λ p.
              let same : total gone (if started then fetching ∷ workers else workers)
                  ≡ total gone workers =
                ground arith in
              absurd (ground (arith, v.ended (omega (arith, same)), v.agree, a.was_running));
          manned = λ p. absurd (ground (arith, a.threads, a.started_lem, v.room));
          over = ground (arith, a.status, a.was_running);
          closed = ground (arith, a.status, a.was_running);
          balance = λ w.
              rw added
                (ground (arith, v.balance w, occurs-append w (entries queue.list) (work ∷ [])));
        })

  pub Step-Sound : {s t : State L} → Sound s → Step s t → Sound t
  Step-Sound v (submits created started work pool queue new h) =
      submits-Sound v created started work pool queue new h
  Step-Sound v shuts_down = shuts_down-Sound v
  Step-Sound v (fetches xs ys work queue e h) = fetches-Sound v xs ys work queue e h
  Step-Sound v (finds_end xs ys queue e h) = finds_end-Sound v xs ys queue e h
  Step-Sound v (works xs ys work e) = works-Sound v xs ys work e
  Step-Sound v (leaves xs ys e) = leaves-Sound v xs ys e

  pub Reach-Sound : {s t : State L} → Sound s → Reach s t → Sound t
  Reach-Sound v here = v
  Reach-Sound v (next r st) = Step-Sound (Reach-Sound v r) st

  -- In every state that a pool for one thread or more can reach from its start, the counters agree
  -- with the threads and with the queue, the threads are within the limit, and each accepted work is
  -- in one place.
  pub started-Sound :
      (max_threads : ℕ) (s : State L) → 0 < max_threads → Reach (start max_threads) s → Sound s
  started-Sound max_threads s room r = Reach-Sound (start-Sound max_threads room) r
