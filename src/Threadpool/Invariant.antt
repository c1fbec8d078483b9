-- ===== src/Threadpool/Invariant.antt =====
-- The invariant of the pool, and that the steps of the workers keep it.
use treasure_house.Base.{
  some, none, ℕ, ◌≡◌, ◌+◌, ◌≤◌, ◌<◌, refl, ◌∙◌, ap, true, false, List, ◌∷◌, ◌++◌, arith, length,
}
use treasure_house.Lists.{remove, ListLib}
use treasure_house.Threadpool.{
  returns, ok, workqueue_get, Workqueue, worker_exit, is_running, is_stopped, init_workqueue,
}
use treasure_house.Threadpool.Queue.{workqueue_get-none, workqueue_get-Fetched}
use treasure_house.Threadpool.Steps.{Phase, fetching, working, leaving, done, State, start}
use treasure_house.Threadpool.Counts.{total, total-at, live, gone, in_hand}
use treasure_house.Lists.Counts.{occurs, NoRepeats, remove-first}

module _ {L : ListLib} where
  open L use {entries, entries-init, entries-list_add_tail, entries-list_del}

  pub record Sound (s : State L) : Type 0 where
    pub room : 0 < s.pool.max_threads
    pub limit : s.pool.threads_num ≤ s.pool.max_threads
    pub counted : s.queue.num ≡ length (entries s.queue.list)
    pub apart : NoRepeats (entries s.queue.list)
    pub alive : s.pool.threads_num ≡ total live s.workers
    pub agree : is_running s.pool.status ≡ is_running s.queue.status
    pub ended : 0 < total gone s.workers → (is_running s.queue.status ≡ false) × (s.queue.num ≡ 0)
    pub manned : s.pool.threads_num ≡ 0 → s.queue.num ≡ 0
    pub over : is_stopped s.pool.status ≡ true → s.pool.threads_num ≡ 0
    pub closed :
        is_running s.pool.status ≡ false → s.pool.threads_num ≡ 0 → is_stopped s.pool.status ≡ true
    pub balance :
        (w : ℕ)
        → occurs w s.submitted
          ≡ occurs w s.executed + total (in_hand w) s.workers + occurs w (entries s.queue.list)

  pub start-Sound : (max_threads : ℕ) → 0 < max_threads → Sound (start max_threads)
  unfolding init_workqueue total occurs
  start-Sound max_threads h = record {
    room = h;
    limit = omega arith;
    counted = rw entries-init refl;
    apart = rw entries-init tt;
    alive = refl;
    agree = refl;
    ended = λ p. absurd (omega arith);
    manned = λ _. refl;
    over = λ p. refl;
    closed = λ p q. cc;
    balance = λ w. rw entries-init refl;
  }

  module _ {s : State L} (v : Sound s) where
    open s use {pool, queue, workers, submitted, executed}

    -- What a list of threads loses and gains when one of them moves on.
    pub moved :
        (xs ys : List Phase) (p q : Phase)
        → workers ≡ xs ++ p ∷ ys
        → (f : Phase → ℕ) → total f (xs ++ q ∷ ys) + f p ≡ total f workers + f q
    moved xs ys p q e f = omega (arith, ap (total f) e, total-at f xs ys p, total-at f xs ys q)

    pub works-Sound :
        (xs ys : List Phase) (work : ℕ)
        → workers ≡ xs ++ working work ∷ ys
        → Sound (record s { workers = xs ++ fetching ∷ ys; executed = work ∷ executed })
    unfolding occurs
    works-Sound xs ys work e =
        let m = moved xs ys (working work) fetching e in
        record {
          room = v.room;
          limit = v.limit;
          counted = v.counted;
          apart = v.apart;
          alive = omega (arith, v.alive, m live);
          agree = v.agree;
          ended = λ p. v.ended (omega (arith, m gone));
          manned = v.manned;
          over = v.over;
          closed = v.closed;
          balance = λ w. omega (arith, v.balance w, m (in_hand w));
        }

    pub leaves-Sound :
        (xs ys : List Phase)
        → workers ≡ xs ++ leaving ∷ ys
        → Sound (record s { pool = worker_exit pool; workers = xs ++ done ∷ ys })
    unfolding worker_exit
    leaves-Sound xs ys e =
        let m = moved xs ys leaving done e in
        let some_gone : 0 < total gone workers =
          omega (arith, ap (total gone) e, total-at gone xs ys leaving) in
        let (off, empty) = v.ended some_gone in
        record {
          room = v.room;
          limit = omega (arith, v.limit);
          counted = v.counted;
          apart = v.apart;
          alive = omega (arith, v.alive, m live);
          agree = ground (arith, v.agree, off);
          ended = λ p. (off, empty);
          manned = λ p. empty;
          over = ground (arith, v.over);
          closed = ground (arith, v.agree, off);
          balance = λ w. omega (arith, v.balance w, m (in_hand w));
        }

    pub finds_end-Sound :
        (xs ys : List Phase) (queue' : Workqueue L)
        → workers ≡ xs ++ fetching ∷ ys
        → workqueue_get queue ≡ ok (returns none queue')
        → Sound (record s { queue = queue'; workers = xs ++ leaving ∷ ys })
    finds_end-Sound xs ys queue' e h =
        let m = moved xs ys fetching leaving e in
        let (empty, off, same) = workqueue_get-none queue queue' h in
        rw same (record {
          room = v.room;
          limit = v.limit;
          counted = v.counted;
          apart = v.apart;
          alive = omega (arith, v.alive, m live);
          agree = v.agree;
          ended = λ p. (off, empty);
          manned = λ p. empty;
          over = v.over;
          closed = v.closed;
          balance = λ w. omega (arith, v.balance w, m (in_hand w));
        })

    pub fetches-Sound :
        (xs ys : List Phase) (work : ℕ) (queue' : Workqueue L)
        → workers ≡ xs ++ fetching ∷ ys
        → workqueue_get queue ≡ ok (returns (some work) queue')
        → Sound (record s { queue = queue'; workers = xs ++ working work ∷ ys })
    unfolding occurs
    fetches-Sound xs ys work queue' e h =
        let m = moved xs ys fetching (working work) e in
        let got = workqueue_get-Fetched queue queue' work h in
        let (out, rest) : NoRepeats (work ∷ got.more) = rw got.first at v.apart in
        let left : entries queue'.list ≡ got.more =
          ap entries got.list
          ∙ entries-list_del work queue.list
          ∙ ap (remove work) got.first
          ∙ remove-first work got.more out in
        record {
          room = v.room;
          limit = v.limit;
          counted = rw left (omega (arith, got.num, v.counted, ap length got.first));
          apart = rw left rest;
          alive = omega (arith, v.alive, m live);
          agree = ground (arith, v.agree, got.status);
          ended = λ p.
              absurd (
                omega (arith, (v.ended (omega (arith, m gone))).1, v.counted, ap length got.first));
          manned = λ p. omega (arith, v.manned p, got.num);
          over = v.over;
          closed = v.closed;
          balance =
              λ w. rw left (omega (arith, v.balance w, m (in_hand w), ap (occurs w) got.first));
        }
