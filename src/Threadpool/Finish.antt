-- ===== src/Threadpool/Finish.antt =====
-- A pool that was shut down can always finish.
use treasure_house.Base.{
  ℕ, zero, suc, ◌≡◌, ◌+◌, ◌-◌, ◌*◌, ◌<◌, refl, sym, ◌∙◌, ap, true, false, some, List, [], ◌∷◌, ◌++◌,
  arith, length, ◌==◌, inl, inr, Bool-cases,
}
use treasure_house.Base.Run.{ok}
use treasure_house.Lists.{ListLib}
use treasure_house.Threadpool.{
  Workqueue, is_running, returns, take_first, workqueue_get, worker_exit, wait_returns,
}
use treasure_house.Threadpool.Steps.{
  Phase, fetching, working, leaving, done, State, Step, fetches, finds_end, works, leaves, Reach,
  here, next, start,
}
use treasure_house.Threadpool.Counts.{total, live}
use treasure_house.Threadpool.Invariant.{Sound, start-Sound, moved}
use treasure_house.Threadpool.Kept.{Step-Sound, Reach-Sound}

-- The steps that a thread may still take, apart from the works that it may still fetch.
abbrev weight : Phase → ℕ
weight fetching = 2
weight (working w) = 3
weight leaving = 1
weight done = 0

-- A thread that has not ended, among the others.
record Live (ps : List Phase) : Type 0 where
  before : List Phase
  thread : Phase
  after : List Phase
  at : ps ≡ before ++ thread ∷ after
  lives : live thread ≡ 1

find_live : (ps : List Phase) → 0 < total live ps → Live ps
unfolding total
find_live [] h = absurd (omega arith)
find_live (done ∷ ps) h =
    let l = find_live ps (omega arith) in
    record {
      before = done ∷ l.before;
      thread = l.thread;
      after = l.after;
      at = ap (◌∷◌ done) l.at;
      lives = l.lives;
    }
find_live (fetching ∷ ps) h = record {
  before = [];
  thread = fetching;
  after = ps;
  at = refl;
  lives = refl;
}
find_live (working w ∷ ps) h = record {
  before = [];
  thread = working w;
  after = ps;
  at = refl;
  lives = refl;
}
find_live (leaving ∷ ps) h = record {
  before = [];
  thread = leaving;
  after = ps;
  at = refl;
  lives = refl;
}

module _ {L : ListLib} where
  open L use {entries}

  abbrev load : State L → ℕ
  load s = total weight s.workers + 2 * s.queue.num

  -- A step that leaves less to do.
  abbrev Progress : State L → Type 0
  Progress s = (t : State L) × Step s t × (load t < load s) × (t.queue.status ≡ s.queue.status)

  get_some :
      (wq : Workqueue L) (work : ℕ) (more : List ℕ)
      → entries wq.list ≡ work ∷ more
      → 0 < wq.num
      → (queue : Workqueue L) × (workqueue_get wq ≡ ok (returns (some work) queue))
        × (queue.num ≡ wq.num - 1)
        × (queue.status ≡ wq.status)
  unfolding workqueue_get take_first
  get_some wq work more e h =
      (record wq { list = L.list_del work wq.list; num = wq.num - 1 }, ground arith, refl, refl)

  module _ {s : State L} (v : Sound s) (off : is_running s.queue.status ≡ false) where
    open s use {queue, workers}

    fetching-Progress :
        (xs ys : List Phase) (es : List ℕ)
        → workers ≡ xs ++ fetching ∷ ys
        → entries queue.list ≡ es
        → Progress s
    unfolding workqueue_get
    fetching-Progress xs ys [] e now =
        let none_left : queue.num ≡ 0 = omega (arith, v.counted, ap length now) in
        (
          record s { queue = queue; workers = xs ++ leaving ∷ ys },
          finds_end xs ys queue e (ground arith),
          omega (arith, moved v xs ys fetching leaving e weight),
          refl,
        )
    fetching-Progress xs ys (work ∷ more) e now =
        let some_left : 0 < queue.num = omega (arith, v.counted, ap length now) in
        let (queue', got, less, same) = get_some queue work more now some_left in
        (
          record s { queue = queue'; workers = xs ++ working work ∷ ys },
          fetches xs ys work queue' e got,
          omega (arith, less, some_left, moved v xs ys fetching (working work) e weight),
          same,
        )

    thread-Progress :
        (xs ys : List Phase) (p : Phase) → workers ≡ xs ++ p ∷ ys → live p ≡ 1 → Progress s
    thread-Progress xs ys fetching e h = fetching-Progress xs ys (entries queue.list) e refl
    thread-Progress xs ys (working w) e h = (
      record s { workers = xs ++ fetching ∷ ys; executed = w ∷ s.executed },
      works xs ys w e,
      omega (arith, moved v xs ys (working w) fetching e weight),
      refl,
    )
    thread-Progress xs ys leaving e h = (
      record s { pool = worker_exit s.pool; workers = xs ++ done ∷ ys },
      leaves xs ys e,
      omega (arith, moved v xs ys leaving done e weight),
      refl,
    )
    thread-Progress xs ys done e h = absurd (omega arith)

  first-Step : {s t u : State L} → Step s t → Reach t u → Reach s u
  first-Step st here = next here st
  first-Step st (next r last) = next (first-Step st r) last

  finish :
      (fuel : ℕ) (s : State L)
      → Sound s
      → is_running s.queue.status ≡ false
      → load s < fuel
      → (t : State L) × Reach s t × (wait_returns t.pool ≡ true)
  unfolding wait_returns
  finish zero s v off h = absurd (omega arith)
  finish (suc fuel) s v off h = elim (Bool-cases (s.pool.threads_num == 0)) [
    | inl ended ↦ (s, here, v.closed (v.agree ∙ off) (ground arith))
    | inr more ↦
        let l = find_live s.workers (ground (arith, v.alive)) in
        let (t, st, less, same) = thread-Progress v off l.before l.after l.thread l.at l.lives in
        let (u, r, over) =
          finish fuel t (Step-Sound v st) (ap is_running same ∙ off) (omega (arith, less)) in
        (u, first-Step st r, over)
  ]

  -- From every state that a pool for at least one thread can reach, if it was shut down, there is a
  -- run to a state where threadpool_wait returns.
  pub shutdown_can_finish :
      (max_threads : ℕ) (s : State L)
      → 0 < max_threads
      → Reach (start max_threads) s
      → is_running s.pool.status ≡ false
      → (t : State L) × Reach s t × (wait_returns t.pool ≡ true)
  shutdown_can_finish max_threads s room r off =
      let v = Reach-Sound (start-Sound max_threads room) r in
      finish (load s + 1) s v (sym v.agree ∙ off) (omega arith)
