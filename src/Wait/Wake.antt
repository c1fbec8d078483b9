-- ===== src/Wait/Wake.antt =====
-- Whom __wake_up wakes.
use treasure_house.Base.{
  ℕ, ◌≡◌, refl, List, [], ◌∷◌, ◌++◌, Bool, true, false, ◌&&◌, ◌||◌, ◌==◌, Bool-cases, inl, inr,
  arith, if◌then◌else◌, ◌∙◌, ap,
}
use treasure_house.Base.Run.{ok, fault}
use treasure_house.Lists.{ListLib, has, remove}
use treasure_house.Lists.Remove.{has-append, has-remove_other}
use treasure_house.Sched.{Board, sched_co_resume, co_queue_append, set_status, unlink}
use treasure_house.Sched.Queues.{ready, waiting, ready-resumed, waiting-resumed}
use treasure_house.Wait.{
  Waits, WaitEntry, WaitFunc, calls_autoremove, calls_wakeup, sched_wakeup_coroutine, is_queued,
  autoremove_wake_function, call_func, wake_each, wake_up,
}

-- Taking `co` off a list and putting it behind another keeps what stands on the two.
has-resumed :
    (c co : ℕ) (xs ys : List ℕ)
    → (has co xs || has co ys) ≡ true
    → (has c (remove co xs ++ co ∷ []) || has c (remove co ys)) ≡ (has c xs || has c ys)
has-resumed c co xs ys there = elim (Bool-cases (c == co)) [
  | inl same ↦
      let e : c ≡ co = ground (arith, same) in
      rw e (ground (arith, has-append co (remove co xs) (co ∷ []), there))
  | inr other ↦ ground (
    arith,
    has-append c (remove co xs) (co ∷ []),
    has-remove_other c co xs other,
    has-remove_other c co ys other,
  )
]

module _ {L : ListLib} where
  open L use {entries}

  -- The coroutines of the entries, resumed one after the other.
  abbrev pub resume_all : (ℕ → WaitEntry) → List ℕ → Board L → Board L
  resume_all entry [] b = b
  resume_all entry (e ∷ es) b = resume_all entry es (sched_co_resume (entry e).co b)

  -- Each entry's coroutine stands on a queue of the scheduler.
  abbrev pub all_queued : (ℕ → WaitEntry) → List ℕ → Board L → Bool
  all_queued entry [] b = true
  all_queued entry (e ∷ es) b = is_queued (entry e).co b && all_queued entry es b

  is_queued-resumed :
      (c co : ℕ) (b : Board L)
      → (b.co_queue == b.co_ready_queue) ≡ false
      → is_queued co b ≡ true
      → is_queued c (sched_co_resume co b) ≡ is_queued c b
  is_queued-resumed c co b two there =
      ap (λ xs. has c xs || has c (waiting (sched_co_resume co b))) (ready-resumed co b)
      ∙ ap (λ ys. has c (remove co (ready b) ++ co ∷ []) || has c ys) (waiting-resumed co b two)
      ∙ has-resumed c co (ready b) (waiting b) there

  all_queued-resumed :
      (entry : ℕ → WaitEntry) (es : List ℕ) (co : ℕ) (b : Board L)
      → (b.co_queue == b.co_ready_queue) ≡ false
      → is_queued co b ≡ true
      → all_queued entry es (sched_co_resume co b) ≡ all_queued entry es b
  all_queued-resumed entry [] co b two there = refl
  all_queued-resumed entry (e ∷ es) co b two there =
      ap (λ t. t && all_queued entry es (sched_co_resume co b))
        (is_queued-resumed (entry e).co co b two there)
      ∙ ap (λ t. is_queued (entry e).co b && t) (all_queued-resumed entry es co b two there)

  call_func-lem :
      (func : WaitFunc) (e flags : ℕ) (w : Waits L)
      → call_func func e flags w ≡ (
          if is_queued (w.entry e).co w.board
          then ok (0, record w { board = sched_co_resume (w.entry e).co w.board })
          else fault)
  unfolding call_func autoremove_wake_function sched_wakeup_coroutine
  call_func-lem calls_wakeup e flags w = refl
  call_func-lem calls_autoremove e flags w = elim (Bool-cases (is_queued (w.entry e).co w.board)) [
    | inl there ↦ rw there refl
    | inr away ↦ rw away refl
  ]

  resumed_two :
      (co : ℕ) (b : Board L)
      → (b.co_queue == b.co_ready_queue) ≡ false
      → ((sched_co_resume co b).co_queue == (sched_co_resume co b).co_ready_queue) ≡ false
  unfolding sched_co_resume co_queue_append set_status unlink
  resumed_two co b two = two

  wake_each-lem :
      (flags : ℕ) (es : List ℕ) (w : Waits L)
      → (w.board.co_queue == w.board.co_ready_queue) ≡ false
      → wake_each flags es w ≡ (
          if all_queued w.entry es w.board
          then ok (record w { board = resume_all w.entry es w.board })
          else fault)
  unfolding wake_each
  wake_each-lem flags [] w two = refl
  wake_each-lem flags (e ∷ es) w two = elim (Bool-cases (is_queued (w.entry e).co w.board)) [
    | inr away ↦ rw (call_func-lem (w.entry e).func e flags w, away) refl
    | inl there ↦
        rw
          (
            call_func-lem (w.entry e).func e flags w,
            there,
            wake_each-lem flags es (record w { board = sched_co_resume (w.entry e).co w.board })
                (resumed_two (w.entry e).co w.board two),
            all_queued-resumed w.entry es (w.entry e).co w.board two there,
          )
          refl
  ]

  -- Where the ready queue and the waiting queue are two: if the coroutine of each entry stands on one
  -- of them, __wake_up resumes each, in the order of the list, and leaves all entries on the wait
  -- queue, whatever the flags are, also with WQ_FLAG_EXCLUSIVE, which is to wake one. If not, it is a
  -- fault, as list_del takes a coroutine off a queue on which it does not stand.
  pub wake_up_wakes_all :
      (flags : ℕ) (w : Waits L)
      → (w.board.co_queue == w.board.co_ready_queue) ≡ false
      → wake_up flags w ≡ (
          if all_queued w.entry (entries w.task_list) w.board
          then ok (record w { board = resume_all w.entry (entries w.task_list) w.board })
          else fault)
  unfolding wake_up
  wake_up_wakes_all flags w two = wake_each-lem flags (entries w.task_list) w two
