-- ===== src/Sched/Sleep.antt =====
-- A coroutine that sleeps: sched_delay, and process_expired_timers when its time has come or not.
use treasure_house.Base.{
  sym, ap, subst, ℕ, ◌+◌, ◌≤◌, ◌<◌, ◌≡◌, refl, ◌⊎◌, inl, inr, Bool, true, false, ◌&&◌, List, [],
  ◌∷◌, ◌++◌, arith, leb, ◌==◌, Bool-cases, some, ◌^◌,
}
use treasure_house.Base.Memory.{count}
use treasure_house.Base.Run.{Ends-weaken, Ends, ends, Ends-bind}
use treasure_house.Lists.{ListLib, has, remove}
use treasure_house.Lists.Remove.{has-append, has-remove_other}
use treasure_house.Heap.{HeapT, heap_init_cap}
use treasure_house.Heap.Order.{Before, IsComparison}
use treasure_house.Heap.Queue.{IsValid, Pushed}
use treasure_house.Heap.Push.{heap_push-Pushed}
use treasure_house.Heap.Pop.{none_ahead}
use treasure_house.Heap.Drain.{tally}
use treasure_house.Timer.{time_now, Timespec, CoTimer, co_timer_after, co_timer_run}
use treasure_house.Sched.{
  Board, Sched, co_stack_size, co_after_delay, sched_co_resume, sched_delay,
  sched_suspend_coroutine, schedule_yield_coroutine, co_queue_append, set_status, unlink,
}
use treasure_house.Sched.Stack.{Fits, save_co_stack-Saved}
use treasure_house.Sched.Queues.{ready, waiting, ready-resumed, waiting-resumed, entries-append}
use treasure_house.Sched.Loop.{process_expired_timers}
use treasure_house.Sched.Timers.{process_expired_timers-Expired, ByTime, Expired, AllDue, run_all}

module _ {L : ListLib} {A : Type 0} (timer : A → CoTimer (Board L)) where
  -- Every timer is a sleeper's.
  abbrev pub OnlySleepers : Type 0
  OnlySleepers = (x : A) → (timer x).callback ≡ some co_after_delay

  run-resumes :
      OnlySleepers
      → (x : A) (b : Board L) → co_timer_run (timer x) b ≡ sched_co_resume (timer x).args b
  unfolding co_timer_run co_after_delay
  run-resumes sleepers x b = rw (sleepers x) refl

  -- Of a coroutine one of whose timers is run, or that is ready before.
  woken_by :
      (co : ℕ) (p : A → Bool) (due : List A) (b : Board L)
      → OnlySleepers
      → ((x : A) → p x ≡ true → (timer x).args ≡ co)
      → (0 < tally p due) ⊎ (has co (ready b) ≡ true)
      → has co (ready (run_all timer due b)) ≡ true
  woken_by co p [] b sleepers his (inl some_timer) = absurd (omega arith)
  woken_by co p [] b sleepers his (inr now) = now
  woken_by co p (x ∷ xs) b sleepers his why =
      let y = (timer x).args in
      woken_by co p xs (co_timer_run (timer x) b) sleepers his (elim (Bool-cases (y == co)) [
        | inl same ↦ inr (
            rw (run-resumes sleepers x b, ready-resumed y b)
              (ground (arith, has-append co (remove y (ready b)) (y ∷ []))))
        | inr other ↦ elim why [
          | inl some_timer ↦ inl (ground (arith, his x))
          | inr now ↦ inr (
              rw (run-resumes sleepers x b, ready-resumed y b)
                (ground (
                  arith,
                  has-append co (remove y (ready b)) (y ∷ []),
                  has-remove_other co y (ready b),
                )))
        ]
      ])

  two-resumed :
      (co : ℕ) (b : Board L)
      → (b.co_queue == b.co_ready_queue) ≡ false
      → ((sched_co_resume co b).co_queue == (sched_co_resume co b).co_ready_queue) ≡ false
  unfolding sched_co_resume co_queue_append set_status unlink
  two-resumed co b two = two

  -- Of a coroutine none of whose timers is run.
  sleeps_on :
      (co now : ℕ) (due : List A) (b : Board L)
      → OnlySleepers
      → (b.co_queue == b.co_ready_queue) ≡ false
      → AllDue timer now due
      → tally (λ x. ((timer x).args == co) && leb (timer x).when now) due ≡ 0
      → has co (waiting b) ≡ true
      → has co (waiting (run_all timer due b)) ≡ true
  sleeps_on co now [] b sleepers two all none now_waits = now_waits
  sleeps_on co now (x ∷ xs) b sleepers two all none now_waits =
      let y = (timer x).args in
      let others : (co == y) ≡ false = ground (arith, all.0) in
      let waits_on : has co (waiting (sched_co_resume y b)) ≡ true =
        rw (waiting-resumed y b two) (ground (arith, has-remove_other co y (waiting b))) in
      sleeps_on co now xs (co_timer_run (timer x) b) sleepers
        (rw (run-resumes sleepers x b) (two-resumed y b two)) all.1 (ground (arith, none))
        (rw (run-resumes sleepers x b) waits_on)

  -- What sched_delay did, in a scheduler whose new timer is `x`.
  pub record Slept (x : A) (s t : Sched L A) : Type 0 where
    pub timers : Pushed x s.co_timer_heap t.co_timer_heap
    pub queued : waiting t.board ≡ waiting s.board ++ s.co_curr ∷ []
    pub same :
        (t.board.co_queue ≡ s.board.co_queue) × (t.board.co_ready_queue ≡ s.board.co_ready_queue)

  sched_delay-Slept :
      (now : Timespec) (pointer : CoTimer (Board L) → A) (delay_ms depth : ℕ) (s : Sched L A)
      → has s.co_curr (waiting s.board) ≡ false
      → Fits (s.board.cos s.co_curr)
      → depth ≤ co_stack_size
      → IsComparison s.co_timer_heap.cmp_fn
      → IsValid s.co_timer_heap
      → s.co_timer_heap.cap + heap_init_cap < 2 ^ 29
      → Ends
          (Slept (pointer (co_timer_after now delay_ms (some co_after_delay) s.co_curr)) s)
          (sched_delay now pointer delay_ms depth s)
  unfolding sched_delay sched_suspend_coroutine schedule_yield_coroutine co_queue_append
  sched_delay-Slept now pointer delay_ms depth s new fits small compares v room =
      Ends-bind
        (heap_push-Pushed s.co_timer_heap compares v room
          (pointer (co_timer_after now delay_ms (some co_after_delay) s.co_curr)))
        (λ heap pushed.
          Ends-bind (save_co_stack-Saved depth s.stack (s.board.cos s.co_curr) fits small)
            (λ co saved. ends (record {
              timers = pushed;
              queued = entries-append s.board.co_queue s.co_curr s.board new;
              same = (refl, refl);
            })))

  -- The sleeper's timer is the only one of its own on the heap: it was run, or it is not due.
  woken_or_asleep :
      (clock : ℕ → ℕ) (x : A) (s t : Sched L A) (r : ℕ × HeapT A × Board L)
      → OnlySleepers
      → (s.board.co_queue == s.board.co_ready_queue) ≡ false
      → (timer x).args ≡ s.co_curr
      → ((i : ℕ)
          → i < s.co_timer_heap.elem_num
          → ((timer (s.co_timer_heap.elements i)).args == s.co_curr) ≡ false)
      → Slept x s t
      → (e : Expired timer clock t.co_timer_heap t.board r)
      → (((timer x).when ≤ clock e.last) × (has s.co_curr (ready r.2) ≡ true))
        ⊎ ((clock e.last < (timer x).when) × (has s.co_curr (waiting r.2) ≡ true))
  woken_or_asleep clock x s t r sleepers two his none_his slept e =
      let co = s.co_curr in
      let heap = s.co_timer_heap in
      elim (Bool-cases (leb (timer x).when (clock e.last))) [
        | inl due ↦
            let late : A → Bool =
              λ a. ((timer a).args == co) && leb (timer a).when (timer x).when in
            let none_before : count late heap.elements heap.elem_num ≡ 0 =
              none_ahead late heap.elements heap.elem_num (λ i l. ground (arith, none_his i l)) in
            let none_left : count late r.1.elements r.1.elem_num ≡ 0 = elim e.delay [
              | inl (empty, wait) ↦
                  none_ahead late r.1.elements r.1.elem_num (λ i l. absurd (omega (arith, empty)))
              | inr (wait, later, first) ↦
                  none_ahead late r.1.elements r.1.elem_num (λ i l. ground (arith, later i l))
            ] in
            let ran : 0 < tally late e.due =
              ground (arith, e.same late, slept.timers.same late, none_before, none_left, his) in
            inl (
              ground arith,
              subst (λ b. has co (ready b) ≡ true) (sym e.ran)
                  (woken_by co late e.due t.board sleepers (λ a is_late. ground arith) (inl ran)),
            )
        | inr early ↦
            let soon : A → Bool =
              λ a. ((timer a).args == co) && leb (timer a).when (clock e.last) in
            let none_before : count soon heap.elements heap.elem_num ≡ 0 =
              none_ahead soon heap.elements heap.elem_num (λ i l. ground (arith, none_his i l)) in
            let none_ran : tally soon e.due ≡ 0 =
              ground (arith, e.same soon, slept.timers.same soon, none_before) in
            inr (
              ground arith,
              subst (λ b. has co (waiting b) ≡ true) (sym e.ran)
                  (sleeps_on co (clock e.last) e.due t.board sleepers
                    (ground (arith, slept.same.0, slept.same.1)) e.reached none_ran
                    (rw slept.queued (ground (arith, has-append co (waiting s.board) (co ∷ []))))),
            )
      ]

  -- A coroutine that calls sched_delay goes to the end of the waiting queue. When
  -- process_expired_timers is then called it ends, and where its last reading of the clock, which
  -- does not go back, is at or after the time of the call and the delay, the coroutine is ready;
  -- where it is before, the coroutine still waits. This is for a valid heap with room and a
  -- comparison that puts earlier timers first, on which all timers are sleepers' and none is the
  -- coroutine's own.
  pub sleeps_until_due :
      (now : Timespec) (pointer : CoTimer (Board L) → A) (delay_ms depth : ℕ) (clock : ℕ → ℕ)
      (s : Sched L A)
      → has s.co_curr (waiting s.board) ≡ false
      → (s.board.co_queue == s.board.co_ready_queue) ≡ false
      → Fits (s.board.cos s.co_curr)
      → depth ≤ co_stack_size
      → IsComparison s.co_timer_heap.cmp_fn
      → IsValid s.co_timer_heap
      → s.co_timer_heap.cap + heap_init_cap < 2 ^ 29
      → ByTime timer s.co_timer_heap
      → OnlySleepers
      → ((i : ℕ)
          → i < s.co_timer_heap.elem_num
          → ((timer (s.co_timer_heap.elements i)).args == s.co_curr) ≡ false)
      → timer (pointer (co_timer_after now delay_ms (some co_after_delay) s.co_curr))
        ≡ co_timer_after now delay_ms (some co_after_delay) s.co_curr
      → ((i j : ℕ) → i ≤ j → clock i ≤ clock j)
      → Ends
          (λ t.
            (waiting t.board ≡ waiting s.board ++ s.co_curr ∷ [])
            × Ends
                (λ r.
                  (e : Expired timer clock t.co_timer_heap t.board
                    (r.0, r.1.co_timer_heap, r.1.board))
                  × (((time_now now + delay_ms ≤ clock e.last)
                        × (has s.co_curr (ready r.1.board) ≡ true))
                      ⊎ ((clock e.last < time_now now + delay_ms)
                          × (has s.co_curr (waiting r.1.board) ≡ true))))
                (process_expired_timers timer clock t))
          (sched_delay now pointer delay_ms depth s)
  unfolding co_timer_after
  sleeps_until_due now pointer delay_ms depth clock s new two fits small compares v room by_time
        sleepers none_his made forward =
      let x = pointer (co_timer_after now delay_ms (some co_after_delay) s.co_curr) in
      Ends-weaken (sched_delay-Slept now pointer delay_ms depth s new fits small compares v room)
        (λ t slept. (
          slept.queued,
          Ends-weaken
              (process_expired_timers-Expired timer clock t
                (subst (λ c. IsComparison c) (sym slept.timers.kept) compares) slept.timers.valid
                (λ a b ahead. by_time a b (subst (λ c. Before c a b) slept.timers.kept ahead))
                forward)
              (λ r e. (
                e,
                subst
                    (λ w.
                      ((w ≤ clock e.last) × (has s.co_curr (ready r.1.board) ≡ true))
                      ⊎ ((clock e.last < w) × (has s.co_curr (waiting r.1.board) ≡ true)))
                    (ap (λ ct. ct.when) made)
                    (woken_or_asleep clock x s t (r.0, r.1.co_timer_heap, r.1.board) sleepers two
                      (ap (λ ct. ct.args) made) none_his slept e),
              )),
        ))
