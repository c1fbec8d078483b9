-- ===== src/Sched/Stack.antt =====
-- What a coroutine finds on the stack when it runs again.
use treasure_house.Base.{
  ◌∙◌, ap, sym, subst, ◌==◌, subst, sym, ap, ℕ, ◌≤◌, ◌<◌, ◌≡◌, ◌≢◌, refl, arith, leb, ltb, true,
  false, if◌then◌else◌,
}
use treasure_house.Base.Memory.{update-same}
use treasure_house.Base.Run.{Ends-weaken, Ends, ends, Ends-bind, Ends-test, ◌>>=◌}
use treasure_house.Lists.{ListLib}
use treasure_house.Coroutine.{Coroutine, co_waiting, co_runnable, is_runnable}
use treasure_house.Sched.{
  Board, Sched, co_stack_size, save_co_stack, restore_co_stack, schedule, schedule_yield_coroutine,
  sched_yield_coroutine, sched_suspend_coroutine, sched_co_resume, co_queue_append, set_status,
  unlink,
}

-- What is saved of a coroutine lies inside its block, and is no more than the shared stack holds.
pub record Fits (co : Coroutine) : Type 0 where
  pub in_block : co.stack_size ≤ co.block
  pub in_stack : co.stack_size ≤ co_stack_size

-- The record of a coroutine that was switched away from, with `depth` bytes of its stack saved.
pub record Saved (depth : ℕ) (stack : ℕ → ℕ) (co : Coroutine) : Type 0 where
  pub fits : Fits co
  pub size : co.stack_size ≡ depth
  pub bytes : (k : ℕ) → k < depth → co.stack k ≡ stack k

pub save_co_stack-Saved :
    (depth : ℕ) (stack : ℕ → ℕ) (co : Coroutine)
    → Fits co
    → depth ≤ co_stack_size
    → Ends (Saved depth stack) (save_co_stack depth stack co)
unfolding save_co_stack
save_co_stack-Saved depth stack co fits small =
    Ends-test (leb depth co_stack_size)
      (λ _.
        Ends-test (leb depth (if ltb co.stack_size depth then depth else co.block))
          (λ inside. ends (record {
            fits = record { in_block = ground arith; in_stack = small };
            size = refl;
            bytes = λ k below. ground arith;
          }))
          (λ outside. absurd (ground (arith, fits.in_block))))
      (λ outside. absurd (ground arith))

pub restore_co_stack-bytes :
    (depth : ℕ) (stack now : ℕ → ℕ) (co : Coroutine)
    → Saved depth stack co
    → Ends (λ after. (k : ℕ) → k < depth → after k ≡ stack k) (restore_co_stack co now)
unfolding restore_co_stack
restore_co_stack-bytes depth stack now co saved =
    Ends-test (leb co.stack_size co_stack_size)
      (λ _.
        Ends-test (leb co.stack_size co.block)
          (λ _. ends (λ k below. ground (arith, saved.size, saved.bytes k below)))
          (λ outside. absurd (ground (arith, saved.fits.in_block))))
      (λ outside. absurd (ground (arith, saved.fits.in_stack)))

pub restore_co_stack-Fits :
    (now : ℕ → ℕ) (co : Coroutine) → Fits co → Ends (λ _. Unit {0}) (restore_co_stack co now)
restore_co_stack-Fits now co fits =
    Ends-weaken
      (restore_co_stack-bytes co.stack_size co.stack now co
        (record { fits = fits; size = refl; bytes = λ k _. refl }))
      (λ _ _. tt)

resumed_is_runnable :
    {L : ListLib} (co : ℕ) (b : Board L) → ((sched_co_resume co b).cos co).status ≡ co_runnable
unfolding sched_co_resume set_status co_queue_append unlink
resumed_is_runnable co b =
    ap (λ c. c.status) (update-same b.cos co (record (b.cos co) { status = co_runnable }))

module _ {L : ListLib} {A : Type 0} where
  schedule_yield_coroutine-Saved :
      (depth : ℕ) (s : Sched L A)
      → Fits (s.board.cos s.co_curr)
      → depth ≤ co_stack_size
      → Ends
          (λ t.
            Saved depth s.stack (t.board.cos s.co_curr)
            × ((t.board.cos s.co_curr).status ≡ co_waiting))
          (schedule_yield_coroutine depth co_waiting s)
  unfolding schedule_yield_coroutine
  schedule_yield_coroutine-Saved depth s fits small =
      Ends-bind (save_co_stack-Saved depth s.stack (s.board.cos s.co_curr) fits small) (λ co saved.
        let there = update-same s.board.cos s.co_curr (record co { status = co_waiting }) in
        ends (
          subst (λ c. Saved depth s.stack c) (sym there)
              (record {
                fits = record { in_block = saved.fits.in_block; in_stack = saved.fits.in_stack };
                size = saved.size;
                bytes = saved.bytes;
              }),
          ap (λ c. c.status) there,
        ))

  schedule-restores :
      (depth : ℕ) (stack : ℕ → ℕ) (s : Sched L A)
      → s.co_curr ≢ 0
      → Saved depth stack (s.board.cos s.co_curr)
      → (s.board.cos s.co_curr).status ≡ co_waiting
      → Ends (λ after. (k : ℕ) → k < depth → after.stack k ≡ stack k) (schedule s)
  unfolding schedule
  schedule-restores depth stack s there saved waiting =
      let found : (s.co_curr == 0) ≡ false = ground arith in
      let stopped : is_runnable (s.board.cos s.co_curr).status ≡ false = ap is_runnable waiting in
      rw (found, stopped)
        (Ends-bind (restore_co_stack-bytes depth stack s.stack (s.board.cos s.co_curr) saved)
          (λ after same. ends same))

  -- A coroutine that yields with no more than CO_STACK_SIZE bytes on the stack finds each of them
  -- as it was when it runs next, whatever the others did to the shared stack in between, if they
  -- left its own record alone.
  pub yield_keeps_stack :
      (depth : ℕ) (s : Sched L A) (others : Sched L A → Sched L A)
      → s.co_curr ≢ 0
      → Fits (s.board.cos s.co_curr)
      → depth ≤ co_stack_size
      → ((t : Sched L A) → (others t).co_curr ≡ s.co_curr)
      → ((t : Sched L A) → (others t).board.cos s.co_curr ≡ t.board.cos s.co_curr)
      → Ends
          (λ after. (k : ℕ) → k < depth → after.stack k ≡ s.stack k)
          (sched_yield_coroutine depth s >>= λ t. schedule (others t))
  unfolding sched_yield_coroutine co_queue_append
  yield_keeps_stack depth s others there fits small picked kept =
      Ends-bind
        (schedule_yield_coroutine-Saved depth
          (record s { board = co_queue_append s.board.co_ready_queue s.co_curr s.board }) fits
          small)
        (λ t (saved, waiting).
          schedule-restores depth s.stack (others t) (ground (arith, picked t))
            (subst (λ c. Saved depth s.stack c)
              (sym (kept t) ∙ ap (others t).board.cos (sym (picked t))) saved)
            (ap (λ c. ((others t).board.cos c).status) (picked t)
              ∙ ap (λ c. c.status) (kept t)
              ∙ waiting))

  -- A coroutine that is suspended, and then resumed by sched_co_resume, finds on the stack what the
  -- others left there: nothing of what was saved is restored.
  pub resume_loses_stack :
      (depth : ℕ) (s : Sched L A) (others : Sched L A → Sched L A) (left : ℕ → ℕ)
      → s.co_curr ≢ 0
      → Fits (s.board.cos s.co_curr)
      → depth ≤ co_stack_size
      → ((t : Sched L A) → (others t).co_curr ≡ s.co_curr)
      → ((t : Sched L A) → (others t).stack ≡ left)
      → Ends
          (λ after. after.stack ≡ left)
          (sched_suspend_coroutine depth s >>= λ t.
            schedule (record (others t) { board = sched_co_resume s.co_curr (others t).board }))
  unfolding sched_suspend_coroutine schedule co_queue_append
  resume_loses_stack depth s others left there fits small picked stacks =
      Ends-bind
        (schedule_yield_coroutine-Saved depth
          (record s { board = co_queue_append s.board.co_queue s.co_curr s.board }) fits small)
        (λ t _.
          let found : ((others t).co_curr == 0) ≡ false = ground (arith, picked t) in
          let board = sched_co_resume s.co_curr (others t).board in
          let ready : is_runnable (board.cos (others t).co_curr).status ≡ true =
            ap (λ c. is_runnable (board.cos c).status) (picked t)
            ∙ ap is_runnable (resumed_is_runnable s.co_curr (others t).board) in
          rw (found, ready) (ends (stacks t)))
