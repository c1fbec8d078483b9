-- ===== src/Wait/Blocked.antt =====
-- A coroutine that runs cannot make itself wait.
use treasure_house.Base.{ap, ◌||◌, ℕ, ◌≡◌, refl, ◌∙◌, true, false, arith, if◌then◌else◌, Bool}
use treasure_house.Base.Run.{fault}
use treasure_house.Lists.{ListLib, has, remove}
use treasure_house.Coroutine.{CoStatus, is_runnable}
use treasure_house.Sched.{Board, set_status, co_queue_popleft, first_entry, unlink}
use treasure_house.Sched.Queues.{ready, waiting, entries-unlink}
use treasure_house.Lists.Remove.{has-remove}
use treasure_house.Wait.{
  Waits, is_queued, is_alone, is_exclusive, set_link, coroutine_set_current_state, add_wait_queue,
  prepare_to_wait, prepare_to_wait_event, signal_pending_state,
}

if_either : {A : Type 0} (P : A → Type 0) (b : Bool) (x y : A) → P x → P y → P (if b then x else y)
if_either P true x y p q = p
if_either P false x y p q = q

-- The scheduler and the current coroutine are the same.
abbrev pub Same : {L : ListLib} → Waits L → Waits L → Type 0
Same w u = (u.board ≡ w.board) × (u.co_curr ≡ w.co_curr)

module _ {L : ListLib} where
  set_state-fault :
      (state : CoStatus) (w : Waits L)
      → is_runnable state ≡ false
      → is_queued w.co_curr w.board ≡ false
      → coroutine_set_current_state state w ≡ fault
  unfolding coroutine_set_current_state set_status
  set_state-fault state w stops off = rw (stops, off) refl

  -- What co_queue_popleft takes off a queue stands on no queue.
  popped_off :
      (queue : ℕ) (b : Board L)
      → L.list_empty (b.queues queue) ≡ false
      → is_queued (co_queue_popleft queue b).0 (co_queue_popleft queue b).1 ≡ false
  unfolding co_queue_popleft unlink
  popped_off queue b some_there =
      let co = first_entry (L.entries (b.queues queue)) in
      let off : is_queued co (unlink co b) ≡ false =
        ap (λ xs. has co xs || has co (waiting (unlink co b)))
          (entries-unlink co b (unlink co b).co_ready_queue)
        ∙ ap (λ ys. has co (remove co (ready b)) || has co ys)
            (entries-unlink co b (unlink co b).co_queue)
        ∙ ground (arith, has-remove co (ready b), has-remove co (waiting b)) in
      rw some_there off

  -- A coroutine that co_queue_popleft has just taken off a queue, as it is before a coroutine runs,
  -- cannot make itself wait: each of prepare_to_wait and prepare_to_wait_event that it calls with a
  -- state other than CO_RUNNABLE is a fault, since coroutine_set_current_state takes the coroutine
  -- off a queue, and it stands on none. What list_add and list_add_tail do in prepare_to_wait_event
  -- leaves the scheduler alone.
  pub running_cannot_wait :
      (queue : ℕ) (b : Board L) (w : Waits L) (e : ℕ) (state : CoStatus)
      (add_tail add : ℕ → Waits L → Waits L)
      → L.list_empty (b.queues queue) ≡ false
      → w.board ≡ (co_queue_popleft queue b).1
      → w.co_curr ≡ (co_queue_popleft queue b).0
      → is_runnable state ≡ false
      → ((x : ℕ) (v : Waits L) → Same v (add_tail x v))
      → ((x : ℕ) (v : Waits L) → Same v (add x v))
      → (prepare_to_wait e state w ≡ fault) × (prepare_to_wait_event add_tail add e state w ≡ fault)
  unfolding prepare_to_wait prepare_to_wait_event add_wait_queue set_link signal_pending_state
  running_cannot_wait queue b w e state add_tail add some_there board curr stops tails heads =
      let off = popped_off queue b some_there in
      let still : (u : Waits L) → Same w u → coroutine_set_current_state state u ≡ fault =
        λ u same. set_state-fault state u stops (rw (same.0, same.1, curr, board) off) in
      (
        still (if is_alone (w.entry e).link then add_wait_queue e w else w) (
            if_either (Same w) (is_alone (w.entry e).link) (add_wait_queue e w) w (refl, refl)
              (refl, refl)),
        rw
            (still
              (if is_alone (w.entry e).link
                then (if is_exclusive (w.entry e).flag then add_tail e w else add e w)
                else w)
              (if_either (Same w) (is_alone (w.entry e).link)
                (if is_exclusive (w.entry e).flag then add_tail e w else add e w) w
                (if_either (Same w) (is_exclusive (w.entry e).flag) (add_tail e w) (add e w)
                  (tails e w) (heads e w))
                (refl, refl)))
            refl,
      )
