-- ===== src/Wait.antt =====
-- The wait queues of src/coroutine/sched/wait.h and wait.c, with coroutine_set_current_state of
-- src/coroutine/coroutine.c and the functions of src/coroutine/sched/core.c that a wait queue calls.
-- The source names fields that the structs lack (`flags` for flag, `lock` for spin_lock); the model
-- takes the ones meant. The spin lock guards one call at a time.
pub mod Wake
pub mod Blocked
pub mod Finish
mod Tests
use treasure_house.Base.{
  ℕ, zero, suc, ◌%◌, Bool, true, false, ◌||◌, not, ◌&&◌, List, [], ◌∷◌, ◌==◌, if◌then◌else◌,
}
use treasure_house.Base.Memory.{update}
use treasure_house.Base.Run.{Run, ok, fault, ◌>>=◌}
use treasure_house.Lists.{ListLib, has}
use treasure_house.Coroutine.{CoStatus, is_runnable}
use treasure_house.Sched.{Board, set_status, unlink, sched_co_resume}

-- What an entry's own list_head is: linked to itself, linked to a list, or as list_del leaves it.
pub data Link : Type 0 where
  alone linked poisoned : Link

abbrev pub is_alone : Link → Bool
is_alone alone = true
is_alone _ = false

-- wait_queue_func_t: the functions that the source sets.
pub data WaitFunc : Type 0 where
  calls_autoremove calls_wakeup : WaitFunc

-- struct wait_queue_entry
pub record WaitEntry : Type 0 where
  pub flag : ℕ
  pub co : ℕ
  pub func : WaitFunc
  pub link : Link

-- A wait queue's list, the entries by address, the scheduler's board, and the current coroutine.
pub record Waits (L : ListLib) : Type 0 where
  pub task_list : L.Head
  pub entry : ℕ → WaitEntry
  pub board : Board L
  pub co_curr : ℕ

-- WQ_FLAG_EXCLUSIVE is the lowest bit.
abbrev pub is_exclusive : ℕ → Bool
is_exclusive flags = flags % 2 == 1

-- signal_pending_state returns 0.
unfoldable pub signal_pending_state : CoStatus → ℕ → Bool
signal_pending_state state co = false

-- ERESTARTSYS
abbrev pub erestartsys : ℕ
erestartsys = 512

module _ {L : ListLib} where
  open L use {entries, list_add, list_del}

  -- The coroutine stands on one of the scheduler's queues.
  abbrev pub is_queued : ℕ → Board L → Bool
  is_queued co b =
      has co (entries (b.queues b.co_ready_queue)) || has co (entries (b.queues b.co_queue))

  unfoldable pub set_link : ℕ → Link → Waits L → Waits L
  set_link e link w = record w { entry = update w.entry e (record (w.entry e) { link = link }) }

  unfoldable pub init_wait_entry : ℕ → ℕ → Waits L → Waits L
  init_wait_entry e flags w = record w {
    entry =
        update w.entry e
          (record { flag = flags; co = w.co_curr; func = calls_autoremove; link = alone });
  }

  -- list_del of a coroutine that stands on no queue is a fault: popleft has poisoned its links.
  unfoldable pub coroutine_set_current_state : CoStatus → Waits L → Run (Waits L)
  coroutine_set_current_state state w =
      let board = set_status w.co_curr state w.board in
      if is_runnable state
      then ok (record w { board = board })
      else if is_queued w.co_curr board
      then ok (record w { board = unlink w.co_curr board })
      else fault

  unfoldable pub add_wait_queue : ℕ → Waits L → Waits L
  add_wait_queue e w = set_link e linked (record w { task_list = list_add e w.task_list })

  unfoldable pub prepare_to_wait : ℕ → CoStatus → Waits L → Run (Waits L)
  prepare_to_wait e state w =
      coroutine_set_current_state state
        (if is_alone (w.entry e).link then add_wait_queue e w else w)

  -- The calls of list_add and list_add_tail hand over the queue's head for the new entry, and the
  -- entry for the list: what they do is an argument, for each of the two. The result is what the
  -- function returns.
  unfoldable pub prepare_to_wait_event :
      (ℕ → Waits L → Waits L) → (ℕ → Waits L → Waits L) → ℕ → CoStatus → Waits L → Run (ℕ × Waits L)
  prepare_to_wait_event add_tail add e state w =
      if signal_pending_state state w.co_curr
      then ok (erestartsys, set_link e alone (record w { task_list = list_del e w.task_list }))
      else (coroutine_set_current_state state (
            if is_alone (w.entry e).link
            then (if is_exclusive (w.entry e).flag then add_tail e w else add e w)
            else w)
          >>= λ after. ok (0, after))

  -- list_del of an entry whose links are poisoned is a fault.
  unfoldable pub finish_wait : ℕ → Waits L → Run (Waits L)
  finish_wait e w = elim (w.entry e).link [
    | alone ↦ ok w
    | linked ↦ ok (set_link e poisoned (record w { task_list = list_del e w.task_list }))
    | poisoned ↦ fault
  ]

  -- sched_co_resume begins with list_del of the coroutine: where it stands on no queue, that follows
  -- the links that list_del has poisoned.
  unfoldable pub sched_wakeup_coroutine : ℕ → ℕ → Waits L → Run (ℕ × Waits L)
  sched_wakeup_coroutine e flags w =
      if is_queued (w.entry e).co w.board
      then ok (0, record w { board = sched_co_resume (w.entry e).co w.board })
      else fault

  unfoldable pub autoremove_wake_function : ℕ → ℕ → Waits L → Run (ℕ × Waits L)
  autoremove_wake_function e flags w = sched_wakeup_coroutine e flags w >>= λ (ret, woken).
      if ret == 0
      then ok (ret, woken)
      else ok (ret, set_link e alone (record woken { task_list = list_del e woken.task_list }))

  unfoldable pub call_func : WaitFunc → ℕ → ℕ → Waits L → Run (ℕ × Waits L)
  call_func calls_autoremove e flags w = autoremove_wake_function e flags w
  call_func calls_wakeup e flags w = sched_wakeup_coroutine e flags w

  -- The loop over the entries as they stand.
  unfoldable pub wake_each : ℕ → List ℕ → Waits L → Run (Waits L)
  wake_each flags [] w = ok w
  wake_each flags (e ∷ es) w = call_func (w.entry e).func e flags w >>= λ (ret, woken).
      let rest = wake_each flags es woken in
      if not (ret == 0) && is_exclusive flags then ok woken else rest

  -- __wake_up
  unfoldable pub wake_up : ℕ → Waits L → Run (Waits L)
  wake_up flags w = wake_each flags (entries w.task_list) w
