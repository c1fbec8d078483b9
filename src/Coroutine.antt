-- ===== src/Coroutine.antt =====
-- The coroutines of src/coroutine/coroutine.h and coroutine.c. A coroutine is known by its address,
-- 0 for NULL. Its context is the platform's; what is kept of its stack is `stack`, counted from the
-- top of the stack, in a block of `block` bytes.
use treasure_house.Base.{ℕ, Bool, true, false}

-- CO_STATUS
pub data CoStatus : Type 0 where
  co_create co_runnable co_running co_waiting co_interruptible co_uninterruptible co_end : CoStatus

abbrev pub is_runnable : CoStatus → Bool
is_runnable co_runnable = true
is_runnable _ = false

-- struct coroutine
pub record Coroutine : Type 0 where
  pub sched : ℕ
  pub stack : ℕ → ℕ
  pub block : ℕ
  pub stack_size : ℕ
  pub fn_data : ℕ
  pub fn : ℕ
  pub status : CoStatus

-- What malloc's memory holds before is `fresh`; its list entry is on no list.
unfoldable pub co_new : ℕ → ℕ → (ℕ → ℕ) → Coroutine
co_new fn args fresh = record {
  sched = 0;
  stack = fresh;
  block = 0;
  stack_size = 0;
  fn_data = args;
  fn = fn;
  status = co_runnable;
}
