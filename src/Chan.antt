-- ===== src/Chan.antt =====
-- The channel of src/coroutine/runtime/chan.c. The file does not compile: the field data_cnt, which
-- is declared nowhere, is read as elem_num, and channel_open as returning the channel. A call is
-- modelled from where wait_event has let it pass; where the channel is full, or empty, it goes back
-- to wait. `closed` is read before the wait; channel_close, which would set it, is defined nowhere.
-- wake_up, which is taken to return, is a parameter, on a world `W`. Memory is taken to be had.
--
-- The coroutines are those of one processor: they take turns only where one of them waits, which is
-- before this part, so that the part is one step. That is not owed to co_spin_lock, which locks
-- nothing; calls on two processors can meet in this part, and are not modelled.
pub mod Delivered
pub mod Kept
mod Tests
use treasure_house.Base.{
  ℕ, ◌+◌, ◌-◌, ◌*◌, ◌%◌, ◌^◌, Bool, true, false, not, ◌&&◌, ◌==◌, ltb, leb, if◌then◌else◌,
}
use treasure_house.Base.Run.{Run, ok, fault, ◌>>=◌}

-- struct chan; `block` is the size of the block at data_buf.
pub record Chan (W : Type 0) : Type 0 where
  pub data_buf : ℕ → ℕ
  pub block : ℕ
  pub data_cap : ℕ
  pub elem_num : ℕ
  pub elem_size : ℕ
  pub send_idx : ℕ
  pub recv_idx : ℕ
  pub closed : ℕ
  pub world : W

-- Who waits: those who read, or those who write.
pub data Waiters : Type 0 where
  recv_waiters send_waiters : Waiters

-- How a call comes out of its critical section: -1, back to wait, or 0 with what it did.
pub data Passed {ℓ} (A : Type ℓ) : Type ℓ where
  is_closed : Passed A
  goes_back : Passed A
  passed : A → Passed A

module _ {W : Type 0} where
  -- `bytes` is what malloc's block happens to hold.
  unfoldable pub channel_open : ℕ → (ℕ → ℕ) → W → Chan W
  channel_open elem_size bytes world = record {
    data_buf = bytes;
    block = elem_size;
    data_cap = 1;
    elem_num = 0;
    elem_size = elem_size;
    send_idx = 0;
    recv_idx = 0;
    closed = 0;
    world = world;
  }

  -- memcpy of elem_size bytes to `at`; past the block it is a fault.
  unfoldable pub put : ℕ → (ℕ → ℕ) → Chan W → Run (Chan W)
  put at bytes c =
      if leb (at + c.elem_size) c.block
      then ok (record c {
        data_buf =
            λ j. if leb at j && ltb j (at + c.elem_size) then bytes (j - at) else c.data_buf j;
      })
      else fault

  -- memcpy of elem_size bytes from `at`; what is behind them in the reader's buffer is of no account.
  unfoldable pub get : ℕ → Chan W → Run (ℕ → ℕ)
  get at c = if leb (at + c.elem_size) c.block then ok (λ k. c.data_buf (at + k)) else fault

module _ {W : Type 0} (wake_up : Waiters → W → W) where
  unfoldable pub channel_write : (ℕ → ℕ) → Chan W → Run (Passed (Chan W))
  channel_write bytes c =
      let written = do
        filled ← put (c.elem_num * c.elem_size % 2 ^ 32) bytes c
        ok (
            passed (record filled {
              elem_num = (c.elem_num + 1) % 2 ^ 32;
              world = wake_up recv_waiters c.world;
            }))
      in if not (c.closed == 0)
        then ok is_closed
        else if leb c.data_cap c.elem_num
        then ok goes_back
        else written

  unfoldable pub channel_read : Chan W → Run (Passed ((ℕ → ℕ) × Chan W))
  channel_read c =
      let taken = do
        bytes ← get ((c.elem_num - 1) * c.elem_size % 2 ^ 32) c
        ok (
            passed
              (bytes, record c { elem_num = c.elem_num - 1; world = wake_up send_waiters c.world }))
      in if not (c.closed == 0)
        then ok is_closed
        else if c.elem_num == 0
        then ok goes_back
        else taken
