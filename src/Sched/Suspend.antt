-- ===== src/Sched/Suspend.antt =====
-- The calls by which a coroutine gives up its processor: processors_suspend of processor.c,
-- coroutine_yield of coroutine.c and asyncio_sleep of asyncio.c. The scheduler is what
-- processors_get_sched answers on the thread, `none` for NULL; to use that is a fault.
use treasure_house.Base.{ℕ, ◌≡◌, refl, Option, none, some}
use treasure_house.Base.Run.{Run, fault}
use treasure_house.Lists.{ListLib}
use treasure_house.Timer.{CoTimer, Timespec}
use treasure_house.Sched.{Board, Sched, sched_delay, sched_yield_coroutine}

-- suspend_type_t
pub data SuspendType : Type 0 where
  suspend_sleep suspend_yield suspend_invalid : SuspendType

module _ {L : ListLib} {A : Type 0} where
  abbrev on_sched : (Sched L A → Run (Sched L A)) → Option (Sched L A) → Run (Sched L A)
  on_sched call none = fault
  on_sched call (some s) = call s

  -- For a sleep `args` is the delay, which starts at `now`.
  unfoldable pub processors_suspend :
      Timespec
      → (CoTimer (Board L) → A)
      → SuspendType
      → ℕ
      → ℕ
      → Option (Sched L A)
      → Run (Sched L A)
  processors_suspend now pointer suspend_sleep args depth sched =
      on_sched (sched_delay now pointer args depth) sched
  processors_suspend now pointer suspend_yield args depth sched =
      on_sched (sched_yield_coroutine depth) sched
  processors_suspend now pointer suspend_invalid args depth sched = fault

  -- It passes NULL for the argument, and returns 0.
  unfoldable pub coroutine_yield :
      Timespec → (CoTimer (Board L) → A) → ℕ → Option (Sched L A) → Run (Sched L A)
  unfolding processors_suspend
  coroutine_yield now pointer depth sched =
      processors_suspend now pointer suspend_yield 0 depth sched

  unfoldable pub asyncio_sleep :
      Timespec → (CoTimer (Board L) → A) → ℕ → ℕ → Option (Sched L A) → Run (Sched L A)
  asyncio_sleep now pointer delay_ms depth sched =
      on_sched (sched_delay now pointer delay_ms depth) sched

  -- Outside the threads of the processors each kind is a fault.
  processors_suspend-fault :
      (now : Timespec) (pointer : CoTimer (Board L) → A) (kind : SuspendType) (args depth : ℕ)
      → processors_suspend now pointer kind args depth none ≡ fault
  unfolding processors_suspend
  processors_suspend-fault now pointer suspend_sleep args depth = refl
  processors_suspend-fault now pointer suspend_yield args depth = refl
  processors_suspend-fault now pointer suspend_invalid args depth = refl

  -- The two ways to sleep are the same, and to yield is what the scheduler does.
  asyncio_sleep-processors_suspend :
      (now : Timespec) (pointer : CoTimer (Board L) → A) (delay_ms depth : ℕ)
      (sched : Option (Sched L A))
      → asyncio_sleep now pointer delay_ms depth sched
        ≡ processors_suspend now pointer suspend_sleep delay_ms depth sched
  unfolding asyncio_sleep processors_suspend
  asyncio_sleep-processors_suspend now pointer delay_ms depth sched = refl

  coroutine_yield-sched_yield_coroutine :
      (now : Timespec) (pointer : CoTimer (Board L) → A) (depth : ℕ) (s : Sched L A)
      → coroutine_yield now pointer depth (some s) ≡ sched_yield_coroutine depth s
  unfolding coroutine_yield
  coroutine_yield-sched_yield_coroutine now pointer depth s = refl
