-- ===== src/Future.antt =====
-- The futures of src/coroutine/asyncio/future.c and future.h. A future is known by its address; what
-- was freed, or never allocated, is `none`, and using it is a fault. A callback turns the state `S`
-- of its world into another. future_await has two parts, between which the coroutine is suspended
-- if the future is pending.
pub mod Await
mod Tests
use treasure_house.Base.{ℕ, Bool, true, false, Option, none, some}
use treasure_house.Base.Int.{ℤ, negsuc}
use treasure_house.Base.Memory.{update}
use treasure_house.Base.Run.{Run, ok, fault, ◌>>=◌}

-- future_status_e
pub data FutureStatus : Type 0 where
  pending cancelled finished : FutureStatus

abbrev pub is_finished : FutureStatus → Bool
is_finished finished = true
is_finished _ = false

-- _future_t; `none` is a callback that is NULL, and 0 a result that is.
pub record Future (S : Type 0) : Type 0 where
  pub errno : ℕ
  pub status : FutureStatus
  pub result : ℕ
  pub done_callback : Option (ℕ → S → S)
  pub done_args : ℕ

-- The futures in memory, and the world of their callbacks.
pub record Memory (S : Type 0) : Type 0 where
  pub futures : ℕ → Option (Future S)
  pub world : S

-- The answer is -1, whatever the future.
unfoldable pub future_done : ℕ → ℤ
future_done f = negsuc 0

module _ {S : Type 0} where
  abbrev pub with_future : {A : Type 0} → ℕ → (Future S → Run A) → Memory S → Run A
  with_future f use_it m = elim (m.futures f) [ none ↦ fault | some x ↦ use_it x ]

  -- The block that malloc gives is at `f`.
  unfoldable pub future_create : ℕ → Memory S → Memory S
  future_create f m = record m {
    futures = update m.futures f (
        some (record {
          errno = 0;
          status = pending;
          result = 0;
          done_callback = none;
          done_args = 0;
        }));
  }

  unfoldable pub future_destory : ℕ → Memory S → Memory S
  future_destory f m = record m { futures = update m.futures f none }

  unfoldable pub future_add_done_callback : ℕ → (ℕ → S → S) → ℕ → Memory S → Run (Memory S)
  future_add_done_callback f cb args m =
      with_future f
        (λ x. ok (record m {
          futures =
              update m.futures f (some (record x { done_callback = some cb; done_args = args }));
        }))
        m

  unfoldable pub call_back : Future S → S → S
  call_back x s = elim x.done_callback [ none ↦ s | some cb ↦ cb x.done_args s ]

  unfoldable pub future_set_result : ℕ → ℕ → Memory S → Run (Memory S)
  future_set_result f result m =
      with_future f
        (λ x. ok (record {
          futures = update m.futures f (some (record x { result = result; status = finished }));
          world = call_back x m.world;
        }))
        m

  -- The first part of future_await: does it call processors_await?
  unfoldable pub await_suspends : ℕ → Memory S → Run Bool
  await_suspends f m =
      with_future f (λ x. ok (elim (is_finished x.status) [ true ↦ false | false ↦ true ])) m

  -- The second part: the result, with the future freed. `future_get_result` is declared in future.h
  -- and defined nowhere.
  unfoldable pub await_result : (Future S → ℕ) → ℕ → Memory S → Run (ℕ × Memory S)
  await_result future_get_result f m =
      with_future f (λ x. ok (future_get_result x, future_destory f m)) m

  -- future_await up to processors_await, `none` where it calls that, and to its end where not. What
  -- follows the call is await_result.
  unfoldable pub future_await : (Future S → ℕ) → ℕ → Memory S → Run (Option (ℕ × Memory S))
  future_await future_get_result f m = await_suspends f m >>= λ suspends. elim suspends [
    | true ↦ ok none
    | false ↦ (await_result future_get_result f m >>= λ r. ok (some r))
  ]
