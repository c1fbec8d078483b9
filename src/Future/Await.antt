-- ===== src/Future/Await.antt =====
-- Futures and the scheduler: who awaits a result is resumed, and gets it.
use treasure_house.Base.{ℕ, ◌||◌, ◌≡◌, refl, ap, true, false, none, some, [], ◌∷◌, ◌++◌}
use treasure_house.Base.Memory.{update, update-same}
use treasure_house.Base.Run.{Run, ok, fault, Ends, ends, ◌>>=◌}
use treasure_house.Lists.{ListLib, has, remove}
use treasure_house.Sched.{Board, sched_co_resume}
use treasure_house.Sched.Queues.{ready, waiting, ready-resumed}
use treasure_house.Future.{
  Future, Memory, pending, finished, is_finished, with_future, future_create, future_destory,
  future_add_done_callback, future_set_result, call_back, await_suspends, await_result,
  future_await,
}

module _ {S : Type 0} where
  pub with_future-some :
      {A : Type 0} (f : ℕ) (use_it : Future S → Run A) (m : Memory S) (x : Future S)
      → m.futures f ≡ some x
      → with_future f use_it m ≡ use_it x
  with_future-some f use_it m x e = ap (λ found. elim found [ none ↦ fault | some y ↦ use_it y ]) e

  pub future_set_result-some :
      (f result : ℕ) (x : Future S) (m : Memory S)
      → m.futures f ≡ some x
      → future_set_result f result m
        ≡ ok (record {
          futures = update m.futures f (some (record x { result = result; status = finished }));
          world = call_back x m.world;
        })
  unfolding future_set_result
  future_set_result-some f result x m there = with_future-some f _ m x there

  pub future_add_done_callback-some :
      (f args : ℕ) (cb : ℕ → S → S) (x : Future S) (m : Memory S)
      → m.futures f ≡ some x
      → future_add_done_callback f cb args m
        ≡ ok (record m {
          futures =
              update m.futures f (some (record x { done_callback = some cb; done_args = args }));
        })
  unfolding future_add_done_callback
  future_add_done_callback-some f args cb x m there = with_future-some f _ m x there

  await_suspends-freed : (f : ℕ) (m : Memory S) → await_suspends f (future_destory f m) ≡ fault
  unfolding await_suspends future_destory
  await_suspends-freed f m =
      ap
        (λ found. elim found [
          | none ↦ fault
          | some x ↦ ok (elim (is_finished x.status) [ true ↦ false | false ↦ true ])
        ])
        (update-same m.futures f none)

  future_await-freed :
      (future_get_result : Future S → ℕ) (f : ℕ) (m : Memory S)
      → future_await future_get_result f (future_destory f m) ≡ fault
  unfolding future_await
  future_await-freed future_get_result f m = rw (await_suspends-freed f m) refl

  pub await_result-some :
      (future_get_result : Future S → ℕ) (f : ℕ) (x : Future S) (m : Memory S)
      → m.futures f ≡ some x
      → await_result future_get_result f m ≡ ok (future_get_result x, future_destory f m)
  unfolding await_result
  await_result-some future_get_result f x m there = with_future-some f _ m x there

  pub future_await-finished :
      (future_get_result : Future S → ℕ) (f : ℕ) (x : Future S) (m : Memory S)
      → m.futures f ≡ some x
      → is_finished x.status ≡ true
      → future_await future_get_result f m ≡ ok (some (future_get_result x, future_destory f m))
  unfolding future_await await_suspends
  future_await-finished future_get_result f x m there done =
      rw
        (
          with_future-some f (λ y. ok (elim (is_finished y.status) [ true ↦ false | false ↦ true ]))
              m x there,
          done,
          await_result-some future_get_result f x m there,
        )
        refl

  pub future_await-pending :
      (future_get_result : Future S → ℕ) (f : ℕ) (x : Future S) (m : Memory S)
      → m.futures f ≡ some x
      → is_finished x.status ≡ false
      → future_await future_get_result f m ≡ ok none
  unfolding future_await await_suspends
  future_await-pending future_get_result f x m there open_yet =
      rw
        (
          with_future-some f (λ y. ok (elim (is_finished y.status) [ true ↦ false | false ↦ true ]))
              m x there,
          open_yet,
        )
        refl

  -- A result that is there before the await is returned at once, and the future is freed, so that it
  -- cannot be awaited again. A callback that was added after the result is not called.
  pub set_then_await :
      (future_get_result : Future S → ℕ) (f result args : ℕ) (cb : ℕ → S → S) (x : Future S)
      (m : Memory S)
      → ((y : Future S) → future_get_result y ≡ y.result)
      → m.futures f ≡ some x
      → Ends
          (λ late.
            Ends
              (λ r.
                (v : ℕ × Memory S) × (r ≡ some v)
                × (v.0 ≡ result)
                × (v.1.world ≡ call_back x m.world)
                × (await_suspends f v.1 ≡ fault))
              (future_await future_get_result f late))
          (future_set_result f result m >>= future_add_done_callback f cb args)
  unfolding future_destory
  set_then_await future_get_result f result args cb x m gets there =
      let done = record x { result = result; status = finished } in
      let m1 : Memory S = record {
        futures = update m.futures f (some done);
        world = call_back x m.world;
      } in
      let here1 = update-same m.futures f (some done) in
      let late = record done { done_callback = some cb; done_args = args } in
      let m2 : Memory S = record m1 { futures = update m1.futures f (some late) } in
      rw
        (
          future_set_result-some f result x m there,
          future_add_done_callback-some f args cb done m1 here1,
        )
        (ends (
          rw
            (future_await-finished future_get_result f late m2
              (update-same m1.futures f (some late)) refl)
            (ends (
              (future_get_result late, future_destory f m2),
              refl,
              gets late,
              refl,
              await_suspends-freed f m2,
            ))))

module _ {L : ListLib} where
  -- A new future, with sched_co_resume for its callback: future_await goes on to processors_await.
  -- Whatever the scheduler's board is when the result is set, as long as the coroutine stands on one
  -- of its queues, the coroutine is then the last of the ready ones, once. What future_await does
  -- behind processors_await hands over what future_get_result makes of the finished future, which
  -- holds the result, leaves the ready coroutines alone and frees the future: to await it again is a
  -- fault. future_get_result is any function, and the memory `m` is any.
  pub await_round_trip :
      (future_get_result : Future (Board L) → ℕ) (f co result : ℕ) (m : Memory (Board L))
      (b : Board L)
      → (has co (ready b) || has co (waiting b)) ≡ true
      → Ends
          (λ m1.
            (future_await future_get_result f m1 ≡ ok none)
            × Ends
                (λ m2.
                  (ready m2.world ≡ remove co (ready b) ++ co ∷ [])
                  × Ends
                      (λ r.
                        ((x : Future (Board L)) × (m2.futures f ≡ some x)
                          × (x.result ≡ result)
                          × (is_finished x.status ≡ true)
                          × (r.0 ≡ future_get_result x))
                        × (ready r.1.world ≡ ready m2.world)
                        × (future_await future_get_result f r.1 ≡ fault))
                      (await_result future_get_result f m2))
                (future_set_result f result (record m1 { world = b })))
          (future_add_done_callback f sched_co_resume co (future_create f m))
  unfolding future_create future_destory call_back
  await_round_trip future_get_result f co result m b queued =
      let made : Future (Board L) = record {
        errno = 0;
        status = pending;
        result = 0;
        done_callback = none;
        done_args = 0;
      } in
      let m0 : Memory (Board L) = record m { futures = update m.futures f (some made) } in
      let waits = record made { done_callback = some sched_co_resume; done_args = co } in
      let m1 : Memory (Board L) = record m0 { futures = update m0.futures f (some waits) } in
      let here1 = update-same m0.futures f (some waits) in
      let done = record waits { result = result; status = finished } in
      let m2 : Memory (Board L) = record {
        futures = update m1.futures f (some done);
        world = call_back waits b;
      } in
      rw
        (future_add_done_callback-some f co sched_co_resume made m0
          (update-same m.futures f (some made)))
        (ends (
          future_await-pending future_get_result f waits m1 here1 refl,
          rw (future_set_result-some f result waits (record m1 { world = b }) here1) (
              ends (
                ready-resumed co b,
                rw
                    (await_result-some future_get_result f done m2
                      (update-same m1.futures f (some done)))
                    (ends (
                      (done, update-same m1.futures f (some done), refl, refl, refl),
                      refl,
                      future_await-freed future_get_result f m2,
                    )),
              )),
        ))
