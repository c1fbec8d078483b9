-- ===== src/Asyncio/Futures.antt =====
-- set_future: what is asked of future_set_errno, and what the future then holds.
use treasure_house.Base.{ℕ, ◌≡◌, refl, some}
use treasure_house.Base.Memory.{update, update-same}
use treasure_house.Base.Run.{Run, ok, Ends, ends}
use treasure_house.Future.{Future, Memory, finished, call_back, with_future}
use treasure_house.Future.Await.{future_set_result-some, with_future-some}
use treasure_house.Asyncio.{Io, set_future}

module _ {S : Type 0} where
  -- It sets the field errno and does nothing else.
  pub record SetsErrno (set_errno : ℕ → ℕ → Memory S → Run (Memory S)) : Type 0 where
    pub sets :
        (f errno : ℕ) (x : Future S) (m : Memory S)
        → m.futures f ≡ some x
        → set_errno f errno m
          ≡ ok (record m { futures = update m.futures f (some (record x { errno = errno })) })

  -- The future is finished, its callback was called, and no other future changed.
  pub record Concluded (f result errno : ℕ) (x : Future S) (io q : Io S) : Type 0 where
    pub future :
        q.memory.futures f ≡ some (record x { result = result; status = finished; errno = errno })
    pub world : q.memory.world ≡ call_back x io.memory.world
    pub calls : q.calls ≡ io.calls

  pub set_future-Concluded :
      {set_errno : ℕ → ℕ → Memory S → Run (Memory S)} (f result errno : ℕ) (x : Future S)
      (io : Io S)
      → SetsErrno set_errno
      → io.memory.futures f ≡ some x
      → Ends (Concluded f result errno x io) (set_future set_errno f result errno io)
  unfolding set_future
  set_future-Concluded f result errno x io law there =
      let done : Future S = record x { result = result; status = finished } in
      let m : Memory S = record {
        futures = update io.memory.futures f (some done);
        world = call_back x io.memory.world;
      } in
      rw
        (
          future_set_result-some f result x io.memory there,
          law.sets f errno done m (update-same io.memory.futures f (some done)),
        )
        (ends (record {
          future = update-same m.futures f (some (record done { errno = errno }));
          world = refl;
          calls = refl;
        }))

-- The field is set where the future is.
abbrev pub set_field : {S : Type 0} → ℕ → ℕ → Memory S → Run (Memory S)
set_field f errno m =
    with_future f
      (λ x. ok (record m { futures = update m.futures f (some (record x { errno = errno })) })) m

pub set_field-SetsErrno : {S : Type 0} → SetsErrno {S = S} set_field
set_field-SetsErrno = record { sets = λ f errno x m there. with_future-some f _ m x there }
