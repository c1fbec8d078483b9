-- ===== src/Asyncio/Reading.antt =====
-- read_nointerrupt and connection_read_data_nonblock of streams.c, and read_error of streams.h.
use treasure_house.Base.{
  ℕ, zero, suc, ◌≡◌, Bool, true, false, not, ◌&&◌, ◌||◌, ◌==◌, Option, none, some, List, [], ◌∷◌,
  ◌++◌, if◌then◌else◌, arith,
}
use treasure_house.Base.Int.{ℤ, pos, negsuc}
use treasure_house.Base.Run.{Run, ok, Ends, Ends-weaken}
use treasure_house.Future.{Future, Memory, finished}
use treasure_house.Asyncio.{buffer_add_data, removes_reader, Io, call, set_future}
use treasure_house.Asyncio.Server.{Errnos}
use treasure_house.Asyncio.Futures.{SetsErrno, set_future-Concluded}

-- What read returns, and what errno holds then; a call that does well leaves errno as it was.
pub record Answer : Type 0 where
  pub ret : ℤ
  pub errno : ℕ

abbrev is_negative : ℤ → Bool
is_negative (pos n) = false
is_negative (negsuc n) = true

-- The answers come in turn; `none` where there is no further answer.
unfoldable pub read_nointerrupt : Errnos → List Answer → Option Answer
read_nointerrupt e [] = none
read_nointerrupt e (a ∷ more) =
    let again = read_nointerrupt e more in
    if is_negative a.ret && a.errno == e.eintr then again else some a

abbrev is_zero : ℤ → Bool
is_zero (pos n) = n == 0
is_zero (negsuc n) = false

unfoldable pub read_error : Errnos → Answer → Bool
read_error e a = is_zero a.ret || (not (a.errno == e.eagain) && not (a.errno == e.ewouldblock))

-- The bytes, where there are any.
abbrev bytes : ℤ → Option ℕ
bytes (pos zero) = none
bytes (pos (suc n)) = some (suc n)
bytes (negsuc n) = none

module _ {S : Type 0} (set_errno : ℕ → ℕ → Memory S → Run (Memory S)) (e : Errnos) where
  -- Of the connection `fd` and rwaiter, `f`, with what read_nointerrupt returns.
  unfoldable pub connection_read_data_nonblock : ℕ → ℕ → Answer → Io S → Run (Io S)
  connection_read_data_nonblock fd f a io =
      if read_error e a
      then set_future set_errno f 0 a.errno (call (removes_reader fd ∷ []) io)
      else elim (bytes a.ret) [
        | some n ↦ set_future set_errno f 0 0 (call (buffer_add_data n ∷ removes_reader fd ∷ []) io)
        | none ↦ ok io
      ]

-- errno still holds that there was nothing to read.
abbrev pub is_stale : Errnos → ℕ → Bool
is_stale e errno = errno == e.eagain || errno == e.ewouldblock

read_error-some :
    (e : Errnos) (n errno : ℕ)
    → read_error e (record { ret = pos (suc n); errno = errno }) ≡ not (is_stale e errno)
unfolding read_error
read_error-some e n errno = ground arith

-- How data is taken, by whether errno is stale.
abbrev pub IsTaken : {S : Type 0} → Bool → ℕ → ℕ → ℕ → ℕ → Future S → Io S → Io S → Type 0
IsTaken stale fd f n errno x io q =
    (q.calls
      ≡ io.calls
        ++ (if stale then buffer_add_data n ∷ removes_reader fd ∷ [] else removes_reader fd ∷ []))
    × (q.memory.futures f
        ≡ some (record x { result = 0; status = finished; errno = if stale then 0 else errno }))

module _ {S : Type 0} {set_errno : ℕ → ℕ → Memory S → Run (Memory S)} (law : SetsErrno set_errno)
    (e : Errnos) (fd f n errno : ℕ) (x : Future S) (io : Io S)
    (there : io.memory.futures f ≡ some x) where
  by_errno :
      (stale : Bool)
      → Ends (IsTaken stale fd f (suc n) errno x io) (
          if not stale
          then set_future set_errno f 0 errno (call (removes_reader fd ∷ []) io)
          else set_future set_errno f 0 0
              (call (buffer_add_data (suc n) ∷ removes_reader fd ∷ []) io))
  by_errno true =
      Ends-weaken
        (set_future-Concluded f 0 0 x (call (buffer_add_data (suc n) ∷ removes_reader fd ∷ []) io)
          law there)
        (λ q v. (v.calls, v.future))
  by_errno false =
      Ends-weaken (set_future-Concluded f 0 errno x (call (removes_reader fd ∷ []) io) law there)
        (λ q v. (v.calls, v.future))

  -- When read returns data, it goes into the buffer only if errno still holds EAGAIN or EWOULDBLOCK.
  -- With any other errno, 0 among them, the data is dropped and errno is stored in the future. In
  -- both cases the watch ends and the future is finished. This is for a future that is there and a
  -- future_set_errno that sets errno alone.
  pub read_data-IsTaken : Ends (IsTaken (is_stale e errno) fd f (suc n) errno x io) (
      connection_read_data_nonblock set_errno e fd f
        (record { ret = pos (suc n); errno = errno })
        io)
  unfolding connection_read_data_nonblock
  read_data-IsTaken = rw (read_error-some e n errno) (by_errno (is_stale e errno))
