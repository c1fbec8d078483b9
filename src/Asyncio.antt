-- ===== src/Asyncio.antt =====
-- src/coroutine/asyncio: streams.c with the first lines of streams.h, and server.c. The files name
-- functions that are defined nowhere and do not compile as they stand; a name that was mistyped is
-- read as the one it stands for (server and srv as svr, fd as sockfd, create_connection). What the
-- system and those functions are asked for is a list of calls, and what they answer is an argument.
-- future_set_errno is a parameter, and so is what the call of future_add_done_callback does that
-- leaves out the future. An error is a number above 0, EINTR never comes with data, and
-- event_loop_remove_reader and close leave errno alone.
pub mod Server
pub mod Reading
pub mod Connect
pub mod Resources
pub mod Resolves
pub mod Opens
pub mod Late
pub mod Futures
mod Tests
use treasure_house.Base.{
  ℕ, ◌-◌, ◌^◌, Bool, true, false, not, ◌&&◌, ◌||◌, ◌==◌, ltb, Option, none, some, List, [], ◌∷◌,
  ◌++◌, if◌then◌else◌,
}
use treasure_house.Base.Run.{Run, ok, ◌>>=◌}
use treasure_house.Lists.{remove}
use treasure_house.Future.{Memory, future_set_result}

-- The calls that open and close descriptors and blocks, or begin and end the event loop's watch on a
-- descriptor, and those of functions that are defined nowhere.
pub data Call : Type 0 where
  opens closes sets_nonblock binds listens connects adds_reader removes_reader : ℕ → Call
  allocates frees : ℕ → Call
  buffer_add_data : ℕ → Call
  server_add_connection processors_remove_server : ℕ → Call

-- What a list of calls leaves open.
abbrev pub open_after : Call → List ℕ → List ℕ
open_after (opens fd) fds = fd ∷ fds
open_after (closes fd) fds = remove fd fds
open_after _ fds = fds

abbrev pub blocks_after : Call → List ℕ → List ℕ
blocks_after (allocates p) ps = p ∷ ps
blocks_after (frees p) ps = remove p ps
blocks_after _ ps = ps

abbrev pub readers_after : Call → List ℕ → List ℕ
readers_after (adds_reader fd) fds = fd ∷ fds
readers_after (removes_reader fd) fds = remove fd fds
readers_after _ fds = fds

-- After all calls, the first one first.
abbrev pub after_calls : (Call → List ℕ → List ℕ) → List Call → List ℕ → List ℕ
after_calls step [] was = was
after_calls step (c ∷ more) was = after_calls step more (step c was)

-- The calls so far, and the futures.
pub record Io (S : Type 0) : Type 0 where
  pub calls : List Call
  pub memory : Memory S

module _ {S : Type 0} where
  abbrev pub call : List Call → Io S → Io S
  call more io = record io { calls = io.calls ++ more }

  -- set_future; `set_errno` is future_set_errno.
  unfoldable pub set_future : (ℕ → ℕ → Memory S → Run (Memory S)) → ℕ → ℕ → ℕ → Io S → Run (Io S)
  set_future set_errno f result errno io = do
    m ← future_set_result f result io.memory
    n ← set_errno f errno m
    ok (record io { memory = n })
