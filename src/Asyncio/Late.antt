-- ===== src/Asyncio/Late.antt =====
-- A connection that is not there at once: tcp_connect settles it, and asyncio_open_connection goes on.
use treasure_house.Base.{
  ℕ, ◌≡◌, refl, true, false, Option, none, some, List, [], ◌∷◌, if◌then◌else◌,
}
use treasure_house.Base.Run.{Run, ok, Ends, ends, Ends-weaken}
use treasure_house.Lists.{has, remove}
use treasure_house.Lists.Remove.{has-remove}
use treasure_house.Future.{is_finished, Future, Memory, call_back, future_await}
use treasure_house.Future.Await.{await_result-some, future_await-pending}
use treasure_house.Asyncio.{Io, call, allocates}
use treasure_house.Asyncio.Futures.{SetsErrno}
use treasure_house.Asyncio.Connect.{
  ConnectArgs, Answer, Answers, Connection, connection_create, open_finish, run_reader,
}
use treasure_house.Asyncio.Resources.{fds_of, readers_of, blocks_of, call-Calls}
use treasure_house.Asyncio.Resolves.{is_connected, IsFinal, busy, run_reader-Resolved}

module _ {S : Type 0} where
  -- The connection that c_args is about, whatever the future says.
  abbrev pub IsMade : Answers → ConnectArgs → Io S → Option Connection × Io S → Type 0
  IsMade answers c_args io r =
      (r.0 ≡ some (record { block = answers.connection; fd = c_args.sockfd }))
      × (fds_of r.1 ≡ fds_of io)
      × (blocks_of r.1 ≡ answers.connection ∷ blocks_of io)

  open_finish-IsMade :
      (future_get_result : Future S → ℕ) (answers : Answers) (c_args : ConnectArgs) (x : Future S)
      (io : Io S)
      → io.memory.futures c_args.f ≡ some x
      → Ends (IsMade answers c_args io) (open_finish future_get_result answers c_args io)
  unfolding open_finish connection_create
  open_finish-IsMade future_get_result answers c_args x io there =
      let more = allocates answers.connection ∷ [] in
      let u = call-Calls more io (call more io) refl in
      rw (await_result-some future_get_result c_args.f x io.memory there)
        (ends (refl, u.fds, u.blocks))

  -- The event loop has called tcp_connect with the answer that settles it; `x` was the future.
  abbrev pub IsSettled : ConnectArgs → Answer → Future S → Io S → Io S → Type 0
  IsSettled c_args a x io q =
      (fds_of q ≡ (if is_connected a then fds_of io else remove c_args.sockfd (fds_of io)))
      × (has c_args.sockfd (readers_of q) ≡ false)
      × (blocks_of q ≡ remove c_args.block (blocks_of io))
      × (q.memory.world ≡ call_back x io.memory.world)

  -- asyncio_open_connection is at its await: the future of c_args is there and not finished, and the
  -- event loop watches the socket. future_await goes on to processors_await. However often connect
  -- then answers EINPROGRESS, the first other answer is the last: the event loop stops its watch,
  -- the callback of the future, where it has one, has run once, the socket stays open only if it is
  -- connected, and of the blocks that of c_args alone is freed. Whichever it was,
  -- asyncio_open_connection then returns a connection of that socket. This is for a future_set_errno
  -- that sets errno alone.
  pub late_answer_is_dropped :
      {set_errno : ℕ → ℕ → Memory S → Run (Memory S)} (law : SetsErrno set_errno)
      (future_get_result : Future S → ℕ) (einprogress : ℕ) (answers : Answers)
      (c_args : ConnectArgs) (n : ℕ) (a : Answer) (more : List Answer) (x : Future S) (io : Io S)
      → IsFinal einprogress a
      → io.memory.futures c_args.f ≡ some x
      → is_finished x.status ≡ false
      → has c_args.sockfd (readers_of io) ≡ true
      → (future_await future_get_result c_args.f io.memory ≡ ok none)
        × Ends
            (λ q.
              IsSettled c_args a x io q
              × Ends (IsMade answers c_args q) (open_finish future_get_result answers c_args q))
            (run_reader set_errno einprogress c_args (busy einprogress n (a ∷ more)) io)
  late_answer_is_dropped law future_get_result einprogress answers c_args n a more x io final there
        open_yet watched =
      (
        future_await-pending future_get_result c_args.f x io.memory there open_yet,
        Ends-weaken (run_reader-Resolved law einprogress c_args n a more x io final there watched)
            (λ q v. (
              (v.fds, rw v.readers (has-remove c_args.sockfd (readers_of io)), v.blocks, v.world),
              open_finish-IsMade future_get_result answers c_args _ q v.future,
            )),
      )
