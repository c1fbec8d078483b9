-- ===== src/Asyncio/Connect.antt =====
-- asyncio_open_connection of streams.c, with the callback tcp_connect of the event loop.
use treasure_house.Base.{
  ℕ, ◌-◌, ◌^◌, Bool, not, ◌==◌, Option, none, some, List, [], ◌∷◌, if◌then◌else◌,
}
use treasure_house.Base.Run.{Run, ok, ◌>>=◌}
use treasure_house.Lists.{has}
use treasure_house.Future.{Future, Memory, future_create, await_result}
use treasure_house.Asyncio.{
  opens, closes, sets_nonblock, connects, adds_reader, removes_reader, allocates, frees, Io, call,
  set_future, readers_after, after_calls,
}

-- What connect answers: nothing is wrong, or an error.
pub data Answer : Type 0 where
  connected : Answer
  failed : ℕ → Answer

-- (void *)-1
abbrev pub minus_one : ℕ
minus_one = 2 ^ 64 - 1

-- struct connect_args, with its own address; the address to connect to is of no account.
pub record ConnectArgs : Type 0 where
  pub block : ℕ
  pub f : ℕ
  pub sockfd : ℕ

-- struct connection: only fd is set.
pub record Connection : Type 0 where
  pub block : ℕ
  pub fd : ℕ

-- What is answered to asyncio_open_connection: whether inet_pton does well, a descriptor by socket
-- or none, the first answer of connect, and the blocks for the connection, the future, c_args and
-- the address in it.
pub record Answers : Type 0 where
  pub inet_pton : Bool
  pub socket : Option ℕ
  pub connect : Answer
  pub connection : ℕ
  pub future : ℕ
  pub args : ℕ
  pub addr : ℕ

module _ {S : Type 0} where
  unfoldable pub connection_create : ℕ → ℕ → Io S → Connection × Io S
  connection_create block fd io =
      (record { block = block; fd = fd }, call (allocates block ∷ []) io)

-- Where asyncio_open_connection stands: it has returned, NULL where there is no connection, or it
-- waits at its await.
pub data Stage : Type 0 where
  returned : Option Connection → Stage
  waits : ConnectArgs → Stage

module _ {S : Type 0} (set_errno : ℕ → ℕ → Memory S → Run (Memory S)) (einprogress : ℕ) where
  unfoldable pub tcp_connect : ConnectArgs → Answer → Io S → Run (Io S)
  tcp_connect c_args connected io = do
    done ← set_future set_errno c_args.f c_args.sockfd 0 (call (connects c_args.sockfd ∷ []) io)
    ok (call (removes_reader c_args.sockfd ∷ frees c_args.block ∷ []) done)
  tcp_connect c_args (failed errno) io =
      let asked = call (connects c_args.sockfd ∷ []) io in
      let given_up = do
        done ←
            set_future set_errno c_args.f minus_one errno
              (call (removes_reader c_args.sockfd ∷ closes c_args.sockfd ∷ []) asked)
        ok (call (frees c_args.block ∷ []) done)
      in if not (errno == einprogress) then given_up else ok asked

  -- The event loop calls tcp_connect with each answer, as long as it watches the descriptor.
  unfoldable pub run_reader : ConnectArgs → List Answer → Io S → Run (Io S)
  unfolding tcp_connect
  run_reader c_args [] io = ok io
  run_reader c_args (answer ∷ more) io =
      let step = tcp_connect c_args answer io >>= run_reader c_args more in
      if has c_args.sockfd (after_calls readers_after io.calls []) then step else ok io

-- The call of future_add_done_callback in processors_create_co_future leaves the future out, so what
-- it does, given the coroutine, is an argument.
module _ {S : Type 0} (add_done_callback : ℕ → Memory S → Run (Memory S)) where
  -- For the coroutine `co`, with the future at `f`.
  unfoldable pub processors_create_co_future : ℕ → ℕ → Memory S → Run (Memory S)
  processors_create_co_future f co m = add_done_callback co (future_create f m)

  unfoldable pub async_tcp_connect : Answers → ℕ → ℕ → Io S → Run (ConnectArgs × Io S)
  unfolding processors_create_co_future
  async_tcp_connect answers co sockfd io = do
    m ← processors_create_co_future answers.future co io.memory
    ok (
      record { block = answers.args; f = answers.future; sockfd = sockfd },
      call (allocates answers.args ∷ allocates answers.addr ∷ adds_reader sockfd ∷ [])
          (record io { memory = m }),
    )

module _ {S : Type 0} (add_done_callback : ℕ → Memory S → Run (Memory S)) (einprogress : ℕ) where
  -- After the first connect, up to the await.
  unfoldable pub after_connect : Answers → ℕ → ℕ → Answer → Io S → Run (Stage × Io S)
  unfolding connection_create async_tcp_connect
  after_connect answers co sockfd connected io =
      let (c, made) = connection_create answers.connection sockfd io in ok (returned (some c), made)
  after_connect answers co sockfd (failed errno) io =
      let later = async_tcp_connect add_done_callback answers co sockfd io >>= λ (c_args, asked).
      ok (waits c_args, asked) in
      if not (errno == einprogress) then ok (returned none, call (closes sockfd ∷ []) io) else later

  unfoldable pub asyncio_open_connection : Answers → ℕ → Io S → Run (Stage × Io S)
  unfolding after_connect
  asyncio_open_connection answers co io =
      if not answers.inet_pton then ok (returned none, io) else elim answers.socket [
        | none ↦ ok (returned none, io)
        | some sockfd ↦
            after_connect answers co sockfd answers.connect
              (call (opens sockfd ∷ sets_nonblock sockfd ∷ connects sockfd ∷ []) io)
      ]

module _ {S : Type 0} where
  -- From the await on: what future_await returns is dropped.
  unfoldable pub open_finish :
      (Future S → ℕ) → Answers → ConnectArgs → Io S → Run (Option Connection × Io S)
  unfolding connection_create
  open_finish future_get_result answers c_args io = do
    (result, m) ← await_result future_get_result c_args.f io.memory
    let (c, made) = connection_create answers.connection c_args.sockfd (record io { memory = m })
    ok (some c, made)
