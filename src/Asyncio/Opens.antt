-- ===== src/Asyncio/Opens.antt =====
-- asyncio_open_connection from its call to its end.
use mathlib.Core.Path.{subst}
use treasure_house.Base.{
  ℕ, ◌≡◌, refl, sym, ◌∙◌, false, not, ◌==◌, Option, none, some, [], ◌∷◌, arith, Bool-cases, inl,
  inr, ◌⊎◌,
}
use treasure_house.Base.Run.{ok, Ends, ends, Ends-bind, Ends-test}
use treasure_house.Lists.{has}
use treasure_house.Lists.Counts.{remove-first}
use treasure_house.Future.{Memory, future_create}
use treasure_house.Asyncio.{
  Run, Io, call, opens, closes, sets_nonblock, connects, adds_reader, allocates,
}
use treasure_house.Asyncio.Connect.{
  Answer, connected, failed, Answers, ConnectArgs, Stage, returned, waits, connection_create,
  async_tcp_connect, processors_create_co_future, after_connect, asyncio_open_connection,
}
use treasure_house.Asyncio.Resources.{fds_of, readers_of, blocks_of, Calls, Calls-then, call-Calls}

abbrev pub args_of : Answers → ℕ → ConnectArgs
args_of answers fd = record { block = answers.args; f = answers.future; sockfd = fd }

module _ {S : Type 0} where
  -- The connection of `fd` is waited for.
  pub record Waits (answers : Answers) (fd : ℕ) (io q : Io S) : Type 0 where
    pub fds : fds_of q ≡ fd ∷ fds_of io
    pub readers : readers_of q ≡ fd ∷ readers_of io
    pub blocks : blocks_of q ≡ answers.addr ∷ answers.args ∷ blocks_of io

  -- How asyncio_open_connection returns, or waits: it keeps no descriptor without a connection.
  abbrev pub IsOpen : ℕ → Answers → Io S → Stage × Io S → Type 0
  IsOpen einprogress answers io (returned none, q) =
      (fds_of q ≡ fds_of io)
      × ((answers.inet_pton ≡ false)
          ⊎ (answers.socket ≡ none)
          ⊎ ((errno : ℕ) × (answers.connect ≡ failed errno) × ((errno == einprogress) ≡ false)))
  IsOpen einprogress answers io (returned (some c), q) =
      (fds_of q ≡ c.fd ∷ fds_of io) × (answers.socket ≡ some c.fd) × (answers.connect ≡ connected)
  IsOpen einprogress answers io (waits c_args, q) =
      (c_args ≡ args_of answers c_args.sockfd)
      × (answers.socket ≡ some c_args.sockfd)
      × Waits answers c_args.sockfd io q

  abbrev pub begun : ℕ → Io S → Io S
  begun fd io = call (opens fd ∷ sets_nonblock fd ∷ connects fd ∷ []) io

  begun-Calls :
      (fd : ℕ) (io : Io S) → Calls (opens fd ∷ sets_nonblock fd ∷ connects fd ∷ []) io (begun fd io)
  begun-Calls fd io =
      call-Calls (opens fd ∷ sets_nonblock fd ∷ connects fd ∷ []) io (begun fd io) refl

  -- The call in processors_create_co_future that leaves the future out comes back.
  abbrev pub ComesBack : (ℕ → Memory S → Run (Memory S)) → Type 0
  ComesBack add_done_callback =
      (co : ℕ) (m : Memory S) → Ends (λ _. Unit {0}) (add_done_callback co m)

  async_tcp_connect-Waits :
      (add_done_callback : ℕ → Memory S → Run (Memory S)) (answers : Answers) (co fd : ℕ)
      (io : Io S)
      → ComesBack add_done_callback
      → Ends
          (λ r. (r.0 ≡ args_of answers fd) × Waits answers fd io r.1)
          (async_tcp_connect add_done_callback answers co fd (begun fd io))
  unfolding async_tcp_connect processors_create_co_future
  async_tcp_connect-Waits add_done_callback answers co fd io back =
      let more = allocates answers.args ∷ allocates answers.addr ∷ adds_reader fd ∷ [] in
      Ends-bind (back co (future_create answers.future io.memory)) (λ m _.
        let q : Io S = call more (record (begun fd io) { memory = m }) in
        let u =
          Calls-then (opens fd ∷ sets_nonblock fd ∷ connects fd ∷ []) more io (begun fd io) q
            (begun-Calls fd io) (call-Calls more (begun fd io) q refl) in
        ends (refl, record { fds = u.fds; readers = u.readers; blocks = u.blocks }))

  module _ (add_done_callback : ℕ → Memory S → Run (Memory S)) (einprogress : ℕ) (answers : Answers)
      (co : ℕ) (io : Io S) (back : ComesBack add_done_callback) where
    after_connect-IsOpen :
        (fd : ℕ) (answer : Answer)
        → answers.socket ≡ some fd
        → answers.connect ≡ answer
        → has fd (fds_of io) ≡ false
        → Ends
            (IsOpen einprogress answers io)
            (after_connect add_done_callback einprogress answers co fd answer (begun fd io))
    unfolding after_connect connection_create
    after_connect-IsOpen fd connected e_fd e_answer new =
        let more = allocates answers.connection ∷ [] in
        let u =
          Calls-then (opens fd ∷ sets_nonblock fd ∷ connects fd ∷ []) more io (begun fd io)
            (call more (begun fd io)) (begun-Calls fd io)
            (call-Calls more (begun fd io) (call more (begun fd io)) refl) in
        ends (u.fds, e_fd, e_answer)
    after_connect-IsOpen fd (failed errno) e_fd e_answer new =
        elim (Bool-cases (errno == einprogress)) [
          | inr other ↦
              let more = closes fd ∷ [] in
              let u =
                Calls-then (opens fd ∷ sets_nonblock fd ∷ connects fd ∷ []) more io (begun fd io)
                  (call more (begun fd io)) (begun-Calls fd io)
                  (call-Calls more (begun fd io) (call more (begun fd io)) refl) in
              rw other
                (ends (u.fds ∙ remove-first fd (fds_of io) new, inr (inr (errno, e_answer, other))))
          | inl later ↦ rw later (
              Ends-bind (async_tcp_connect-Waits add_done_callback answers co fd io back)
                (λ (c_args, q) (e, v). ends (
                  subst (λ c. IsOpen einprogress answers io (waits c, q)) (sym e) (refl, e_fd, v))))
        ]

    from_socket :
        (socket : Option ℕ)
        → answers.socket ≡ socket
        → ((fd : ℕ) → socket ≡ some fd → has fd (fds_of io) ≡ false)
        → Ends (IsOpen einprogress answers io) (elim socket [
          | none ↦ ok (returned none, io)
          | some fd ↦
              after_connect add_done_callback einprogress answers co fd answers.connect
                (begun fd io)
        ])
    from_socket none e new = ends (refl, inr (inl e))
    from_socket (some fd) e new = after_connect-IsOpen fd answers.connect e refl (new fd refl)

    -- Where socket gives a descriptor that was not open, and the call that leaves the future out in
    -- processors_create_co_future comes back, asyncio_open_connection ends, or goes on to its await. It
    -- returns NULL only where inet_pton fails, there is no socket, or connect fails otherwise than
    -- with EINPROGRESS, and then leaves no descriptor open that was not; it returns a connection at
    -- once only of an open socket that is connected; and it awaits with the socket open and watched,
    -- and the blocks for c_args and its address allocated.
    pub asyncio_open_connection-IsOpen :
        ((fd : ℕ) → answers.socket ≡ some fd → has fd (fds_of io) ≡ false)
        → Ends
            (IsOpen einprogress answers io)
            (asyncio_open_connection add_done_callback einprogress answers co io)
    unfolding asyncio_open_connection
    asyncio_open_connection-IsOpen new =
        Ends-test (not answers.inet_pton) (λ bad. ends (refl, inl (ground (arith, bad))))
          (λ good. from_socket answers.socket refl new)
