-- ===== src/Asyncio/Server.antt =====
-- server_create and accept_cb of server.c.
use treasure_house.Base.{
  ℕ, ◌≡◌, refl, Bool, false, not, ◌&&◌, ◌==◌, Option, none, some, List, [], ◌∷◌, if◌then◌else◌, ◌⊎◌,
  inl, inr, arith, Bool-cases,
}
use treasure_house.Base.Run.{Run, ok, ◌>>=◌}
use treasure_house.Lists.{has, remove}
use treasure_house.Lists.Counts.{remove-first}
use treasure_house.Future.{Memory}
use treasure_house.Asyncio.{
  Call, opens, closes, binds, listens, allocates, server_add_connection, processors_remove_server,
  open_after, blocks_after, after_calls, Io, call, set_future,
}

-- struct server; the fields are addresses and numbers.
pub record Server : Type 0 where
  pub fd : ℕ
  pub port : ℕ
  pub host : ℕ
  pub cli_cb : ℕ
  pub cli_args : ℕ
  pub transport : ℕ
  pub ev_loop : ℕ
  pub fd_map : ℕ

-- What is answered to server_create: a block by malloc with what it happens to hold, a descriptor
-- by socket or none, whether inet_pton, bind and listen do well, and an address by each of
-- transport_create and fd_map_create.
pub record Answers : Type 0 where
  pub block : ℕ
  pub held : Server
  pub socket : Option ℕ
  pub inet_pton : Bool
  pub bind : Bool
  pub listen : Bool
  pub transport : ℕ
  pub fd_map : ℕ

-- From the socket on.
unfoldable pub server_on : Answers → ℕ → ℕ → ℕ → List Call × Option Server
server_on answers cb args fd =
    if not answers.inet_pton
    then (closes fd ∷ [], none)
    else if not answers.bind
    then (binds fd ∷ closes fd ∷ [], none)
    else if not answers.listen
    then (binds fd ∷ listens fd ∷ closes fd ∷ [], none)
    else (
      binds fd ∷ listens fd ∷ [],
      some (record answers.held {
        transport = answers.transport;
        fd_map = answers.fd_map;
        cli_cb = cb;
        cli_args = args;
        fd = fd;
      }),
    )

-- `none` is NULL.
unfoldable pub server_create : Answers → ℕ → ℕ → List Call × Option Server
server_create answers cb args = elim answers.socket [
  | none ↦ (allocates answers.block ∷ [], none)
  | some fd ↦
      let (calls, server) = server_on answers cb args fd in
      (allocates answers.block ∷ opens fd ∷ calls, server)
]

-- What accept answers: a descriptor, or an error.
pub data Accepted : Type 0 where
  accepted refused : ℕ → Accepted

-- The numbers of the errors that count for nothing: EINTR, EAGAIN and EWOULDBLOCK.
pub record Errnos : Type 0 where
  pub eintr : ℕ
  pub eagain : ℕ
  pub ewouldblock : ℕ

module _ {S : Type 0} (set_errno : ℕ → ℕ → Memory S → Run (Memory S)) (e : Errnos) where
  -- `connection` is what malloc gives to connection_create.
  unfoldable pub accept_cb : Accepted → ℕ → ℕ → ℕ → Io S → Run (Io S)
  accept_cb (accepted fd) connection server f io =
      ok (call (opens fd ∷ allocates connection ∷ server_add_connection connection ∷ []) io)
  accept_cb (refused errno) connection server f io =
      let closed = set_future set_errno f 0 errno io >>= λ done.
      ok (call (processors_remove_server server ∷ []) done) in
      if errno == e.eintr
      then ok io
      else if not (errno == e.eagain) && not (errno == e.ewouldblock)
      then closed
      else ok io

-- How server_create leaves the descriptors `fds` and blocks `blocks` that were there.
abbrev pub IsSettled : Answers → ℕ → ℕ → List ℕ → List ℕ → List Call × Option Server → Type 0
IsSettled answers cb args fds blocks (calls, none) =
    (after_calls open_after calls fds ≡ fds)
    × (after_calls blocks_after calls blocks ≡ answers.block ∷ blocks)
    × ((answers.socket ≡ none) ⊎ ((answers.inet_pton && answers.bind && answers.listen) ≡ false))
IsSettled answers cb args fds blocks (calls, some s) =
    (after_calls open_after calls fds ≡ s.fd ∷ fds)
    × (after_calls blocks_after calls blocks ≡ answers.block ∷ blocks)
    × (calls ≡ allocates answers.block ∷ opens s.fd ∷ binds s.fd ∷ listens s.fd ∷ [])
    × (answers.socket ≡ some s.fd)
    × (s ≡ record answers.held {
      transport = answers.transport;
      fd_map = answers.fd_map;
      cli_cb = cb;
      cli_args = args;
      fd = s.fd;
    })

module _ (answers : Answers) (cb args : ℕ) (fds blocks : List ℕ) where
  from_socket :
      (socket : Option ℕ)
      → answers.socket ≡ socket
      → ((fd : ℕ) → socket ≡ some fd → has fd fds ≡ false)
      → IsSettled answers cb args fds blocks (elim socket [
        | none ↦ (allocates answers.block ∷ [], none)
        | some fd ↦
            let (calls, server) = server_on answers cb args fd in
            (allocates answers.block ∷ opens fd ∷ calls, server)
      ])
  unfolding server_on
  from_socket none e new = (refl, refl, inl e)
  from_socket (some fd) e new =
      let gone : remove fd (fd ∷ fds) ≡ fds = remove-first fd fds (new fd refl) in
      elim (Bool-cases answers.inet_pton) [
        | inr bad ↦ rw bad (gone, refl, inr (ground (arith, bad)))
        | inl good ↦ elim (Bool-cases answers.bind) [
          | inr bad ↦ rw (good, bad) (gone, refl, inr (ground (arith, bad)))
          | inl bound ↦ elim (Bool-cases answers.listen) [
            | inr bad ↦ rw (good, bound, bad) (gone, refl, inr (ground (arith, bad)))
            | inl heard ↦ rw (good, bound, heard) (refl, refl, refl, e, refl)
          ]
        ]
      ]

  -- Where socket gives a descriptor that was not open, server_create returns NULL only if there is
  -- no socket or inet_pton, bind or listen fails, and then leaves no descriptor open that was not;
  -- or it returns a server with its callback, its argument and the socket, open, bound and then
  -- listening. In each case the block for the server stays allocated, also where NULL is returned.
  pub server_create-IsSettled :
      ((fd : ℕ) → answers.socket ≡ some fd → has fd fds ≡ false)
      → IsSettled answers cb args fds blocks (server_create answers cb args)
  unfolding server_create
  server_create-IsSettled new = from_socket answers.socket refl new
