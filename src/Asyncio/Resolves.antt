-- ===== src/Asyncio/Resolves.antt =====
-- tcp_connect, in the end: what it leaves open, and what the future holds.
use treasure_house.Base.{
  ℕ, zero, suc, ◌≡◌, refl, ap, ◌∙◌, Bool, true, false, ◌==◌, some, List, [], ◌∷◌, ◌++◌,
  if◌then◌else◌, arith,
}
use treasure_house.Base.Run.{Run, ok, Ends, ends, Ends-value, Ends-weaken}
use treasure_house.Lists.{has, remove}
use treasure_house.Lists.Remove.{has-remove}
use treasure_house.Future.{Future, Memory, finished, call_back}
use treasure_house.Asyncio.{Io, call, connects, removes_reader, closes, frees}
use treasure_house.Asyncio.Futures.{SetsErrno, set_future-Concluded}
use treasure_house.Asyncio.Connect.{
  Answer, connected, failed, ConnectArgs, minus_one, tcp_connect, run_reader,
}
use treasure_house.Asyncio.Resources.{fds_of, readers_of, blocks_of, call-Calls, Calls-then}

-- The connection stands, or there is none.
abbrev pub is_connected : Answer → Bool
is_connected connected = true
is_connected (failed errno) = false

abbrev pub error_of : Answer → ℕ
error_of connected = 0
error_of (failed errno) = errno

-- It is settled whether there is a connection.
abbrev pub IsFinal : ℕ → Answer → Type 0
IsFinal einprogress connected = Unit {0}
IsFinal einprogress (failed errno) = (errno == einprogress) ≡ false

-- `n` answers that say to wait, and then others.
abbrev pub busy : ℕ → ℕ → List Answer → List Answer
busy einprogress zero more = more
busy einprogress (suc n) more = failed einprogress ∷ busy einprogress n more

module _ {S : Type 0} where
  pub record Resolved (c_args : ConnectArgs) (a : Answer) (x : Future S) (io q : Io S)
      : Type 0 where
    pub fds : fds_of q ≡ (if is_connected a then fds_of io else remove c_args.sockfd (fds_of io))
    pub readers : readers_of q ≡ remove c_args.sockfd (readers_of io)
    pub blocks : blocks_of q ≡ remove c_args.block (blocks_of io)
    pub future :
        q.memory.futures c_args.f
        ≡ some (record x {
          result = if is_connected a then c_args.sockfd else minus_one;
          status = finished;
          errno = error_of a;
        })
    pub world : q.memory.world ≡ call_back x io.memory.world

module _ {S : Type 0} {set_errno : ℕ → ℕ → Memory S → Run (Memory S)} (law : SetsErrno set_errno)
    (einprogress : ℕ) (c_args : ConnectArgs) where
  tcp_connect-Resolved :
      (a : Answer) (x : Future S) (io : Io S)
      → IsFinal einprogress a
      → io.memory.futures c_args.f ≡ some x
      → Ends (Resolved c_args a x io) (tcp_connect set_errno einprogress c_args a io)
  unfolding tcp_connect
  tcp_connect-Resolved connected x io final there =
      let asked = call (connects c_args.sockfd ∷ []) io in
      let (done, e, v) =
        Ends-value (set_future-Concluded c_args.f c_args.sockfd 0 x asked law there) in
      let rest = removes_reader c_args.sockfd ∷ frees c_args.block ∷ [] in
      let u =
        Calls-then (connects c_args.sockfd ∷ []) rest io done (call rest done)
          (call-Calls (connects c_args.sockfd ∷ []) io done v.calls)
          (call-Calls rest done (call rest done) refl) in
      rw e (
        ends (record {
          fds = u.fds;
          readers = u.readers;
          blocks = u.blocks;
          future = v.future;
          world = v.world;
        }))
  tcp_connect-Resolved (failed errno) x io final there =
      let asked = call (connects c_args.sockfd ∷ []) io in
      let shut = removes_reader c_args.sockfd ∷ closes c_args.sockfd ∷ [] in
      let (done, e, v) =
        Ends-value (set_future-Concluded c_args.f minus_one errno x (call shut asked) law there) in
      let rest = frees c_args.block ∷ [] in
      let u =
        Calls-then (connects c_args.sockfd ∷ []) shut io asked (call shut asked)
          (call-Calls (connects c_args.sockfd ∷ []) io asked refl)
          (call-Calls shut asked (call shut asked) refl) in
      let t =
        Calls-then shut rest asked done (call rest done) (call-Calls shut asked done v.calls)
          (call-Calls rest done (call rest done) refl) in
      let w =
        Calls-then (connects c_args.sockfd ∷ []) (shut ++ rest) io asked (call rest done)
          (call-Calls (connects c_args.sockfd ∷ []) io asked refl) t in
      rw (final, e)
        (ends (record {
          fds = w.fds;
          readers = w.readers;
          blocks = w.blocks;
          future = v.future;
          world = v.world;
        }))

  -- Once the event loop no longer watches the descriptor, tcp_connect is not called.
  run_reader-over :
      (more : List Answer) (io : Io S)
      → has c_args.sockfd (readers_of io) ≡ false
      → run_reader set_errno einprogress c_args more io ≡ ok io
  unfolding run_reader
  run_reader-over [] io away = refl
  run_reader-over (a ∷ more) io away = rw away refl

  pub run_reader-Resolved :
      (n : ℕ) (a : Answer) (more : List Answer) (x : Future S) (io : Io S)
      → IsFinal einprogress a
      → io.memory.futures c_args.f ≡ some x
      → has c_args.sockfd (readers_of io) ≡ true
      → Ends
          (Resolved c_args a x io)
          (run_reader set_errno einprogress c_args (busy einprogress n (a ∷ more)) io)
  unfolding run_reader
  run_reader-Resolved zero a more x io final there watched =
      let (q, e, v) = Ends-value (tcp_connect-Resolved a x io final there) in
      let away : has c_args.sockfd (readers_of q) ≡ false =
        rw v.readers (has-remove c_args.sockfd (readers_of io)) in
      rw (watched, e, run_reader-over more q away) (ends v)
  run_reader-Resolved (suc n) a more x io final there watched =
      let asked = call (connects c_args.sockfd ∷ []) io in
      let u = call-Calls (connects c_args.sockfd ∷ []) io asked refl in
      let same : (einprogress == einprogress) ≡ true = ground arith in
      rw (watched, same)
        (Ends-weaken (run_reader-Resolved n a more x asked final there (rw u.readers watched))
          (λ q v. record {
            fds =
                v.fds ∙ ap (λ fds. if is_connected a then fds else remove c_args.sockfd fds) u.fds;
            readers = v.readers ∙ ap (remove c_args.sockfd) u.readers;
            blocks = v.blocks ∙ ap (remove c_args.block) u.blocks;
            future = v.future;
            world = v.world;
          }))
