-- ===== src/Asyncio/Tests.antt =====
-- Runs of the server's and the connection's first steps, and the theorems at them.
use treasure_house.Base.{◌+◌, suc, ◌≡◌, refl, true, false, none, some, [], ◌∷◌, arith}
use treasure_house.Base.Int.{pos, negsuc}
use treasure_house.Base.Run.{ends, ok, Ends}
use treasure_house.Lists.Plain.{plain}
use treasure_house.Coroutine.{Coroutine, co_waiting}
use treasure_house.Sched.{Board}
use treasure_house.Future.{Future, pending, future_await}
use treasure_house.Asyncio.{adds_reader, ℕ, allocates, opens, binds, closes, listens, Io}
use treasure_house.Asyncio.Server.{
  Server, Answers, Errnos, server_on, server_create, IsSettled, server_create-IsSettled, accept_cb,
  refused,
}
use treasure_house.Asyncio.Futures.{set_field, set_field-SetsErrno}
use treasure_house.Asyncio.Reading.{
  read_nointerrupt, connection_read_data_nonblock, IsTaken, is_stale, read_data-IsTaken,
}
use treasure_house.Asyncio.Connect.{
  failed, Answers as ConnectAnswers, asyncio_open_connection, run_reader, open_finish,
}
use treasure_house.Asyncio.Resolves.{busy}
use treasure_house.Asyncio.Opens.{args_of, IsOpen, asyncio_open_connection-IsOpen}
use treasure_house.Asyncio.Late.{IsMade, IsSettled as IsLate, late_answer_is_dropped}

abbrev unset : Server
unset = record {
  fd = 91;
  port = 92;
  host = 93;
  cli_cb = 94;
  cli_args = 95;
  transport = 96;
  ev_loop = 97;
  fd_map = 98;
}

abbrev answers : Answers
answers = record {
  block = 700;
  held = unset;
  socket = some 5;
  inet_pton = true;
  bind = true;
  listen = false;
  transport = 800;
  fd_map = 900;
}

not_heard :
    server_create answers 1 2
    ≡ (allocates 700 ∷ opens 5 ∷ binds 5 ∷ listens 5 ∷ closes 5 ∷ [], none)
unfolding server_create server_on
not_heard = refl

server_create-IsSettled_example :
    IsSettled answers 1 2 (4 ∷ 3 ∷ []) (600 ∷ []) (server_create answers 1 2)
server_create-IsSettled_example =
    server_create-IsSettled answers 1 2 (4 ∷ 3 ∷ []) (600 ∷ []) (λ fd e. ground (arith, e))

abbrev errnos : Errnos
errnos = record { eintr = 4; eagain = 11; ewouldblock = 11 }

abbrev fresh : Future (Board plain)
fresh = record { errno = 0; status = pending; result = 0; done_callback = none; done_args = 0 }

abbrev asleep : Coroutine
asleep = record {
  sched = 1;
  stack = λ _. 0;
  block = 0;
  stack_size = 0;
  fn_data = 0;
  fn = 0;
  status = co_waiting;
}

abbrev io : Io (Board plain)
io = record {
  calls = [];
  memory = record {
    futures = λ _. some fresh;
    world = record {
      queues = λ _. [];
      cos = λ _. asleep;
      co_queue = 100;
      co_ready_queue = 200;
      ready_at = 200;
    };
  };
}

read_data-IsTaken_example : Ends (IsTaken (is_stale errnos 0) 5 40 (suc 9) 0 fresh io) (
    connection_read_data_nonblock set_field errnos 5 40
      (record { ret = pos (suc 9); errno = 0 })
      io)
read_data-IsTaken_example = read_data-IsTaken set_field-SetsErrno errnos 5 40 9 0 fresh io refl

interrupted :
    read_nointerrupt errnos
      (record { ret = negsuc 0; errno = 4 } ∷ record { ret = pos 7; errno = 4 } ∷ [])
    ≡ some (record { ret = pos 7; errno = 4 })
unfolding read_nointerrupt
interrupted = refl

again : accept_cb set_field errnos (refused 11) 60 30 40 io ≡ ok io
unfolding accept_cb
again = refl

abbrev connecting : ConnectAnswers
connecting = record {
  inet_pton = true;
  socket = some 5;
  connect = failed 115;
  connection = 500;
  future = 40;
  args = 510;
  addr = 520;
}

asyncio_open_connection-IsOpen_example :
    Ends (IsOpen 115 connecting io) (asyncio_open_connection (λ co m. ok m) 115 connecting 7 io)
asyncio_open_connection-IsOpen_example =
    asyncio_open_connection-IsOpen (λ co m. ok m) 115 connecting 7 io (λ co m. ends tt)
      (λ fd e. refl)

-- At its await, with the future at 40 and a callback that counts.
abbrev awaiting : Io ℕ
awaiting = record {
  memory = record {
    futures = λ _. some (record {
      errno = 0;
      status = pending;
      result = 0;
      done_callback = some (λ args s. s + args);
      done_args = 7;
    });
    world = 0;
  };
  calls = opens 5 ∷ allocates 510 ∷ allocates 520 ∷ adds_reader 5 ∷ [];
}

-- Refused in the end: error 111.
late_answer_is_dropped_example :
    (future_await (λ x. x.result) 40 awaiting.memory ≡ ok none)
    × Ends
        (λ q.
          IsLate
            (args_of connecting 5)
            (failed 111)
            (record {
              errno = 0;
              status = pending;
              result = 0;
              done_callback = some (λ args s. s + args);
              done_args = 7;
            })
            awaiting
            q
          × Ends
              (IsMade connecting (args_of connecting 5) q)
              (open_finish (λ x. x.result) connecting (args_of connecting 5) q))
        (run_reader set_field 115 (args_of connecting 5) (busy 115 2 (failed 111 ∷ [])) awaiting)
late_answer_is_dropped_example =
    late_answer_is_dropped set_field-SetsErrno (λ x. x.result) 115 connecting (args_of connecting 5)
      2 (failed 111) [] _ awaiting refl refl refl refl
