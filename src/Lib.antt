-- ===== src/Lib.antt =====
-- Models and theorems for the program's C library: containers and queues, a slab allocator, a pool
-- of threads, a logger, and the coroutines with their timers, scheduler, futures, wait queues,
-- channels and connections.
--
-- The parts, and how they meet:
--   * Base holds what the others share: Boolean tests and numbers, arrays as functions from the
--     index, and Run, how a piece of C ends (a value, a fault, or the fuel used up).
--   * Lists states what the program relies on of src/container/list.h, a copy of the Linux
--     kernel's lists, as the record ListLib; Lists/Plain fills it with a list. Mempool,
--     Threadpool, Sched and Wait take it as a parameter.
--   * Heap is src/container/heap.c, a binary heap over an array that grows: heap_create,
--     heap_push, heap_pop, heap_top, sift_down (towards the root, in the source's words) and
--     sift_up. The comparison is a parameter; Heap/Order says what is asked of it, Push and Pop
--     are about one call, and Drain about calls of heap_pop in a row.
--   * Timer is src/coroutine/co_time.c, whose co_timer_cmp orders the scheduler's heap of timers;
--     Timer/Order shows for which timers it is such a comparison.
--   * Mempool is src/memory/mempool.c and mempool.h: Mempool/Align and Order for the geometry of a
--     slab, Slab for its free list, Pool for struct mempool, Alloc for mempool_alloc, Free for
--     mempool_free and mempool_destory, Create for mempool_create. Alloc/Listed and Search say on
--     which list a slab stands and where find_slab looks, Free/Holder what find_obj_slab finds.
--     Lending is the life of a pool as a step relation over the calls, with what malloc may
--     answer: Sound is the invariant, Apart says where objects lie, Changes what a change of one
--     slab keeps, Takes, Grows, Allocates and Frees that the calls keep it, Created that
--     mempool_create begins with it; Kept draws the conclusions.
--   * Threadpool is src/threadpool/threadpool.c: the functions are critical sections on records,
--     and Threadpool/Steps puts callers and workers together as a step relation. Queue, Counts and
--     Invariant carry the invariant, Kept shows it kept, Done and Finish draw the conclusions.
--   * Mpscq is src/queue/mpscq.c: a memory of links, with mpscq_push in two parts, and mpscq_pop
--     whole and as the steps of its consumer. Chain and Held relate the memory to the list of the
--     nodes inside, Fifo is about mpscq_pop, Parts says what holds between the consumer's steps,
--     Stands and Producers that each step keeps it; Interleaved lets producers and the consumer
--     take turns, and Alone shows the consumer's steps in a row to be mpscq_pop. Memory is
--     sequentially consistent.
--   * Log is src/log/log.c: its static variables and log_log. Log/Format has the prefix of a
--     message as log_fmt_tostring builds it in a buffer, Buffer and Text relate the buffer to a
--     text, and Levels is about which messages are written. Each part of the time in a prefix
--     reads the clock anew.
--   * Processors is src/coroutine/processor.c with the wait group of src/coroutine/sync/sync.c:
--     how coroutines are dealt out and counted, and processors_join. Processors/Turns has the
--     steps, where calls of processors_submit do not overlap, as it takes no lock for p_turn.
--   * Coroutine is the record of src/coroutine/coroutine.h and its creation. Sched is
--     src/coroutine/sched/core.c and coroutine_sched.h: the ready queue and the waiting queue, the
--     saved stacks, submission, yield, suspension, resumption and delay; Sched/Loop has one pass
--     of main_loop with process_expired_timers, over Heap and Timer. Sched/Stack is about the
--     saved stacks, Timers about the timers that expire, Sleep about sched_delay, Suspend about the
--     calls by which a coroutine gives up its processor, and Queues reads off the board who is
--     ready and who waits.
--   * Future is src/coroutine/asyncio/future.c; Future/Await joins it to Sched, whose
--     sched_co_resume is the callback of a coroutine that awaits. The wait itself, from
--     processors_await to its return, is any change of the scheduler's board.
--   * Chan is src/coroutine/runtime/chan.c, a channel of one message: Chan/Delivered makes a step
--     relation of writers and readers, with its invariant, and Kept shows it kept. They are
--     coroutines of one processor, whose calls do not meet; across processors nothing keeps them
--     apart, since co_spin_lock locks nothing.
--   * Asyncio is src/coroutine/asyncio/server.c and streams.c: Asyncio/Server for server_create and
--     accept_cb, Reading for what the event loop does with data, Connect for
--     asyncio_open_connection with tcp_connect, its callback, and the future between them. What
--     the system is asked for is a list of calls; Resources reads off it what stays
--     open, Futures has what is asked of future_set_errno, Resolves, Opens and Late follow a
--     connection to its end. The files do not compile: a name that was mistyped is read as the one
--     it stands for. The call of future_add_done_callback in processors_create_co_future leaves
--     the future out: what it does is an argument. event_loop_remove_reader and close are taken to
--     leave errno alone.
--   * Wait is src/coroutine/sched/wait.c and wait.h, with the functions of core.c and coroutine.c
--     that a wait queue calls: Wait/Wake for __wake_up, Finish for an entry's way through the
--     queue, Blocked for a coroutine that co_queue_popleft took off its queue and that makes
--     itself wait. To take a coroutine off a queue where it stands on none is a fault.
-- Each part has a module Tests with runs of the code and the theorems at concrete inputs.
--
-- How C is read: a pointer is an address, 0 for NULL; what malloc and fopen answer is an argument;
-- an access outside a block, a division by zero, a freed block and a pointer never set are a
-- fault. An unsigned type of w bits wraps at 2^w, written out. The clock is a function from the
-- number of the reading. Signed counters (int num, int threads_num, the int i of the logger) are
-- taken not to overflow.
--
-- Bounds and fuel: the loops of the heap run on fuel, last + 1 rounds to sink an entry that stands
-- at last and one round for each entry to raise the root's; each round leaves a shorter way, and
-- the theorems on heap_push and heap_pop show that the fuel is enough. calculate_slab_order has
-- seven rounds, the orders 0 to 6 of the source's bound. process_expired_timers has a round for
-- each timer on the heap and one more, which its theorem shows to be enough. Other loops are
-- recursion on a list or a count. The digits of an int are at most 20.
--
-- Not modelled: list.h itself; the event loop, the ring of bytes of the streams, server_forever,
-- the macros around wait_event with the mutex that stands on them, and the spin lock, most of which
-- does not compile as it stands; getaddrinfo; epoll, sockets, context switches and locks, which
-- are the platform; the scheduler's resumption of a coroutine that stands on no queue; and the
-- functions that only free memory.
pub mod Asyncio
pub mod Base
pub mod Lists
pub mod Log
pub mod Mempool
pub mod Heap
pub mod Timer
pub mod Threadpool
pub mod Mpscq
pub mod Processors
pub mod Coroutine
pub mod Chan
pub mod Sched
pub mod Future
pub mod Wait
