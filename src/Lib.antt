-- ===== src/Lib.antt =====
-- Verification of a library of message channels between threads, in C.
--
-- The program. A channel is a ring buffer of pointers under a lock, with two condition variables:
-- senders wait on `read` while the buffer is full, and receivers on `write` while it is empty.
-- `channel_close` makes all calls fail from then on.
--
-- The files.
-- Common: native numbers, `size_t` sums that wrap, memory blocks as lists, families by thread.
-- Buffer (concurrencylab-edit/buffer.h, buffer.c): `buffer_t` as the record `Buffer`, whose `slots`
-- are the block behind `data`; each function returns the new buffer, or `none` for undefined
-- behaviour. `malloc` is a parameter. Buffer/Invariant has the representation invariant,
-- Buffer/Queue the bounded queue that buffer.h describes, Buffer/Refine the refinement,
-- Buffer/Overflow what happens to capacities that are too large, Buffer/Roundtrip adding and then
-- removing.
-- Channel (concurrencylab-edit/channel.h, channel.c): `channel_send`, `channel_receive`,
-- `channel_non_blocking_send`, `channel_non_blocking_receive` and `channel_close` as their
-- statements: at each point of a body (`Point`), what is done next (`Action`). Channel/Life has
-- `channel_create` and `channel_destroy` with what exists of the channel at each of their
-- statements, Channel/Select the stub `channel_select`, Channel/Alone
-- the calls of a thread that nobody disturbs, against a FIFO.
-- System: any number of threads that make these calls on one channel, interleaved in any order: a
-- step is one statement of one thread. The lock has an owner; `pthread_cond_wait` releases it and
-- sleeps; a signal wakes one sleeper, if there is one, chosen freely; a broadcast wakes all; a
-- woken thread takes the lock again; and a sleeper may wake up spuriously, as POSIX allows.
-- System/Facts says what holds of a thread at its point, System/Local what each statement does,
-- System/Wake and System/Invariant that every step keeps the invariant, System/Safety what follows
-- (System/Safety/Descent, Release, Waiting: the lock is given back); System/Schedule runs schedules
-- for the tests.
-- LinkedList (concurrencylab-edit/linked_list.h, linked_list.c): the stubs.
-- Stress/Graph (concurrencylab-edit/stress.c): the distance matrices and `floyd_warshall`, a
-- function for each loop, as a matrix in one block. Graph/Cells says that the cells are apart,
-- Graph/Walks has the walks of a graph, Graph/Round what one round of the outer loop does,
-- Graph/Shortest the result, and Graph/Recurrence the recurrence of the textbook.
-- Stress/Topology: `create_topology`, from the numbers of the file.
-- Stress/Setup (concurrencylab-edit/stress.c): `run_stress` up to the creation of the threads and
-- behind the join, with failed assertions and undefined behaviour as different ends. Setup/Opened
-- is about the channels that it creates, Setup/Closed about what it takes down, Setup/Laws about
-- both.
-- Stress/Ring (concurrencylab-edit/stress_send_recv.c): the workers and the main thread of the send
-- and receive stress, one statement at a time, over channels that are queues. Ring/Balance counts
-- where a message is, Ring/Conserved says that a run keeps the count, Ring/Flags and
-- Ring/Collection have the flags of the messages and the assertions, Ring/Early and Ring/Phases how
-- many messages and NULLs are under way, Ring/Waiting and Ring/Progress what a thread waits for,
-- Ring/Tests runs by evaluation.
-- Stress/Router (concurrencylab-edit/stress.c): what a router does with the distances of a
-- neighbour, and the comparison of all vectors with the solution in `check_done`. Router/Update is
-- about the loop, Router/Lowered about sums, Router/Vectors about the vectors as walks,
-- Router/Fixpoint about vectors that no link would shorten, Router/Quiet about what holds when
-- nothing changes any more.
-- Stress/Node (concurrencylab-edit/stress.c): the thread function `router`, with its four buffers
-- as cells of memory, its selection list, and what it does behind each return of `channel_select`.
-- Node/Selections, Listed and Swap are about the list, Node/FirstVectors and FirstList about the
-- state before the loop. Node/Run composes the statements into runs of one router and leaves open
-- what it meets: the status, the index and the message of each return of `channel_select`, the
-- status of the send of its answer, and the vectors that it reads. Node/Lists is about the list in
-- such a run, Node/Buffers about the four buffers, Node/Rounds about epochs and sums,
-- Node/Distances about the vectors as walks. Node/Stub has the loop with the stub of
-- `channel_select`, whose runs are among those.
--
-- Bounds. Pointers are numbers, NULL is 0; `size_t` has 64 bits. The theorems on a created channel
-- ask for a size below 2^61, from which on the block's size in bytes wraps. `alone` is given 8
-- statements: the longest call without a wait, a non-blocking send or receive, has 6.
--
-- Distances have 32 bits; the theorems on them ask for values up to `inf_distance`, which
-- `create_topology` ensures, so that no sum wraps. All loops are counted loops, without fuel.
--
-- Not modelled: in stress.c the two passes of `check_done`, the part of `run_stress` from the
-- creation of the threads to the join, and the blocks that `router` allocates and frees:
-- `channel_select` is a stub, so that the routers never exchange what the main thread waits for.
-- The set-up and the clean-up of stress_send_recv.c; thread creation and the memory model (all
-- shared accesses of the locked functions are under the lock; what a router reads in a neighbour's
-- vector is left open); failures of the pthread functions, whose results the code does not look
-- at; a `channel_destroy` while threads are in the channel, which channel.h forbids; printing; the
-- tests of test.c.
pub mod Common
pub mod Buffer
pub mod LinkedList
pub mod Channel
pub mod System
pub mod Stress
