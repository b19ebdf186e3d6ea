-- ===== src/Stress/Ring.antt =====
-- The send and receive stress of concurrencylab-edit/stress_send_recv.c: workers in a ring pass messages
-- on, until the main thread collects them. The channels stay open until all workers have ended; a
-- blocking send to an open channel appends when there is room, a blocking receive takes the
-- oldest message when there is one, and otherwise the thread waits.
pub mod Balance
pub mod Conserved
pub mod Flags
pub mod Early
pub mod Phases
pub mod Waiting
pub mod Progress
pub mod Collection
mod Tests
use concurrencylab.Common.{
  ℕ, suc, ◌+◌, ◌<◌, ◌≡◌, Option, none, some, List, [], ◌∷◌, ◌++◌, length, get_or, set, replicate,
  Bool, true, false, ltb, leb, ◌==◌, ◌&&◌, if◌then◌else◌, update, add_size, Pointer,
}

-- What the channels hold, the oldest message first. Channel `i` below `num_channel` is
-- `channels[i]`, and channel `num_channel` is `main_channel`.
abbrev pub Queues : Type 0
Queues = ℕ → List Pointer

abbrev pub send_to : ℕ → ℕ → Pointer → Queues → Option Queues
send_to buffer_size c v q =
    if ltb (length (q c)) buffer_size then some (update q c (q c ++ v ∷ [])) else none

abbrev pub take_oldest : ℕ → Queues → List Pointer → Option (Pointer × Queues)
take_oldest c q [] = none
take_oldest c q (v ∷ rest) = some (v, update q c rest)

abbrev pub receive_from : ℕ → Queues → Option (Pointer × Queues)
receive_from c q = take_oldest c q (q c)

-- Where a worker stands, with its variable `start`: at a receive; at `atomic_load`; at a send, with
-- what it has loaded; or at its end.
pub data Worker : Type 0 where
  receiving : Bool → Worker
  testing : Bool → Pointer → Worker
  passing : Bool → Bool → Pointer → Worker
  ended : Worker

abbrev pub next_index : ℕ → ℕ → ℕ
next_index num_channel index = if leb num_channel (add_size index 1) then 0 else add_size index 1

-- what a worker does with `data`
abbrev pub received : Bool → Pointer → Worker
received start data_ =
    if data_ == 0 then (if start then receiving false else ended) else testing start data_

abbrev pub after_receive : Bool → Option (Pointer × Queues) → Option (Worker × Queues)
after_receive start none = none
after_receive start (some (data_, q)) = some (received start data_, q)

abbrev pub after_send : Bool → Option Queues → Option (Worker × Queues)
after_send start none = none
after_send start (some q) = some (receiving start, q)

-- One statement of worker `index`; `none` while it waits, and at its end.
unfoldable pub worker_thread : ℕ → ℕ → ℕ → Bool → Worker → Queues → Option (Worker × Queues)
worker_thread num_channel buffer_size index done (receiving start) q =
    after_receive start (receive_from (if start then num_channel else index) q)
worker_thread num_channel buffer_size index done (testing start data_) q =
    some (passing start done data_, q)
worker_thread num_channel buffer_size index done (passing start seen data_) q =
    after_send start
      (send_to buffer_size (if seen then num_channel else next_index num_channel index) data_ q)
worker_thread num_channel buffer_size index done ended q = none

-- Where the main thread stands: at the head of a loop, with its variable; at `usleep`; at a failed
-- assertion about `data`; or past the loops.
pub data Main : Type 0 where
  feeding priming collecting stopping joining : ℕ → Main
  pausing finished : Main
  not_a_message duplicated : Pointer → Main

-- The state of the run. `msg_check` is the block of `num_msgs + 1` flags.
pub record Run : Type 0 where
  pub queues : Queues
  pub workers : ℕ → Worker
  pub done : Bool
  pub main : Main
  pub msg_check : List Bool

-- the two assertions about `data` and the write to `msg_check`
abbrev pub check_message : ℕ → ℕ → Pointer → Run → Run
check_message num_msgs msg data_ s =
    if leb 1 data_ && leb data_ num_msgs
    then if get_or s.msg_check data_ false
      then record s { main = duplicated data_ }
      else record s { main = collecting (suc msg); msg_check = set s.msg_check data_ true }
    else record s { main = not_a_message data_ }

abbrev pub after_collect : ℕ → ℕ → Run → Option (Pointer × Queues) → Option Run
after_collect num_msgs msg s none = none
after_collect num_msgs msg s (some (data_, q)) =
    some (check_message num_msgs msg data_ (record s { queues = q }))

abbrev pub after_main_send : Main → Run → Option Queues → Option Run
after_main_send next s none = none
after_main_send next s (some q) = some (record s { queues = q; main = next })

abbrev pub has_ended : Worker → Bool
has_ended ended = true
has_ended _ = false

-- One statement of the main thread from the first loop on. The blocks of `num_msgs + 1` flags and
-- `num_channel` pointers exist, so the counters do not wrap.
unfoldable pub run_stress_send_recv : ℕ → ℕ → ℕ → Main → Run → Option Run
run_stress_send_recv num_channel buffer_size num_msgs (feeding msg) s =
    if leb msg num_msgs
    then after_main_send (feeding (suc msg)) s (send_to buffer_size num_channel msg s.queues)
    else some (record s { main = priming 0 })
run_stress_send_recv num_channel buffer_size num_msgs (priming i) s =
    if ltb i num_channel
    then after_main_send (priming (suc i)) s (send_to buffer_size num_channel 0 s.queues)
    else some (record s { main = pausing })
run_stress_send_recv num_channel buffer_size num_msgs pausing s =
    some (record s { main = collecting 1; done = true })
run_stress_send_recv num_channel buffer_size num_msgs (collecting msg) s =
    if leb msg num_msgs
    then after_collect num_msgs msg s (receive_from num_channel s.queues)
    else some (record s { main = stopping 0 })
run_stress_send_recv num_channel buffer_size num_msgs (stopping i) s =
    if ltb i num_channel
    then after_main_send (stopping (suc i)) s (send_to buffer_size i 0 s.queues)
    else some (record s { main = joining 0 })
run_stress_send_recv num_channel buffer_size num_msgs (joining i) s =
    if ltb i num_channel
    then if has_ended (s.workers i) then some (record s { main = joining (suc i) }) else none
    else some (record s { main = finished })
run_stress_send_recv num_channel buffer_size num_msgs finished s = none
run_stress_send_recv num_channel buffer_size num_msgs (not_a_message data_) s = none
run_stress_send_recv num_channel buffer_size num_msgs (duplicated data_) s = none

-- The set-up, before the first loop.
abbrev pub start_run : ℕ → Run
start_run num_msgs = record {
  queues = λ _. [];
  workers = λ _. receiving true;
  done = false;
  main = feeding 1;
  msg_check = replicate (suc num_msgs) false;
}

pub data Turn (num_channel buffer_size num_msgs : ℕ) (s : Run) : Run → Type 0 where
  main_turn :
      {t : Run}
      → run_stress_send_recv num_channel buffer_size num_msgs s.main s ≡ some t
      → Turn num_channel buffer_size num_msgs s t
  worker_turn :
      {q : Queues} (i : ℕ) (w : Worker)
      → i < num_channel
      → worker_thread num_channel buffer_size i s.done (s.workers i) s.queues ≡ some (w, q)
      → Turn num_channel buffer_size num_msgs s
          (record s { queues = q; workers = update s.workers i w })

-- The states of a run, in any interleaving.
pub data Reached (num_channel buffer_size num_msgs : ℕ) : Run → Type 0 where
  set_up : Reached num_channel buffer_size num_msgs (start_run num_msgs)
  turn :
      {s t : Run}
      → Reached num_channel buffer_size num_msgs s
      → Turn num_channel buffer_size num_msgs s t
      → Reached num_channel buffer_size num_msgs t
