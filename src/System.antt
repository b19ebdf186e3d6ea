-- ===== src/System.antt =====
-- `n` threads that call the functions of one channel, interleaved in any order: the state of the lock
-- and of the two condition variables is where the threads stand.
pub mod Facts
pub mod Local
pub mod Wake
pub mod Invariant
pub mod Safety
mod Schedule
mod Tests
use concurrencylab.Common.{
  ℕ, ◌<◌, ◌≡◌, ◌≢◌, Option, none, some, List, [], ◌∷◌, ◌++◌, update, Pointer,
}
use concurrencylab.Buffer.{Buffer}
use concurrencylab.Channel.{
  ChannelStatus, Channel, Cond, read, write, Point, entry, notify, leave, Action, acquire, goto,
  wait_on, signal, broadcast, unlock, quit, Call, send, receive, non_blocking_send,
  non_blocking_receive, close, code,
}

-- Where a thread stands.
pub data Pc : Type 0 where
  idle : Pc  -- in no call
  running : Call → Point → Pc
  asleep : Call → Cond → Point → Pc  -- inside `pthread_cond_wait`, to go on at the point
  woken : Call → Point → Pc  -- the same, woken up, and waiting for the lock
  returned : Call → ChannelStatus → Option Pointer → Pc

-- What went through the buffer, in order. No function of the program reads it.
pub data Event : Type 0 where
  put : Pointer → Event
  got : Pointer → Event

-- A call of the buffer has succeeded where its function moves on to `pthread_cond_signal`.
abbrev pub events : Call → Point → List Event
events (send v) (notify _) = put v ∷ []
events (non_blocking_send v) (notify _) = put v ∷ []
events receive (notify (some v)) = got v ∷ []
events non_blocking_receive (notify (some v)) = got v ∷ []
events _ _ = []

-- `owner` is the thread that holds the lock.
pub record System : Type 0 where
  pub channel : Channel
  pub owner : Option ℕ
  pub pc : ℕ → Pc
  pub history : List Event

abbrev pub move : System → ℕ → Pc → System
move s i p = record s { pc = update s.pc i p }

-- 1 for a thread that waits for the condition variable
abbrev pub sleeps : Cond → Pc → ℕ
sleeps read (asleep _ read _) = 1
sleeps write (asleep _ write _) = 1
sleeps _ _ = 0

-- what a broadcast does to a thread
abbrev pub wake : Cond → Pc → Pc
wake read (asleep c read p) = woken c p
wake write (asleep c write p) = woken c p
wake _ p = p

-- One step of one of `n` threads. A step that the code does not allow without the lock is taken all the
-- same: that no thread does so is a theorem. A thread may wake up with no signal.
pub data Step (n : ℕ) (s : System) : System → Type 0 where
  call : (i : ℕ) (c : Call) → i < n → s.pc i ≡ idle → Step n s (move s i (running c entry))
  lock :
      (i : ℕ) (c : Call) (p q : Point)
      → i < n
      → s.pc i ≡ running c p
      → code c p (some s.channel) ≡ acquire q
      → s.owner ≡ none
      → Step n s (record (move s i (running c q)) { owner = some i })
  relock :
      (i : ℕ) (c : Call) (p : Point)
      → i < n
      → s.pc i ≡ woken c p
      → s.owner ≡ none
      → Step n s (record (move s i (running c p)) { owner = some i })
  run :
      (i : ℕ) (c : Call) (p q : Point) (ch : Channel)
      → i < n
      → s.pc i ≡ running c p
      → code c p (some s.channel) ≡ goto q ch
      → Step n s (record {
        channel = ch;
        owner = s.owner;
        pc = update s.pc i (running c q);
        history = s.history ++ events c q;
      })
  sleep :
      (i : ℕ) (c : Call) (p q : Point) (cond : Cond)
      → i < n
      → s.pc i ≡ running c p
      → code c p (some s.channel) ≡ wait_on cond q
      → Step n s (record (move s i (asleep c cond q)) { owner = none })
  signal_one :
      (i j : ℕ) (c d : Call) (p q r : Point) (cond : Cond)
      → i < n
      → j < n
      → s.pc i ≡ running c p
      → code c p (some s.channel) ≡ signal cond q
      → s.pc j ≡ asleep d cond r
      → Step n s (record s { pc = update (update s.pc j (woken d r)) i (running c q) })
  signal_none :
      (i : ℕ) (c : Call) (p q : Point) (cond : Cond)
      → i < n
      → s.pc i ≡ running c p
      → code c p (some s.channel) ≡ signal cond q
      → ((j : ℕ) → j < n → sleeps cond (s.pc j) ≡ 0)
      → Step n s (move s i (running c q))
  wake_all :
      (i : ℕ) (c : Call) (p q : Point) (cond : Cond)
      → i < n
      → s.pc i ≡ running c p
      → code c p (some s.channel) ≡ broadcast cond q
      → Step n s (record s { pc = update (λ j. wake cond (s.pc j)) i (running c q) })
  release :
      (i : ℕ) (c : Call) (p : Point) (status : ChannelStatus) (out : Option Pointer)
      → i < n
      → s.pc i ≡ running c p
      → code c p (some s.channel) ≡ unlock status out
      → Step n s (record (move s i (returned c status out)) { owner = none })
  give_up :
      (i : ℕ) (c : Call) (p : Point) (status : ChannelStatus)
      → i < n
      → s.pc i ≡ running c p
      → code c p (some s.channel) ≡ quit status
      → Step n s (move s i (returned c status none))
  spurious :
      (i : ℕ) (c : Call) (p : Point) (cond : Cond)
      → i < n
      → s.pc i ≡ asleep c cond p
      → Step n s (move s i (woken c p))
  finish :
      (i : ℕ) (c : Call) (status : ChannelStatus) (out : Option Pointer)
      → i < n
      → s.pc i ≡ returned c status out
      → Step n s (move s i idle)

-- The channel as `channel_create` returns it, with all threads outside.
abbrev pub start_of : Channel → System
start_of ch = record { channel = ch; owner = none; pc = λ _. idle; history = [] }

pub data Reach (n : ℕ) (ch : Channel) : System → Type 0 where
  start : Reach n ch (start_of ch)
  later : {s t : System} → Reach n ch s → Step n s t → Reach n ch t

-- Any number of further steps.
pub data Later (n : ℕ) (s : System) : System → Type 0 where
  now : Later n s s
  next : {t u : System} → Later n s t → Step n t u → Later n s u

abbrev pub puts : List Event → List Pointer
puts [] = []
puts (put v ∷ l) = v ∷ puts l
puts (got v ∷ l) = puts l

abbrev pub gots : List Event → List Pointer
gots [] = []
gots (put v ∷ l) = gots l
gots (got v ∷ l) = v ∷ gots l
