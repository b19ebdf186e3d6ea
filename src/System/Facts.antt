-- ===== src/System/Facts.antt =====
-- What holds of a thread at the place where it stands, and how much it counts for the wake-ups.
use concurrencylab.Common.{ℕ, ◌-◌, ◌<◌, ◌≡◌, Option, none, some, Bool, true, false, Pointer}
use concurrencylab.Channel.{
  ChannelStatus, channel_empty, success, closed_error, Channel, Cond, read, write, Point, entry,
  test, room, attempt, retest, notify, clear, notify_write, notify_read, leave, Call, send, receive,
  non_blocking_send, non_blocking_receive, close,
}
use concurrencylab.System.{Pc, idle, running, asleep, woken, returned}

-- Between the return of `pthread_mutex_lock` and the release of the lock.
abbrev pub inside : Pc → Bool
inside (running _ entry) = false
inside (running _ _) = true
inside _ = false

-- What a call may return, and what it has then stored in `*data`.
abbrev pub IsResult : Call → ChannelStatus → Option Pointer → Type 0
IsResult (send _) success none = Unit
IsResult (send _) closed_error none = Unit
IsResult receive success (some _) = Unit
IsResult receive closed_error none = Unit
IsResult (non_blocking_send _) success none = Unit
IsResult (non_blocking_send _) closed_error none = Unit
IsResult (non_blocking_send _) channel_empty none = Unit
IsResult non_blocking_receive success (some _) = Unit
IsResult non_blocking_receive closed_error none = Unit
IsResult non_blocking_receive channel_empty none = Unit
IsResult close success none = Unit
IsResult close closed_error none = Unit
IsResult _ _ _ = ⊥

-- The points that a function has, and what is known at each of the channel; ⊥ for the others.
abbrev pub At : Channel → Call → Point → Type 0
At ch c entry = Unit
At ch c test = Unit
At ch (send _) attempt = ch.closed ≡ 1
At ch (send _) retest = Unit
At ch (send _) (notify none) = ch.closed ≡ 1
At ch receive attempt = ch.closed ≡ 1
At ch receive retest = Unit
At ch receive (notify (some _)) = ch.closed ≡ 1
At ch (non_blocking_send _) room = ch.closed ≡ 1
At ch (non_blocking_send _) attempt = (ch.closed ≡ 1) × (ch.buffer.size < ch.buffer.capacity)
At ch (non_blocking_send _) (notify none) = ch.closed ≡ 1
At ch non_blocking_receive room = ch.closed ≡ 1
At ch non_blocking_receive attempt = (ch.closed ≡ 1) × (0 < ch.buffer.size)
At ch non_blocking_receive (notify (some _)) = ch.closed ≡ 1
At ch close clear = ch.closed ≡ 1
At ch close notify_write = ch.closed ≡ 0
At ch close notify_read = ch.closed ≡ 0
At ch c (leave status out) = IsResult c status out
At ch _ _ = ⊥

-- A sender sleeps on `read` and a receiver on `write`, and both go on at the second test.
abbrev pub Waits : Call → Cond → Point → Type 0
Waits (send _) read retest = Unit
Waits receive write retest = Unit
Waits _ _ _ = ⊥

-- A woken thread goes on at the second test.
abbrev pub Resumes : Call → Point → Type 0
Resumes (send _) retest = Unit
Resumes receive retest = Unit
Resumes _ _ = ⊥

abbrev pub IsAt : Channel → Pc → Type 0
IsAt ch idle = Unit
IsAt ch (running c p) = At ch c p
IsAt ch (asleep c cond p) = Waits c cond p
IsAt ch (woken c p) = Resumes c p
IsAt ch (returned c status out) = IsResult c status out

-- What the threads that sleep on a condition variable wait for: pointers, or free cells.
abbrev pub demand : Cond → Channel → ℕ
demand write ch = ch.buffer.size
demand read ch = ch.buffer.capacity - ch.buffer.size

-- 1 for a thread on its way to take one of these, or about to signal that there is one.
abbrev pub active : Cond → Pc → ℕ
active write (woken receive _) = 1
active write (running receive retest) = 1
active write (running receive attempt) = 1
active write (running (send _) (notify _)) = 1
active write (running (non_blocking_send _) (notify _)) = 1
active read (woken (send _) _) = 1
active read (running (send _) retest) = 1
active read (running (send _) attempt) = 1
active read (running receive (notify _)) = 1
active read (running non_blocking_receive (notify _)) = 1
active _ _ = 0

-- 1 for a thread that has closed the channel and has this broadcast before it.
abbrev pub closing : Cond → Pc → ℕ
closing write (running close notify_write) = 1
closing read (running close notify_write) = 1
closing read (running close notify_read) = 1
closing _ _ = 0
