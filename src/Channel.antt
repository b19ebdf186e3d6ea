-- ===== src/Channel.antt =====
-- The channel API of concurrencylab-edit/channel.h and channel.c.
-- Each blocking or locking function is given as its code: at every program point, what the function
-- does next, given the channel that its argument points to (`none` is NULL). Between two points
-- other threads may run; System.antt interleaves the threads. The function's parameter `data` is
-- held by the call, and what a receive stores in `*data` goes along in its later points.
pub mod Life
pub mod Select
pub mod Alone
mod Tests
use concurrencylab.Common.{ℕ, Option, none, some, ltb, leb, ◌==◌, if◌then◌else◌, Pointer}
use concurrencylab.Buffer.{
  Buffer, buffer_success, buffer_error, buffer_add, buffer_remove, buffer_current_size,
  buffer_capacity,
}

-- `enum channel_status`. CHANNEL_EMPTY and CHANNEL_FULL are one value, 0.
pub data ChannelStatus : Type 0 where
  channel_empty success closed_error gen_error destroy_error : ChannelStatus

abbrev pub channel_full : ChannelStatus
channel_full = channel_empty

-- `channel_t`, without the lock and the two condition variables, whose state is that of the threads
-- (System.antt), and without the field `data`, which no function uses. `closed` is 1 while the
-- channel is open, and 0 once it is closed.
pub record Channel : Type 0 where
  pub buffer : Buffer
  pub closed : ℕ

-- The condition variables: senders wait for `read`, receivers for `write`.
pub data Cond : Type 0 where
  read write : Cond

-- Where a thread stands in the body of a function.
pub data Point : Type 0 where
  entry : Point  -- before the lock is taken
  test : Point  -- before the first test of `closed`
  room : Point  -- before a non-blocking function looks at the buffer's size
  attempt : Point  -- before the call of `buffer_add` or `buffer_remove`
  retest : Point  -- behind `pthread_cond_wait`, before the test of `closed`
  notify : (out : Option Pointer) → Point  -- before `pthread_cond_signal`
  clear : Point  -- before `closed = 0`
  notify_write : Point  -- before the first broadcast
  notify_read : Point  -- before the second broadcast
  leave : (status : ChannelStatus) (out : Option Pointer) → Point  -- before the lock is released

-- What the code does at a point.
pub data Action : Type 0 where
  crash : Action  -- undefined behaviour
  acquire : Point → Action  -- `pthread_mutex_lock`
  goto : Point → Channel → Action  -- a statement that reads or writes the channel
  wait_on : Cond → Point → Action  -- `pthread_cond_wait`
  signal : Cond → Point → Action  -- `pthread_cond_signal`
  broadcast : Cond → Point → Action  -- `pthread_cond_broadcast`
  unlock : ChannelStatus → Option Pointer → Action  -- `pthread_mutex_unlock`, and `return`
  quit : ChannelStatus → Action  -- `return` with the lock not taken

-- `if (channel->closed == 0) { unlock; return CLOSED_ERROR; }`, else on to `next`
abbrev pub check_open : Channel → Point → Action
check_open ch next = if ch.closed == 0 then goto (leave closed_error none) ch else goto next ch

unfoldable pub channel_send : Pointer → Point → Option Channel → Action
channel_send v entry (some ch) = acquire test
channel_send v test (some ch) = check_open ch attempt
-- A failed `buffer_add` returns the buffer as it was.
channel_send v attempt (some ch) = elim (buffer_add ch.buffer v) [
  | none ↦ crash
  | some (buffer_error, _) ↦ wait_on read retest
  | some (buffer_success, b) ↦ goto (notify none) (record ch { buffer = b })
]
channel_send v retest (some ch) = check_open ch attempt
channel_send v (notify out) (some ch) = signal write (leave success out)
channel_send v (leave status out) (some ch) = unlock status out
channel_send v _ _ = crash

unfoldable pub channel_receive : Point → Option Channel → Action
channel_receive entry (some ch) = acquire test
channel_receive test (some ch) = check_open ch attempt
-- A failed `buffer_remove` returns the buffer as it was.
channel_receive attempt (some ch) = elim (buffer_remove ch.buffer) [
  | none ↦ crash
  | some (buffer_error, _, _) ↦ wait_on write retest
  | some (buffer_success, out, b) ↦ goto (notify out) (record ch { buffer = b })
]
channel_receive retest (some ch) = check_open ch attempt
channel_receive (notify out) (some ch) = signal read (leave success out)
channel_receive (leave status out) (some ch) = unlock status out
channel_receive _ _ = crash

unfoldable pub channel_non_blocking_send : Pointer → Point → Option Channel → Action
channel_non_blocking_send v entry none = quit gen_error
channel_non_blocking_send v entry (some ch) = acquire test
channel_non_blocking_send v test (some ch) = check_open ch room
channel_non_blocking_send v room (some ch) =
    if leb (buffer_capacity ch.buffer) (buffer_current_size ch.buffer)
    then goto (leave channel_full none) ch
    else goto attempt ch
-- The status of `buffer_add` is not looked at.
channel_non_blocking_send v attempt (some ch) = elim (buffer_add ch.buffer v) [
  | none ↦ crash
  | some (_, b) ↦ goto (notify none) (record ch { buffer = b })
]
channel_non_blocking_send v (notify out) (some ch) = signal write (leave success out)
channel_non_blocking_send v (leave status out) (some ch) = unlock status out
channel_non_blocking_send v _ _ = crash

unfoldable pub channel_non_blocking_receive : Point → Option Channel → Action
channel_non_blocking_receive entry none = quit gen_error
channel_non_blocking_receive entry (some ch) = acquire test
channel_non_blocking_receive test (some ch) = check_open ch room
channel_non_blocking_receive room (some ch) =
    if buffer_current_size ch.buffer == 0
    then goto (leave channel_empty none) ch
    else goto attempt ch
-- The status of `buffer_remove` is not looked at.
channel_non_blocking_receive attempt (some ch) = elim (buffer_remove ch.buffer) [
  | none ↦ crash
  | some (_, out, b) ↦ goto (notify out) (record ch { buffer = b })
]
channel_non_blocking_receive (notify out) (some ch) = signal read (leave success out)
channel_non_blocking_receive (leave status out) (some ch) = unlock status out
channel_non_blocking_receive _ _ = crash

unfoldable pub channel_close : Point → Option Channel → Action
channel_close entry none = quit closed_error
channel_close entry (some ch) = acquire test
channel_close test (some ch) = check_open ch clear
channel_close clear (some ch) = goto notify_write (record ch { closed = 0 })
channel_close notify_write (some ch) = broadcast write notify_read
channel_close notify_read (some ch) = broadcast read (leave success none)
channel_close (leave status out) (some ch) = unlock status out
channel_close _ _ = crash

-- A call of one of the five functions.
pub data Call : Type 0 where
  send : Pointer → Call
  receive : Call
  non_blocking_send : Pointer → Call
  non_blocking_receive : Call
  close : Call

unfoldable pub code : Call → Point → Option Channel → Action
unfolding channel_send channel_receive channel_non_blocking_send channel_non_blocking_receive
    channel_close
code (send v) = channel_send v
code receive = channel_receive
code (non_blocking_send v) = channel_non_blocking_send v
code non_blocking_receive = channel_non_blocking_receive
code close = channel_close
