-- ===== src/System/Tests.antt =====
-- Schedules of threads on a channel, and the theorems at the states that they reach.
use concurrencylab.Common.{
  ℕ, ◌+◌, ◌<◌, ◌≤◌, ◌≡◌, ◌≢◌, ◌⊎◌, refl, Option, none, some, [], ◌++◌, arith, replicate, length,
  Pointer,
}
use concurrencylab.Buffer.{buffer_create, buffer_add, buffer_remove}
use concurrencylab.Buffer.Samples.{generous, generous-Allocates}
use concurrencylab.Buffer.Refine.{contents}
use concurrencylab.Channel.{
  Channel, write, entry, test, retest, notify, leave, success, closed_error, crash, send, receive,
  close, code,
}
use concurrencylab.Channel.Life.{
  channel_create, channel_create_parts, initialize, create_buffer, init_mutex, init_condition,
}
use concurrencylab.System.{
  System, Step, asleep, returned, Later, now, next, call, lock, run, release, puts, gots,
}
use concurrencylab.System.Facts.{IsResult}
use concurrencylab.System.Safety.{NeedsLock, mutual_exclusion, no_crash, fifo, returns_listed}
use concurrencylab.System.Safety.Progress.{WokenOn, no_lost_wakeup, close_wakes_all}
use concurrencylab.System.Safety.Closing.{closed_is_final, closed_calls_fail}
use concurrencylab.System.Safety.Descent.{remaining}
use concurrencylab.System.Safety.Release.{Nearer, holder_advances}
use concurrencylab.System.Safety.Waiting.{waiting_advances}
use concurrencylab.System.Safety.Unbuffered.{size_zero_moves_nothing}
use concurrencylab.System.Schedule.{go, Run, schedule, turns}

abbrev channel_of : ℕ → Channel
channel_of size = record {
  buffer = record { size = 0; next = 0; capacity = size; slots = replicate (size + 1) 0 };
  closed = 1;
}

one_created : channel_create generous 1 ≡ some (channel_of 1)
unfolding channel_create buffer_create channel_create_parts initialize create_buffer init_mutex
    init_condition
one_created = refl

zero_created : channel_create generous 0 ≡ some (channel_of 0)
unfolding channel_create buffer_create channel_create_parts initialize create_buffer init_mutex
    init_condition
zero_created = refl

-- Thread 0 sleeps on an empty channel.
abbrev sleeping : Run 3 (channel_of 1)
sleeping = schedule 3 (channel_of 1) (turns 0 receive 3)

-- Thread 1 is about to signal that it has sent 7.
abbrev signalling : Run 3 (channel_of 1)
signalling = schedule 3 (channel_of 1) (turns 0 receive 3 ++ turns 1 (send 7) 3)

-- It has done so, and thread 0 has received 7.
abbrev received : Run 3 (channel_of 1)
received =
    schedule 3 (channel_of 1) (turns 0 receive 3 ++ (turns 1 (send 7) 5 ++ replicate 5 (go 0)))

-- Threads 0 and 2 sleep, and thread 1 sends: one of the two is woken up.
abbrev two_receivers : Run 3 (channel_of 1)
two_receivers =
    schedule 3 (channel_of 1) (turns 0 receive 3 ++ (turns 2 receive 3 ++ turns 1 (send 7) 5))

-- Thread 1 closes the channel on which thread 0 sleeps.
abbrev closing_down : Run 3 (channel_of 1)
closing_down = schedule 3 (channel_of 1) (turns 0 receive 3 ++ turns 1 close 6)

received_result :
    (received.pc 0 ≡ returned receive success (some 7))
    × (received.pc 1 ≡ returned (send 7) success none)
unfolding schedule code buffer_add buffer_remove
received_result = (refl, refl)

mutual_exclusion_example : ◌≡◌ {A = ℕ} 1 1
unfolding schedule code buffer_add buffer_remove
mutual_exclusion_example =
    mutual_exclusion generous 1 generous-Allocates (omega arith) one_created signalling.reach 1 1
      refl refl

no_crash_example :
    (code (send 7) (notify none) (some signalling.channel) ≢ crash)
    × (NeedsLock (code (send 7) (notify none) (some signalling.channel))
        → signalling.owner ≡ some 1)
unfolding schedule code buffer_add buffer_remove
no_crash_example =
    no_crash generous 1 generous-Allocates (omega arith) one_created signalling.reach 1 refl

fifo_example :
    (puts received.history ≡ gots received.history ++ contents received.channel.buffer)
    × (length (contents received.channel.buffer) ≤ 1)
fifo_example = fifo generous 1 generous-Allocates (omega arith) one_created received.reach

returns_listed_example : IsResult receive success (some 7)
unfolding schedule code buffer_add buffer_remove
returns_listed_example =
    returns_listed generous 1 generous-Allocates (omega arith) one_created received.reach 0 refl

no_lost_wakeup_example : (j : ℕ) × (j < 3) × WokenOn write (two_receivers.pc j)
unfolding schedule code buffer_add buffer_remove
no_lost_wakeup_example =
    no_lost_wakeup generous 1 generous-Allocates (omega arith) one_created two_receivers.reach refl
      write 0 {c = receive} {p = retest} (omega arith) refl (omega arith)

close_wakes_all_example : closing_down.pc 0 ≢ asleep receive write retest
unfolding schedule code buffer_add buffer_remove
close_wakes_all_example =
    close_wakes_all generous 1 generous-Allocates (omega arith) one_created closing_down.reach refl
      write 0 (omega arith) refl

-- Thread 2 tries to send on the closed channel.
too_late :
    (t : System) × Later 3 closing_down.last t × (t.pc 2 ≡ returned (send 3) closed_error none)
unfolding schedule code buffer_add buffer_remove
too_late = (
  _,
  next
      (next
        (next (next now (call 2 (send 3) (omega arith) refl))
          (lock 2 (send 3) entry test (omega arith) refl refl refl))
        (run 2 (send 3) test (leave closed_error none) (record (channel_of 1) { closed = 0 })
          (omega arith) refl refl))
      (release 2 (send 3) (leave closed_error none) closed_error none (omega arith) refl refl),
  refl,
)

closed_is_final_example :
    (too_late.0.channel ≡ closing_down.channel) × (too_late.0.history ≡ closing_down.history)
unfolding schedule code buffer_add buffer_remove
closed_is_final_example =
    closed_is_final generous 1 generous-Allocates (omega arith) one_created closing_down.reach refl
      too_late.1

closed_calls_fail_example : (closed_error ≡ closed_error) × (◌≡◌ {A = Option Pointer} none none)
unfolding schedule code buffer_add buffer_remove
closed_calls_fail_example =
    closed_calls_fail generous 1 generous-Allocates (omega arith) one_created closing_down.reach
      refl too_late.1 2 tt too_late.2

-- On a channel of size 0 thread 0 sleeps in its send, and thread 1 in its receive.
abbrev stuck : Run 2 (channel_of 0)
stuck = schedule 2 (channel_of 0) (turns 0 (send 7) 3 ++ turns 1 receive 3)

size_zero_moves_nothing_example : stuck.history ≡ []
size_zero_moves_nothing_example =
    size_zero_moves_nothing generous generous-Allocates zero_created stuck.reach

holder_advances_example :
    (remaining (signalling.pc 1) ≤ 5)
    × ((t : System) × Step 3 signalling.last t
        × (remaining (t.pc 1) < remaining (signalling.pc 1))
        × (0 < remaining (t.pc 1) → t.owner ≡ some 1))
unfolding schedule code buffer_add buffer_remove
holder_advances_example =
    holder_advances generous 1 generous-Allocates (omega arith) one_created signalling.reach 1
      (omega arith) refl

waiting_advances_example :
    ((t : System) × Step 3 closing_down.last t × (t.owner ≡ some 0))
    ⊎ ((j : ℕ) × (closing_down.owner ≡ some j) × Nearer 3 closing_down.last j)
unfolding schedule code buffer_add buffer_remove
waiting_advances_example =
    waiting_advances generous 1 generous-Allocates (omega arith) one_created closing_down.reach 0
      (omega arith) tt
