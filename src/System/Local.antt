-- ===== src/System/Local.antt =====
-- What each statement of the five functions does to the channel, in a state where the facts about its
-- point hold: the only module that looks into the code.
mod Defs
mod Send
mod Receive
mod Close
pub use Defs.{Both, same, IsOpenOrClosed, Cares, Moved, Good}
use concurrencylab.Common.{
  ℕ, ◌+◌, ◌-◌, ◌<◌, ◌≤◌, ◌≡◌, ◌≢◌, ◌⊎◌, inl, inr, refl, ◌∙◌, sym, ap, subst, Option, none, some,
  Bool, true, false, List, [], ◌∷◌, ◌++◌, arith, ◌==◌, leb, Bool-cases, dec_lt, Pointer, get_or,
}
use mathlib.Core.List.{append-nil}
use concurrencylab.Buffer.{Buffer, buffer_capacity, buffer_current_size}
use concurrencylab.Buffer.Invariant.{IsValid}
use concurrencylab.Buffer.Refine.{
  contents, added, removed, add_of_room, add_of_full, remove_of_some, remove_of_empty,
}
use concurrencylab.Channel.{
  ChannelStatus, channel_empty, success, closed_error, Channel, Cond, read, write, Point, entry,
  test, room, attempt, retest, notify, clear, notify_write, notify_read, leave, Action, crash,
  acquire, goto, wait_on, signal, broadcast, unlock, quit, Call, send, receive, non_blocking_send,
  non_blocking_receive, close, code, check_open,
}
use concurrencylab.System.{Pc, running, asleep, sleeps, events, puts, gots}
use concurrencylab.System.Facts.{inside, At, Waits, IsResult, demand, active, closing}
use Send.{send-Good, non_blocking_send-Good}
use Receive.{receive-Good, non_blocking_receive-Good}
use Close.{close-Good}

-- At a point where its facts hold, no function does anything undefined.
pub code-Good :
    (ch : Channel) (c : Call) (p : Point)
    → IsOpenOrClosed ch
    → At ch c p
    → Good ch c p (code c p (some ch))
code-Good ch (send v) = send-Good ch v
code-Good ch receive = receive-Good ch
code-Good ch (non_blocking_send v) = non_blocking_send-Good ch v
code-Good ch non_blocking_receive = non_blocking_receive-Good ch
code-Good ch close = close-Good ch
