-- ===== src/System/Safety/Closing.antt =====
-- What happens once the channel is closed.
mod Steps
use concurrencylab.Common.{
  ℕ, ◌≤◌, ◌<◌, ◌≡◌, ◌≢◌, ◌⊎◌, inl, inr, refl, sym, subst, ◌∙◌, ap, Option, none, some, Bool, true,
  false, List, [], ◌∷◌, ◌++◌, arith, update, ◌==◌, if◌then◌else◌, Bool-cases, Pointer,
}
use mathlib.Core.List.{append-nil}
use concurrencylab.Buffer.{Malloc}
use concurrencylab.Buffer.Invariant.{Allocates, max_capacity}
use concurrencylab.Channel.{
  ChannelStatus, closed_error, Channel, Cond, read, write, Point, entry, test, retest, leave,
  Action, crash, acquire, goto, wait_on, signal, broadcast, unlock, quit, Call, send, receive,
  non_blocking_send, non_blocking_receive, close, code, check_open,
}
use concurrencylab.Channel.Life.{channel_create}
use concurrencylab.System.{
  System, Pc, idle, running, asleep, woken, returned, wake, Reach, start, later, Step, call, lock,
  relock, run, sleep, signal_one, signal_none, wake_all, release, give_up, spurious, finish, Later,
  now, next, events, move,
}
use concurrencylab.System.Facts.{At, IsAt}
use concurrencylab.System.Local.{Moved}
use concurrencylab.System.Invariant.{Inv, good, Step-Inv}
use concurrencylab.System.Safety.{reached-Inv}
use Steps.{BeforeTest, Step-BeforeTest, Step-closed}

-- A thread that is in no call, or at the start of one, or that sleeps or has been woken up.
abbrev pub IsWaiting : Pc → Type 0
IsWaiting idle = Unit
IsWaiting (running c entry) = Unit
IsWaiting (running c p) = ⊥
IsWaiting (asleep c cond p) = Unit
IsWaiting (woken c p) = Unit
IsWaiting (returned c status out) = ⊥

IsWaiting-BeforeTest : (ch : Channel) (p : Pc) → IsAt ch p → IsWaiting p → BeforeTest p
IsWaiting-BeforeTest ch idle at w = tt
IsWaiting-BeforeTest ch (running c entry) at w = tt
IsWaiting-BeforeTest ch (running c p) at w = absurd w
IsWaiting-BeforeTest ch (asleep (send v) read retest) at w = refl
IsWaiting-BeforeTest ch (asleep receive write retest) at w = refl
IsWaiting-BeforeTest ch (asleep c cond p) at w = absurd at
IsWaiting-BeforeTest ch (woken (send v) retest) at w = refl
IsWaiting-BeforeTest ch (woken receive retest) at w = refl
IsWaiting-BeforeTest ch (woken c p) at w = absurd at
IsWaiting-BeforeTest ch (returned c status out) at w = absurd w

-- What further steps keep of a closed channel.
record StaysClosed (n capacity i : ℕ) (s t : System) : Type 0 where
  inv : Inv n capacity t
  channel : t.channel ≡ s.channel
  history : t.history ≡ s.history
  before : BeforeTest (s.pc i) → BeforeTest (t.pc i)

Later-StaysClosed :
    {n capacity : ℕ} (i : ℕ) {s t : System}
    → Inv n capacity s
    → s.channel.closed ≡ 0
    → Later n s t
    → StaysClosed n capacity i s t
Later-StaysClosed i inv closed now = record {
  inv = inv;
  channel = refl;
  history = refl;
  before = λ b. b;
}
Later-StaysClosed i {s} inv closed (next {t} r st) =
    let kept = Later-StaysClosed i inv closed r in
    let closed' : t.channel.closed ≡ 0 = ap (λ (x : Channel). x.closed) kept.channel ∙ closed in
    let (channel, history) = Step-closed kept.inv closed' st in
    record {
      inv = Step-Inv kept.inv st;
      channel = channel ∙ kept.channel;
      history = history ∙ kept.history;
      before = λ b. Step-BeforeTest kept.inv closed' st i (kept.before b);
    }

module _ (malloc : Malloc) (size : ℕ) {ch : Channel} (allocates : Allocates malloc)
    (small : size < max_capacity) (created : channel_create malloc size ≡ some ch) {n : ℕ}
    {s t : System} (reached : Reach n ch s) (closed : s.channel.closed ≡ 0)
    (further : Later n s t) where
  -- On a channel that channel_create has made with a size below 2^61, where malloc gives at least
  -- the bytes that it is asked for, in any state that n threads reach, if the channel is closed,
  -- any further steps leave the channel and the history of messages as they are.
  pub closed_is_final : (t.channel ≡ s.channel) × (t.history ≡ s.history)
  closed_is_final =
      let kept =
        Later-StaysClosed 0 (reached-Inv malloc size allocates small created reached) closed
          further in
      (kept.channel, kept.history)

  -- On a channel that channel_create has made with a size below 2^61, where malloc gives at least
  -- the bytes that it is asked for, in any state that n threads reach, if the channel is closed,
  -- and a thread is then in no call, at the start of one, asleep or woken up: whenever, after any
  -- further steps, it has returned from a call, the status is CLOSED_ERROR and no message has been
  -- stored.
  pub closed_calls_fail :
      (i : ℕ) {c : Call} {status : ChannelStatus} {out : Option Pointer}
      → IsWaiting (s.pc i)
      → t.pc i ≡ returned c status out
      → (status ≡ closed_error) × (out ≡ none)
  closed_calls_fail i {c} {status} {out} waiting here =
      let inv = reached-Inv malloc size allocates small created reached in
      let kept = Later-StaysClosed i inv closed further in
      only_failure c status out (
        subst BeforeTest here
          (kept.before (IsWaiting-BeforeTest s.channel (s.pc i) (inv.at i) waiting)))
    where
      only_failure :
          (c : Call) (status : ChannelStatus) (out : Option Pointer)
          → BeforeTest (returned c status out)
          → (status ≡ closed_error) × (out ≡ none)
      only_failure c closed_error none b = (refl, refl)
      only_failure c status out b = absurd b
