-- ===== src/System/Safety.antt =====
-- What holds in every state that `n` threads reach on a channel that `channel_create` has made.
pub mod Progress
pub mod Closing
pub mod Unbuffered
pub mod Descent
pub mod Release
pub mod Waiting
use mathlib.Core.Option.{some-injective}
use concurrencylab.Common.{
  ℕ, ◌≤◌, ◌<◌, ◌≡◌, ◌≢◌, refl, sym, subst, ◌∙◌, ap, Option, none, some, Bool, true, false, List,
  ◌++◌, arith, length, Pointer,
}
use concurrencylab.Buffer.{Malloc}
use concurrencylab.Buffer.Invariant.{Allocates, max_capacity, IsValid}
use concurrencylab.Buffer.Refine.{contents, length-contents}
use concurrencylab.Channel.{
  ChannelStatus, Channel, Cond, Point, Action, crash, acquire, quit, Call, code,
}
use concurrencylab.Channel.Life.{channel_create}
use concurrencylab.Channel.Life.Laws.{create-open}
use concurrencylab.System.{System, Pc, running, returned, Reach, puts, gots}
use concurrencylab.System.Facts.{inside, IsAt, IsResult}
use concurrencylab.System.Local.{IsOpenOrClosed, Good, code-Good, Moved}
use concurrencylab.System.Invariant.{Inv, Reach-Inv, others_outside}

-- What a thread may do only while it holds the lock: all but taking it.
abbrev pub NeedsLock : Action → Type 0
NeedsLock (acquire _) = ⊥
NeedsLock (quit _) = ⊥
NeedsLock _ = Unit

Good-inside :
    (ch : Channel) (c : Call) (p : Point) (a : Action)
    → Good ch c p a
    → NeedsLock a
    → inside (running c p) ≡ true
Good-inside ch c p (Action.goto q ch') good needs = good.from_inside
Good-inside ch c p (Action.wait_on cond q) good needs = good.1
Good-inside ch c p (Action.signal cond q) good needs = good.1
Good-inside ch c p (Action.broadcast cond q) good needs = good.1
Good-inside ch c p (Action.unlock status out) good needs = good.1
Good-inside ch c p crash good needs = absurd good
Good-inside ch c p (acquire q) good needs = absurd needs
Good-inside ch c p (quit status) good needs = absurd needs

not_crash : (ch : Channel) (c : Call) (p : Point) (a : Action) → Good ch c p a → a ≢ crash
not_crash ch c p crash good e = good
not_crash ch c p a good e = cc

module _ (malloc : Malloc) (size : ℕ) {ch : Channel} (allocates : Allocates malloc)
    (small : size < max_capacity) (created : channel_create malloc size ≡ some ch) {n : ℕ}
    {s : System} (reached : Reach n ch s) where
  -- The invariant of the threads holds at the channel's capacity.
  pub reached-Inv : Inv n size s
  reached-Inv =
      let (made, is_made, valid, empty, capacity, opened) =
        create-open malloc size allocates small in
      let e : made ≡ ch = cc in
      subst (λ k. Inv n k s) (ap (λ (x : Channel). x.buffer.capacity) (sym e) ∙ capacity)
        (Reach-Inv (record { valid = subst (λ x. IsValid x.buffer) e valid; flag = ground arith })
          (ap (λ (x : Channel). x.buffer.size) (sym e) ∙ empty) reached)

  -- On a channel that channel_create has made with a size below 2^61, where malloc gives at least
  -- the bytes that it is asked for, in any state that n threads reach, no two different threads
  -- are between taking and releasing the lock.
  pub mutual_exclusion : (i j : ℕ) → inside (s.pc i) ≡ true → inside (s.pc j) ≡ true → i ≡ j
  mutual_exclusion i j in_i in_j = cc (reached-Inv.owns i in_i, reached-Inv.owns j in_j)

  -- On a channel that channel_create has made with a size below 2^61, where malloc gives at least
  -- the bytes that it is asked for, in any state that n threads reach, the next action of a
  -- running thread is nothing undefined (an access outside the buffer's block, a call through
  -- NULL, a statement that its function does not have), and if it is anything but taking the lock,
  -- or returning without it, the thread holds the lock.
  pub no_crash :
      (i : ℕ) {c : Call} {p : Point}
      → s.pc i ≡ running c p
      → (code c p (some s.channel) ≢ crash)
        × (NeedsLock (code c p (some s.channel)) → s.owner ≡ some i)
  no_crash i {c} {p} here =
      let good =
        code-Good s.channel c p reached-Inv.fine (subst (IsAt s.channel) here (reached-Inv.at i)) in
      (
        not_crash s.channel c p (code c p (some s.channel)) good,
        λ needs.
            reached-Inv.owns i
              (ap inside here ∙ Good-inside s.channel c p (code c p (some s.channel)) good needs),
      )

  -- On a channel that channel_create has made with a size below 2^61, where malloc gives at least
  -- the bytes that it is asked for, in any state that n threads reach, the messages put into the
  -- buffer are, in order, the messages taken out of it followed by what it holds, and it holds at
  -- most the channel's size of them.
  pub fifo :
      (puts s.history ≡ gots s.history ++ contents s.channel.buffer)
      × (length (contents s.channel.buffer) ≤ size)
  fifo = (
    reached-Inv.fifo,
    omega (arith, length-contents s.channel.buffer, reached-Inv.fine, reached-Inv.fixed),
  )

  -- On a channel that channel_create has made with a size below 2^61, where malloc gives at least
  -- the bytes that it is asked for, in any state that n threads reach, a thread that has returned
  -- from a call has a status that channel.h lists for the function, GEN_ERROR apart, and has
  -- stored a message exactly if the call is a receive and the status SUCCESS.
  pub returns_listed :
      (i : ℕ) {c : Call} {status : ChannelStatus} {out : Option Pointer}
      → s.pc i ≡ returned c status out
      → IsResult c status out
  returns_listed i here = subst (IsAt s.channel) here (reached-Inv.at i)
