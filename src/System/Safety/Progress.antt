-- ===== src/System/Safety/Progress.antt =====
-- Threads sleep only while they have to.
use concurrencylab.Common.{
  ℕ, ◌<◌, ◌≡◌, ◌≢◌, inl, inr, refl, ap, none, some, false, arith, total-pos, total-ge,
}
use concurrencylab.Buffer.{Malloc}
use concurrencylab.Buffer.Invariant.{Allocates, max_capacity}
use concurrencylab.Channel.{Channel, Cond, read, write, Point, entry, Call, send, receive}
use concurrencylab.Channel.Life.{channel_create}
use concurrencylab.System.{System, Pc, idle, running, asleep, woken, returned, sleeps, Reach}
use concurrencylab.System.Facts.{inside, demand, active, closing}
use concurrencylab.System.Invariant.{Inv, all_outside}
use concurrencylab.System.Safety.{reached-Inv}

sleeps-asleep : (k : Cond) (c : Call) (p : Point) → sleeps k (asleep c k p) ≡ 1
sleeps-asleep read c p = refl
sleeps-asleep write c p = refl

-- A thread that has been woken up on `k`, and only waits for the lock.
abbrev pub WokenOn : Cond → Pc → Type 0
WokenOn read (woken (send v) _) = Unit
WokenOn write (woken receive _) = Unit
WokenOn _ _ = ⊥

-- Outside of the code, only such a thread is active.
active-outside : (k : Cond) (p : Pc) → inside p ≡ false → 0 < active k p → WokenOn k p
active-outside read (woken (send v) q) out h = tt
active-outside read (woken c q) out h = absurd (omega arith)
active-outside write (woken (send v) q) out h = absurd (omega arith)
active-outside write (woken receive q) out h = tt
active-outside write (woken c q) out h = absurd (omega arith)
active-outside read (running c entry) out h = absurd (zero_read c h)
  where
    zero_read : (c : Call) → 0 < active read (running c entry) → ⊥
    zero_read (send v) h = omega arith
    zero_read c h = omega arith
active-outside write (running c entry) out h = absurd (zero_write c h)
  where
    zero_write : (c : Call) → 0 < active write (running c entry) → ⊥
    zero_write (send v) h = omega arith
    zero_write c h = omega arith
active-outside k (running c p) out h = cc
active-outside read idle out h = absurd (omega arith)
active-outside read (asleep c cond q) out h = absurd (omega arith)
active-outside read (returned c status o) out h = absurd (omega arith)
active-outside write idle out h = absurd (omega arith)
active-outside write (asleep c cond q) out h = absurd (omega arith)
active-outside write (returned c status o) out h = absurd (omega arith)

-- A thread that has not got the lock does not close the channel.
closing-outside : (k : Cond) (p : Pc) → inside p ≡ false → closing k p ≡ 0
closing-outside read (running c entry) out = closing_entry c
  where
    closing_entry : (c : Call) → closing read (running c entry) ≡ 0
    closing_entry (send v) = refl
    closing_entry c = refl
closing-outside write (running c entry) out = closing_entry c
  where
    closing_entry : (c : Call) → closing write (running c entry) ≡ 0
    closing_entry (send v) = refl
    closing_entry c = refl
closing-outside k (running c p) out = cc
closing-outside read p out = refl
closing-outside write p out = refl

-- While nobody holds the lock, a thread sleeps only on an open channel, and if there is something for
-- it, another thread has been woken up for that.
served :
    (n capacity : ℕ) (s : System) (k : Cond)
    → Inv n capacity s
    → s.owner ≡ none
    → (i : ℕ) {c : Call} {p : Point} → i < n
    → s.pc i ≡ asleep c k p
    → (s.channel.closed ≡ 1) × (0 < demand k s.channel → (j : ℕ) × (j < n) × WokenOn k (s.pc j))
served n capacity s k inv free i {c} {p} lt here = elim (inv.covered k) [
  | inl nobody ↦
      absurd
        (omega (arith, total-ge (sleeps k) n s.pc i lt, ap (sleeps k) here, sleeps-asleep k c p))
  | inr (inl (opened, enough)) ↦ (
    opened,
    λ waiting.
        let (j, lt_j, is_active) = total-pos (active k) n s.pc (omega arith) in
        (j, lt_j, active-outside k (s.pc j) (all_outside inv free j) is_active),
  )
  | inr (inr (closed, coming)) ↦
      let (j, lt_j, is_closing) = total-pos (closing k) n s.pc coming in
      absurd (omega (arith, closing-outside k (s.pc j) (all_outside inv free j)))
]

module _ (malloc : Malloc) (size : ℕ) {ch : Channel} (allocates : Allocates malloc)
    (small : size < max_capacity) (created : channel_create malloc size ≡ some ch) {n : ℕ}
    {s : System} (reached : Reach n ch s) (free : s.owner ≡ none) where
  -- On a channel that channel_create has made with a size below 2^61, where malloc gives at least
  -- the bytes that it is asked for, in any state that n threads reach, while nobody holds the
  -- lock: if a receiver sleeps although the buffer holds a message, or a sender although it has
  -- room, some receiver, or some sender, has been woken up and only waits for the lock.
  pub no_lost_wakeup :
      (k : Cond) (i : ℕ) {c : Call} {p : Point}
      → i < n
      → s.pc i ≡ asleep c k p
      → 0 < demand k s.channel
      → (j : ℕ) × (j < n) × WokenOn k (s.pc j)
  no_lost_wakeup k i lt here waiting =
      (served n size s k (reached-Inv malloc size allocates small created reached) free i lt here).1
        waiting

  -- On a channel that channel_create has made with a size below 2^61, where malloc gives at least
  -- the bytes that it is asked for, in any state that n threads reach, while nobody holds the lock
  -- and the channel is closed, no thread sleeps on either condition variable.
  pub close_wakes_all :
      (k : Cond) (i : ℕ) {c : Call} {p : Point}
      → i < n
      → s.channel.closed ≡ 0
      → s.pc i ≢ asleep c k p
  close_wakes_all k i lt closed here = omega (
    arith,
    (served n size s k (reached-Inv malloc size allocates small created reached) free i lt here).0,
  )
