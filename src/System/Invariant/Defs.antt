-- ===== src/System/Invariant/Defs.antt =====
-- The invariant of a channel and its threads.
use concurrencylab.Common.{
  ℕ, ◌≡◌, ◌≢◌, some, true, false, ◌++◌, arith, update, ◌==◌, inl, inr, Bool-cases, none,
}
use concurrencylab.Buffer.Refine.{contents}
use concurrencylab.Channel.{Channel, Cond, entry}
use concurrencylab.System.{System, Pc, idle, running, asleep, woken, returned, puts, gots}
use concurrencylab.System.Facts.{inside, IsAt}
use concurrencylab.System.Local.{IsOpenOrClosed}
use concurrencylab.System.Wake.{Covered}

pub record Inv (n capacity : ℕ) (s : System) : Type 0 where
  pub fine : IsOpenOrClosed s.channel
  pub fixed : s.channel.buffer.capacity ≡ capacity
  pub at : (i : ℕ) → IsAt s.channel (s.pc i)
  pub owns : (i : ℕ) → inside (s.pc i) ≡ true → s.owner ≡ some i
  pub held : (i : ℕ) → s.owner ≡ some i → inside (s.pc i) ≡ true
  pub fifo : puts s.history ≡ gots s.history ++ contents s.channel.buffer
  pub covered : (k : Cond) → Covered n s.channel s.pc k

-- What is known of a thread that does not hold the lock does not depend on the channel.
pub IsAt-outside : (ch ch' : Channel) (p : Pc) → inside p ≡ false → IsAt ch p → IsAt ch' p
IsAt-outside ch ch' idle out at = tt
IsAt-outside ch ch' (running c entry) out at = tt
IsAt-outside ch ch' (running c p) out at = absurd (cc)
IsAt-outside ch ch' (asleep c cond p) out at = at
IsAt-outside ch ch' (woken c p) out at = at
IsAt-outside ch ch' (returned c status o) out at = at

-- The facts about threads, behind a move of thread `i` to `q`.
pub IsAt-update :
    (ch : Channel) (pc : ℕ → Pc) (i : ℕ) (q : Pc)
    → ((j : ℕ) → i ≢ j → IsAt ch (pc j))
    → IsAt ch q
    → (j : ℕ) → IsAt ch (update pc i q j)
IsAt-update ch pc i q others here j = elim (Bool-cases (i == j)) [
  | inl e ↦ rw e here
  | inr e ↦ rw e (others j (ground arith))
]

-- While thread `i` holds the lock, no other thread is inside.
pub others_outside :
    {n capacity : ℕ} {s : System}
    → Inv n capacity s
    → (i : ℕ) → inside (s.pc i) ≡ true
    → (j : ℕ) → i ≢ j
    → inside (s.pc j) ≡ false
others_outside {s} inv i here j ne = elim (Bool-cases (inside (s.pc j))) [
  | inl there ↦ absurd (ne (cc (inv.owns i here, inv.owns j there)))
  | inr out ↦ out
]

-- While the lock is free, no thread is inside.
pub all_outside :
    {n capacity : ℕ} {s : System}
    → Inv n capacity s
    → s.owner ≡ none
    → (j : ℕ) → inside (s.pc j) ≡ false
all_outside {s} inv free j = elim (Bool-cases (inside (s.pc j))) [
  | inl there ↦ cc (inv.owns j there)
  | inr out ↦ out
]
