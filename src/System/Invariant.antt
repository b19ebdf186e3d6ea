-- ===== src/System/Invariant.antt =====
-- The invariant holds at the start and is kept by every step.
mod Defs
mod Moves
mod Calm
mod Wakes
mod Steps
pub use Defs.{Inv, others_outside, all_outside}
use Moves.{outside_move, lock_move}
use Calm.{idle-Calm, asleep-Calm, returned-Calm, woken-Resumes, Waits-Resumes}
use Steps.{run-Inv, lock-Inv, sleep-Inv, release-Inv, signal_none-Inv, signal_one-Inv, wake_all-Inv}
pub use Steps.{good}
use concurrencylab.Common.{ℕ, ◌<◌, ◌≡◌, refl, inl, inr, sym, subst, total-eq-zero}
use concurrencylab.Buffer.Refine.{contents, window_zero}
use concurrencylab.Channel.{Channel, Cond, read, write}
use concurrencylab.System.{
  System, Pc, idle, running, returned, woken, Step, call, lock, relock, run, sleep, signal_one,
  signal_none, wake_all, release, give_up, spurious, finish, start_of, Reach, start, later, sleeps,
}
use concurrencylab.System.Facts.{IsAt}
use concurrencylab.System.Local.{IsOpenOrClosed}

pub Inv-start :
    (n : ℕ) (ch : Channel)
    → IsOpenOrClosed ch
    → ch.buffer.size ≡ 0
    → Inv n ch.buffer.capacity (start_of ch)
Inv-start n ch fine empty = record {
  fine = fine;
  fixed = refl;
  at = λ i. tt;
  owns = λ i e. absurd (cc);
  held = λ i e. absurd (cc);
  fifo = sym (window_zero ch.buffer.slots ch.buffer.capacity ch.buffer.next ch.buffer.size empty);
  covered = λ k. inl (total-eq-zero (sleeps k) n (λ _. idle) (λ i lt. sleeps-idle k));
}
  where
    sleeps-idle : (k : Cond) → sleeps k idle ≡ 0
    sleeps-idle read = refl
    sleeps-idle write = refl

pub Step-Inv : {n capacity : ℕ} {s t : System} → Inv n capacity s → Step n s t → Inv n capacity t
Step-Inv inv (call i c lt here) =
    outside_move inv i lt here (running c _) refl refl tt (λ k. idle-Calm k c)
Step-Inv inv (lock i c p q lt here e free) = lock-Inv inv i lt here q e free
Step-Inv {s} inv (relock i c p lt here free) =
    let (at_p, inside_p, calm) =
      woken-Resumes s.channel c p (subst (IsAt s.channel) here (inv.at i)) in
    lock_move inv i lt here (running c p) free inside_p at_p calm
Step-Inv inv (run i c p q ch lt here e) = run-Inv inv i lt here q ch e
Step-Inv inv (sleep i c p q cond lt here e) = sleep-Inv inv i lt here q cond e
Step-Inv inv (signal_one i j c d p q r cond lt lt_j here e there) =
    signal_one-Inv inv i lt here j d q r cond lt_j e there
Step-Inv inv (signal_none i c p q cond lt here e nobody) =
    signal_none-Inv inv i lt here q cond e nobody
Step-Inv inv (wake_all i c p q cond lt here e) = wake_all-Inv inv i lt here q cond e
Step-Inv inv (release i c p status out lt here e) = release-Inv inv i lt here status out e
Step-Inv inv (give_up i c p status lt here e) = absurd (good inv i lt here e)
Step-Inv {s} inv (spurious i c p cond lt here) =
    outside_move inv i lt here (woken c p) refl refl
      (Waits-Resumes c cond p (subst (IsAt s.channel) here (inv.at i))).0
      (λ k. asleep-Calm k c cond p)
Step-Inv inv (finish i c status out lt here) =
    outside_move inv i lt here idle refl refl tt (λ k. returned-Calm k c status out)

pub Reach-Inv :
    {n : ℕ} {ch : Channel} {s : System}
    → IsOpenOrClosed ch
    → ch.buffer.size ≡ 0
    → Reach n ch s
    → Inv n ch.buffer.capacity s
Reach-Inv {n} {ch} fine empty start = Inv-start n ch fine empty
Reach-Inv fine empty (later r st) = Step-Inv (Reach-Inv fine empty r) st
