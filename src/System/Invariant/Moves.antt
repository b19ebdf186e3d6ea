-- ===== src/System/Invariant/Moves.antt =====
-- How a move of one thread keeps the invariant: outside, on taking the lock, inside, and on
-- releasing it.
use concurrencylab.Common.{
  ℕ, ◌≤◌, ◌<◌, ◌≡◌, ◌≢◌, inl, inr, some, true, false, List, ◌++◌, arith, update, ◌==◌, ap,
  Bool-cases, none, ◌∙◌,
}
use concurrencylab.Buffer.Refine.{contents}
use concurrencylab.Channel.{Channel, Cond, read, write}
use concurrencylab.System.{System, Pc, sleeps, puts, gots, move, Event}
use concurrencylab.System.Facts.{inside, IsAt, active, closing}
use concurrencylab.System.Local.{IsOpenOrClosed, Both}
use concurrencylab.System.Wake.{Covered, cover_same}
use concurrencylab.System.Invariant.Defs.{
  Inv, IsAt-outside, IsAt-update, others_outside, all_outside,
}

-- A move leaves the threads that sleep on `k` alone.
pub record Calm (p q : Pc) (k : Cond) : Type 0 where
  pub no_new : sleeps k q ≤ sleeps k p
  pub more : active k p ≤ active k q
  pub same_closing : closing k q ≡ closing k p

pub both : (P : Cond → Type 0) → Both P → (k : Cond) → P k
both P b read = b.0
both P b write = b.1

module _ {n capacity : ℕ} {s : System} (inv : Inv n capacity s) (i : ℕ) (lt : i < n) {p : Pc}
    (here : s.pc i ≡ p) where
  Calm-Covered :
      (q : Pc) → ((k : Cond) → Calm p q k) → (k : Cond) → Covered n s.channel (update s.pc i q) k
  Calm-Covered q calm k =
      let c = calm k in
      cover_same s.channel s.pc k (inv.covered k) i lt q inv.fine.flag here c.no_new c.more
        c.same_closing

  pub outside_move :
      (q : Pc)
      → inside p ≡ false
      → inside q ≡ false
      → IsAt s.channel q
      → ((k : Cond) → Calm p q k)
      → Inv n capacity (move s i q)
  outside_move q from to at_q calm = record {
    fine = inv.fine;
    fixed = inv.fixed;
    at = IsAt-update s.channel s.pc i q (λ j ne. inv.at j) at_q;
    owns = λ j e. ground (arith, inv.owns j);
    held = λ j e. ground (arith, inv.held j);
    fifo = inv.fifo;
    covered = Calm-Covered q calm;
  }

  pub lock_move :
      (q : Pc)
      → s.owner ≡ none
      → inside q ≡ true
      → IsAt s.channel q
      → ((k : Cond) → Calm p q k)
      → Inv n capacity (record (move s i q) { owner = some i })
  lock_move q free to at_q calm = record {
    fine = inv.fine;
    fixed = inv.fixed;
    at = IsAt-update s.channel s.pc i q (λ j ne. inv.at j) at_q;
    owns = λ j e. ground (arith, all_outside inv free j);
    held = λ j e. ground arith;
    fifo = inv.fifo;
    covered = Calm-Covered q calm;
  }

  pub unlock_move :
      (q : Pc)
      → inside p ≡ true
      → inside q ≡ false
      → IsAt s.channel q
      → ((k : Cond) → Covered n s.channel (update s.pc i q) k)
      → Inv n capacity (record (move s i q) { owner = none })
  unlock_move q from to at_q covered = record {
    fine = inv.fine;
    fixed = inv.fixed;
    at = IsAt-update s.channel s.pc i q (λ j ne. inv.at j) at_q;
    owns = λ j e. ground (arith, others_outside inv i (ap inside here ∙ from) j);
    held = λ j e. absurd (cc);
    fifo = inv.fifo;
    covered = covered;
  }

  -- Thread `i` holds the lock, and may write to the channel and wake others.
  pub inside_move :
      (q : Pc) (ch : Channel) (others : ℕ → Pc) (history : List Event)
      → inside p ≡ true
      → inside q ≡ true
      → IsOpenOrClosed ch
      → ch.buffer.capacity ≡ s.channel.buffer.capacity
      → IsAt ch q
      → ((j : ℕ) → i ≢ j → (inside (others j) ≡ false) × IsAt s.channel (others j))
      → puts history ≡ gots history ++ contents ch.buffer
      → ((k : Cond) → Covered n ch (update others i q) k)
      → Inv n capacity
          (record { channel = ch; owner = s.owner; pc = update others i q; history = history })
  inside_move q ch others history from to fine capacity_same at_q rest fifo covered =
      let mine : s.owner ≡ some i = inv.owns i (ap inside here ∙ from) in
      record {
        fine = fine;
        fixed = capacity_same ∙ inv.fixed;
        at =
            IsAt-update ch others i q
              (λ j ne. IsAt-outside s.channel ch (others j) (rest j ne).0 (rest j ne).1) at_q;
        owns = owns mine;
        held = λ j e. ground arith;
        fifo = fifo;
        covered = covered;
      }
    where
      owns : s.owner ≡ some i → (j : ℕ) → inside (update others i q j) ≡ true → s.owner ≡ some j
      owns mine j e = elim (Bool-cases (i == j)) [
        | inl eq ↦ ground arith
        | inr ne ↦ absurd (clash (rest j (ground arith)) (rw ne at e))
      ]
        where
          clash :
              (inside (others j) ≡ false) × IsAt s.channel (others j) → inside (others j) ≡ true → ⊥
          clash out at_e = cc (out.0)
