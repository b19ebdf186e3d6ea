-- ===== src/System/Invariant/Steps.antt =====
-- Every step of the threads keeps the invariant.
use mathlib.Core.List.{append_assoc}
use concurrencylab.Common.{
  ℕ, ◌≤◌, ◌<◌, ◌≡◌, ◌≢◌, ◌⊎◌, inl, inr, refl, some, true, false, ◌++◌, arith, update, ◌==◌, ap, sym,
  subst, Bool-cases, Option, none, ◌∙◌, Pointer, total, total-eq-zero,
}
use concurrencylab.Buffer.Refine.{contents}
use concurrencylab.Channel.{
  Channel, Cond, Point, Call, Action, acquire, goto, wait_on, signal, broadcast, unlock, code,
  ChannelStatus,
}
use concurrencylab.System.{
  System, running, asleep, woken, returned, sleeps, wake, events, puts, gots, move,
}
use concurrencylab.System.Facts.{inside, IsAt, active, closing, demand}
use concurrencylab.System.Local.{Both, Cares, Moved, same, Good, code-Good}
use concurrencylab.System.Wake.{Covered, cover, cover_same, cover_signal}
use concurrencylab.System.Invariant.Defs.{Inv, others_outside}
use concurrencylab.System.Invariant.Moves.{both, lock_move, unlock_move, inside_move}
use concurrencylab.System.Invariant.Wakes.{
  puts-append, gots-append, same-cases, signal-more, none_asleep, wake-Covered,
}
use concurrencylab.System.Invariant.Calm.{
  sleeps-running, returned-zero, Waits-Resumes, wake-IsAt, sleeps-wake, wake-running,
}

module _ {n capacity : ℕ} {s : System} (inv : Inv n capacity s) (i : ℕ) (lt : i < n) {c : Call}
    {p : Point} (here : s.pc i ≡ running c p) where
  -- What the code of the running thread does is good.
  pub good : {a : Action} → code c p (some s.channel) ≡ a → Good s.channel c p a
  good e =
      subst (Good s.channel c p) e
        (code-Good s.channel c p inv.fine (subst (IsAt s.channel) here (inv.at i)))

  others_stay :
      inside (running c p) ≡ true
      → (j : ℕ) → i ≢ j
      → (inside (s.pc j) ≡ false) × IsAt s.channel (s.pc j)
  others_stay from j ne = (others_outside inv i (ap inside here ∙ from) j ne, inv.at j)

  pub run-Inv :
      (q : Point) (ch : Channel)
      → code c p (some s.channel) ≡ goto q ch
      → Inv n capacity (record {
        channel = ch;
        owner = s.owner;
        pc = update s.pc i (running c q);
        history = s.history ++ events c q;
      })
  run-Inv q ch e =
      let m = good e in
      inside_move inv i lt here (running c q) ch s.pc (s.history ++ events c q) m.from_inside
        m.to_inside m.fine m.capacity m.at_next (others_stay m.from_inside) (fifo m)
        (λ k.
          cover s.channel s.pc k (inv.covered k) i lt ch (running c q) here
            (omega (arith, sleeps-running k c q))
            (both (Cares s.channel (running c p) ch (running c q)) m.cares k))
    where
      fifo :
          Moved s.channel c p q ch
          → puts (s.history ++ events c q) ≡ gots (s.history ++ events c q) ++ contents ch.buffer
      fifo m =
          rw (puts-append, gots-append, inv.fifo, append_assoc, m.queue)
            (sym (append_assoc (gots s.history) (gots (events c q)) (contents ch.buffer)))

  pub lock-Inv :
      (q : Point)
      → code c p (some s.channel) ≡ acquire q
      → s.owner ≡ none
      → Inv n capacity (record (move s i (running c q)) { owner = some i })
  lock-Inv q e free =
      let (at_q, inside_q, actives, closings) = good e in
      lock_move inv i lt here (running c q) free inside_q at_q (λ k. record {
        no_new = omega (arith, sleeps-running k c q);
        more = omega (arith, both (λ k. active k (running c q) ≡ active k (running c p)) actives k);
        same_closing = both (λ k. closing k (running c q) ≡ closing k (running c p)) closings k;
      })

  pub sleep-Inv :
      (q : Point) (cond : Cond)
      → code c p (some s.channel) ≡ wait_on cond q
      → Inv n capacity (record (move s i (asleep c cond q)) { owner = none })
  sleep-Inv q cond e =
      let (waits, inside_p, opened, quiet) = good e in
      unlock_move inv i lt here (asleep c cond q) inside_p refl waits (λ k.
        elim (both
          (λ k.
            (demand k s.channel ≡ 0)
            ⊎ ((active k (running c p) ≡ 0) × (sleeps k (asleep c cond q) ≡ 0)))
          quiet k) [
            | inl nothing ↦ inr (inl (opened, omega arith))
            | inr (none_active, no_new) ↦
                cover s.channel s.pc k (inv.covered k) i lt s.channel (asleep c cond q) here
                  (omega arith) (inl (opened, opened, omega arith))
          ])

  pub release-Inv :
      (status : ChannelStatus) (out : Option Pointer)
      → code c p (some s.channel) ≡ unlock status out
      → Inv n capacity (record (move s i (returned c status out)) { owner = none })
  release-Inv status out e =
      let (result, inside_p, actives, closings) = good e in
      unlock_move inv i lt here (returned c status out) inside_p refl result (λ k.
        cover_same s.channel s.pc k (inv.covered k) i lt (returned c status out) inv.fine.flag here
          (omega (arith, returned-zero k c status out))
          (omega (arith, both (λ k. active k (running c p) ≡ 0) actives k))
          (omega (
            arith,
            both (λ k. closing k (running c p) ≡ 0) closings k,
            returned-zero k c status out,
          )))

  pub signal_none-Inv :
      (q : Point) (cond : Cond)
      → code c p (some s.channel) ≡ signal cond q
      → ((j : ℕ) → j < n → sleeps cond (s.pc j) ≡ 0)
      → Inv n capacity (move s i (running c q))
  signal_none-Inv q cond e nobody =
      let (at_q, inside_p, inside_q, actives, closings, opened) = good e in
      inside_move inv i lt here (running c q) s.channel s.pc s.history inside_p inside_q inv.fine
        refl at_q (others_stay inside_p) inv.fifo
        (λ k. elim (same-cases k cond) [
          | inl is_cond ↦ none_asleep s.channel s.pc k i c q lt (
              subst (λ x. total (sleeps x) n s.pc ≡ 0) (sym is_cond)
                (total-eq-zero (sleeps cond) n s.pc nobody))
          | inr other ↦
              cover s.channel s.pc k (inv.covered k) i lt s.channel (running c q) here
                (omega (arith, sleeps-running k c q))
                (inl (
                  opened,
                  opened,
                  omega (arith, other, both (λ k. active k (running c p) ≤ same k cond) actives k),
                ))
        ])

  pub signal_one-Inv :
      (j : ℕ) (d : Call) (q r : Point) (cond : Cond)
      → j < n
      → code c p (some s.channel) ≡ signal cond q
      → s.pc j ≡ asleep d cond r
      → Inv n capacity (record s { pc = update (update s.pc j (woken d r)) i (running c q) })
  signal_one-Inv j d q r cond lt_j e there =
      let (at_q, inside_p, inside_q, actives, closings, opened) = good e in
      let (resumes, counts) = Waits-Resumes d cond r (subst (IsAt s.channel) there (inv.at j)) in
      inside_move inv i lt here (running c q) s.channel (update s.pc j (woken d r)) s.history
        inside_p inside_q inv.fine refl at_q (rest resumes (others_stay inside_p)) inv.fifo
        (λ k.
          cover_signal s.channel s.pc k (inv.covered k) i lt j (running c q) lt_j here there here'
            (sleeps-running k c q)
            (signal-more k cond d r (active k (running c p)) counts
              (both (λ k. active k (running c p) ≤ same k cond) actives k))
            (both (λ k. closing k (running c p) ≡ 0) closings k) opened)
    where
      here' : update s.pc j (woken d r) i ≡ running c p
      here' = elim (Bool-cases (j == i)) [
        | inl eq ↦ let together : j ≡ i = ground arith in cc (ap s.pc together)
        | inr ne ↦ rw ne here
      ]

      rest :
          IsAt s.channel (woken d r)
          → ((k : ℕ) → i ≢ k → (inside (s.pc k) ≡ false) × IsAt s.channel (s.pc k))
          → (k : ℕ) → i ≢ k
          → (inside (update s.pc j (woken d r) k) ≡ false)
            × IsAt s.channel (update s.pc j (woken d r) k)
      rest resumes stay k ne = elim (Bool-cases (j == k)) [
        | inl eq ↦ rw eq (refl, resumes)
        | inr other ↦ rw other (stay k ne)
      ]

  pub wake_all-Inv :
      (q : Point) (cond : Cond)
      → code c p (some s.channel) ≡ broadcast cond q
      → Inv n capacity (record s { pc = update (λ j. wake cond (s.pc j)) i (running c q) })
  wake_all-Inv q cond e =
      let (at_q, inside_p, inside_q, closed, closings) = good e in
      inside_move inv i lt here (running c q) s.channel (λ j. wake cond (s.pc j)) s.history inside_p
        inside_q inv.fine refl at_q (rest (others_stay inside_p)) inv.fifo (covered closed closings)
    where
      rest :
          ((k : ℕ) → i ≢ k → (inside (s.pc k) ≡ false) × IsAt s.channel (s.pc k))
          → (k : ℕ) → i ≢ k
          → (inside (wake cond (s.pc k)) ≡ false) × IsAt s.channel (wake cond (s.pc k))
      rest stay k ne =
          let (out, at_k) = stay k ne in
          let (woken_at, same_side) = wake-IsAt s.channel cond (s.pc k) at_k in
          (same_side ∙ out, woken_at)

      covered :
          s.channel.closed ≡ 0
          → Both (λ k. (same k cond ≡ 1) ⊎ (closing k (running c q) ≡ closing k (running c p)))
          → (k : Cond) → Covered n s.channel (update (λ j. wake cond (s.pc j)) i (running c q)) k
      covered closed closings k = elim (same-cases k cond) [
        | inl is_cond ↦
            none_asleep s.channel (λ j. wake cond (s.pc j)) k i c q lt
              (subst (λ x. total (sleeps k) n (λ j. wake x (s.pc j)) ≡ 0) is_cond
                (total-eq-zero (sleeps k) n (λ j. wake k (s.pc j)) (λ j l. sleeps-wake k (s.pc j))))
        | inr other ↦
            cover s.channel (λ j. wake cond (s.pc j)) k
              (wake-Covered n s.channel s.pc k cond other closed (inv.covered k)) i lt s.channel
              (running c q) (ap (wake cond) here ∙ wake-running cond c p)
              (omega (arith, sleeps-running k c q))
              (inr (
                inr (
                  closed,
                  closed,
                  elim (both
                      (λ k. (same k cond ≡ 1) ⊎ (closing k (running c q) ≡ closing k (running c p)))
                      closings k) [ inl is_same ↦ absurd (omega arith) | inr kept ↦ kept ],
                )))
      ]
