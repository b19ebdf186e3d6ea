-- ===== src/System/Wake.antt =====
-- No wake-up is lost: on either condition variable, as long as a thread sleeps there, what it waits for
-- is on its way to other threads, or a broadcast is.
use concurrencylab.Common.{
  ℕ, ◌≤◌, ◌<◌, ◌≡◌, ◌⊎◌, inl, inr, ap, arith, update, total, total-update, total-ge, dec_lt,
}
use concurrencylab.Channel.{Channel, Cond, Point, Call}
use concurrencylab.System.{Pc, asleep, woken, sleeps}
use concurrencylab.System.Facts.{demand, active, closing}
use concurrencylab.System.Local.{Cares}

abbrev pub Covered : ℕ → Channel → (ℕ → Pc) → Cond → Type 0
Covered n ch pc k =
    (total (sleeps k) n pc ≡ 0)
    ⊎ (((ch.closed ≡ 1) × (demand k ch ≤ total (active k) n pc))
        ⊎ ((ch.closed ≡ 0) × (0 < total (closing k) n pc)))

module _ {n : ℕ} (ch : Channel) (pc : ℕ → Pc) (k : Cond) (covered : Covered n ch pc k) (i : ℕ)
    (lt : i < n) where
  -- Thread `i` moves from `p` to `q`.
  pub cover :
      (ch' : Channel) {p : Pc} (q : Pc)
      → pc i ≡ p
      → sleeps k q ≤ sleeps k p
      → Cares ch p ch' q k
      → Covered n ch' (update pc i q) k
  cover ch' {p} q here no_new cares = ground (
    arith,
    total-update (sleeps k) n pc i q lt,
    total-update (active k) n pc i q lt,
    total-update (closing k) n pc i q lt,
    ap (sleeps k) here,
    ap (active k) here,
    total-ge (closing k) n pc i lt,
    ap (closing k) here,
  )

  -- It moves where the channel does not matter.
  pub cover_same :
      {p : Pc} (q : Pc)
      → ch.closed ≤ 1
      → pc i ≡ p
      → sleeps k q ≤ sleeps k p
      → active k p ≤ active k q
      → closing k q ≡ closing k p
      → Covered n ch (update pc i q) k
  cover_same {p} q flag here no_new more same_closing = cover ch q here no_new cares
    where
      cares : Cares ch p ch q k
      cares = elim (dec_lt 0 ch.closed) [
        | yes opened ↦ inl (omega arith, omega arith, omega arith)
        | no closed ↦ inr (inr (omega arith, omega arith, same_closing))
      ]

  -- It wakes thread `j` by a signal.
  pub cover_signal :
      (j : ℕ) {p : Pc} (q : Pc) {d : Call} {r : Point} {cond : Cond}
      → j < n
      → pc i ≡ p
      → pc j ≡ asleep d cond r
      → update pc j (woken d r) i ≡ p
      → sleeps k q ≡ 0
      → active k p ≤ active k (woken d r)
      → closing k p ≡ 0
      → ch.closed ≡ 1
      → Covered n ch (update (update pc j (woken d r)) i q) k
  cover_signal j {p} q {d} {r} {cond} lt_j here there here' awake one none_closing opened = ground (
    arith,
    total-update (sleeps k) n pc j (woken d r) lt_j,
    total-update (active k) n pc j (woken d r) lt_j,
    total-update (sleeps k) n (update pc j (woken d r)) i q lt,
    total-update (active k) n (update pc j (woken d r)) i q lt,
    ap (sleeps k) here',
    ap (active k) here',
    ap (sleeps k) there,
    ap (active k) there,
  )
