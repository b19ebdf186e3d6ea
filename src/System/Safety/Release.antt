-- ===== src/System/Safety/Release.antt =====
-- A thread that holds the lock can go on, and gives the lock back after at most five statements.
use concurrencylab.Common.{
  update_same, ℕ, ◌≤◌, ◌<◌, ◌≡◌, ◌≢◌, inl, inr, refl, ap, arith, some, true, Bool-cases, ◌==◌,
  total, total-pos, total-ge, update,
}
use concurrencylab.Channel.{
  Channel, Cond, read, write, Point, entry, test, room, attempt, retest, notify, clear,
  notify_write, notify_read, leave, Action, crash, acquire, goto, wait_on, signal, broadcast,
  unlock, quit, Call, code,
}
use concurrencylab.System.{
  System, Pc, running, asleep, returned, Step, run, sleep, signal_one, signal_none, wake_all,
  release, Reach, sleeps,
}
use concurrencylab.System.Facts.{inside}
use concurrencylab.System.Safety.{reached-Inv, no_crash}
use concurrencylab.Buffer.{Malloc}
use concurrencylab.Buffer.Invariant.{Allocates, max_capacity}
use concurrencylab.Channel.Life.{channel_create}
use concurrencylab.System.Safety.Descent.{left, remaining, Descends, code-Descends}

sleeper :
    (cond : Cond) (x : Pc) → 0 < sleeps cond x → (c : Call) × (p : Point) × (x ≡ asleep c cond p)
sleeper read (asleep c read p) h = (c, p, refl)
sleeper write (asleep c write p) h = (c, p, refl)
sleeper read x h = absurd (omega arith)
sleeper write x h = absurd (omega arith)

-- Thread `i` has made a step, and is nearer to giving the lock back.
abbrev pub Nearer : ℕ → System → ℕ → Type 0
Nearer n s i =
    (t : System) × Step n s t
    × (remaining (t.pc i) < remaining (s.pc i))
    × (0 < remaining (t.pc i) → t.owner ≡ some i)

module _ {n : ℕ} (s : System) {i : ℕ} {c : Call} {p : Point} (lt : i < n)
    (here : s.pc i ≡ running c p) (mine : s.owner ≡ some i) (inner : 0 < left p) where
  went : (x : Pc) → remaining x < left p → remaining (update s.pc i x i) < remaining (s.pc i)
  went x less = rw (update_same s.pc i x, here) less

  signalled :
      (cond : Cond) (q : Point)
      → code c p (some s.channel) ≡ signal cond q
      → left q < left p
      → Nearer n s i
  signalled cond q e less = elim (Bool-cases (total (sleeps cond) n s.pc == 0)) [
    | inl none_sleeps ↦ (
      _,
      signal_none i c p q cond lt here e
          (λ j hj. let at_most = total-ge (sleeps cond) n s.pc j hj in ground arith),
      went (running c q) less,
      λ _. mine,
    )
    | inr one_sleeps ↦
        let (j, hj, asleep_there) = total-pos (sleeps cond) n s.pc (ground arith) in
        let (d, r, there) = sleeper cond (s.pc j) asleep_there in
        (
          _,
          signal_one i j c d p q r cond lt hj here e there,
          rw (update_same (update s.pc j (Pc.woken d r)) i (running c q), here) less,
          λ _. mine,
        )
  ]

  advance : (a : Action) → code c p (some s.channel) ≡ a → Descends p a → a ≢ crash → Nearer n s i
  advance (goto q ch) e less fine =
      (_, run i c p q ch lt here e, went (running c q) less, λ _. mine)
  advance (signal cond q) e less fine = signalled cond q e less
  advance (broadcast cond q) e less fine =
      (_, wake_all i c p q cond lt here e, rw (update_same _ i (running c q), here) less, λ _. mine)
  advance (wait_on cond q) e less fine = (
    _,
    sleep i c p q cond lt here e,
    went (asleep c cond q) less,
    λ h. absurd (omega (arith, ap remaining (update_same s.pc i (asleep c cond q)))),
  )
  advance (unlock status out) e less fine = (
    _,
    release i c p status out lt here e,
    went (returned c status out) less,
    λ h. absurd (omega (arith, ap remaining (update_same s.pc i (returned c status out)))),
  )
  advance (acquire q) e outer fine = absurd (omega arith)
  advance (quit status) e outer fine = absurd (omega arith)
  advance crash e unit fine = absurd (fine refl)

inside-running :
    (x : Pc) → inside x ≡ true → (c : Call) × (p : Point) × (x ≡ running c p) × (0 < left p)
inside-running (running c entry) e = absurd (cc)
inside-running (running c test) e = (c, test, refl, omega arith)
inside-running (running c room) e = (c, room, refl, omega arith)
inside-running (running c attempt) e = (c, attempt, refl, omega arith)
inside-running (running c retest) e = (c, retest, refl, omega arith)
inside-running (running c (notify out)) e = (c, notify out, refl, omega arith)
inside-running (running c clear) e = (c, clear, refl, omega arith)
inside-running (running c notify_write) e = (c, notify_write, refl, omega arith)
inside-running (running c notify_read) e = (c, notify_read, refl, omega arith)
inside-running (running c (leave status out)) e = (c, leave status out, refl, omega arith)
inside-running x e = absurd (cc)

remaining-le : (x : Pc) → remaining x ≤ 5
remaining-le (running c test) = omega arith
remaining-le (running c (leave status out)) = omega arith
remaining-le (running c (notify out)) = omega arith
remaining-le (running c p) = omega arith
remaining-le x = omega arith

module _ (malloc : Malloc) (size : ℕ) {ch : Channel} (allocates : Allocates malloc)
    (small : size < max_capacity) (created : channel_create malloc size ≡ some ch) {n : ℕ}
    {s : System} (reached : Reach n ch s) where
  -- On a channel that channel_create has made with a size below 2^61, where malloc gives at least
  -- the bytes that it is asked for, in any state that n threads reach, a thread below n that holds
  -- the lock has at most five statements left before it gives the lock back, and there is a step
  -- behind which it has fewer left, and still holds the lock if it has any left.
  pub holder_advances :
      (i : ℕ)
      → i < n
      → s.owner ≡ some i
      → (remaining (s.pc i) ≤ 5)
        × ((t : System) × Step n s t
            × (remaining (t.pc i) < remaining (s.pc i))
            × (0 < remaining (t.pc i) → t.owner ≡ some i))
  holder_advances i lt mine =
      let inv = reached-Inv malloc size allocates small created reached in
      let (c, p, here, inner) = inside-running (s.pc i) (inv.held i mine) in
      let (fine, needs) = no_crash malloc size allocates small created reached i here in
      (
        remaining-le (s.pc i),
        advance s lt here mine inner _ refl (code-Descends s.channel c p) fine,
      )
