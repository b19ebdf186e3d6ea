-- ===== src/System/Invariant/Wakes.antt =====
-- How signals and broadcasts leave the threads that sleep cared for; the history of two runs.
use concurrencylab.Common.{
  ℕ, ◌≤◌, ◌<◌, ◌≡◌, ◌⊎◌, inl, inr, refl, List, [], ◌∷◌, ◌++◌, arith, update, ap, ◌∙◌, total,
  total-update, total-congr,
}
use concurrencylab.Channel.{Channel, Cond, read, write, Point, Call}
use concurrencylab.System.{Pc, running, woken, sleeps, wake, puts, gots, Event, put, got}
use concurrencylab.System.Facts.{active, closing}
use concurrencylab.System.Local.{same}
use concurrencylab.System.Wake.{Covered}
use concurrencylab.System.Invariant.Calm.{sleeps-running, sleeps-wake_ne, closing-wake}

pub puts-append : (h l : List Event) → puts (h ++ l) ≡ puts h ++ puts l
puts-append [] l = refl
puts-append (put v ∷ h) l = ap (λ t. v ∷ t) (puts-append h l)
puts-append (got v ∷ h) l = puts-append h l

pub gots-append : (h l : List Event) → gots (h ++ l) ≡ gots h ++ gots l
gots-append [] l = refl
gots-append (put v ∷ h) l = gots-append h l
gots-append (got v ∷ h) l = ap (λ t. v ∷ t) (gots-append h l)

pub same-cases : (k cond : Cond) → (k ≡ cond) ⊎ (same k cond ≡ 0)
same-cases read read = inl refl
same-cases read write = inr refl
same-cases write read = inr refl
same-cases write write = inl refl

-- What a signal takes from a condition variable, the thread that it wakes brings back.
pub signal-more :
    (k cond : Cond) (d : Call) (r : Point) (a : ℕ)
    → active cond (woken d r) ≡ 1
    → a ≤ same k cond
    → a ≤ active k (woken d r)
signal-more read read d r a counts h = omega arith
signal-more write write d r a counts h = omega arith
signal-more k cond d r a counts h = omega arith

-- With no thread asleep, there is nothing to care for.
pub none_asleep :
    {n : ℕ} (ch : Channel) (pc : ℕ → Pc) (k : Cond) (i : ℕ) (c : Call) (q : Point)
    → i < n
    → total (sleeps k) n pc ≡ 0
    → Covered n ch (update pc i (running c q)) k
none_asleep {n} ch pc k i c q lt zero_asleep =
    inl (omega (arith, total-update (sleeps k) n pc i (running c q) lt, sleeps-running k c q))

-- A broadcast on one condition variable leaves the other alone.
pub wake-Covered :
    (n : ℕ) (ch : Channel) (pc : ℕ → Pc) (k cond : Cond)
    → same k cond ≡ 0
    → ch.closed ≡ 0
    → Covered n ch pc k
    → Covered n ch (λ j. wake cond (pc j)) k
wake-Covered n ch pc k cond other closed covered =
    let sleepers =
      total-congr (sleeps k) n (λ j. wake cond (pc j)) pc
        (λ j _. sleeps-wake_ne k cond (pc j) other) in
    let closers =
      total-congr (closing k) n (λ j. wake cond (pc j)) pc (λ j _. closing-wake k cond (pc j)) in
    elim covered [
      | inl nobody ↦ inl (sleepers ∙ nobody)
      | inr (inl (opened, _)) ↦ absurd (omega arith)
      | inr (inr (_, coming)) ↦ inr (inr (closed, omega arith))
    ]
