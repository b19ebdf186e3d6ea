-- ===== src/System/Safety/Closing/Steps.antt =====
-- What one step does once the channel is closed.
use concurrencylab.Common.{
  ℕ, ◌≡◌, inl, inr, refl, sym, subst, none, some, true, arith, update, ◌==◌, Bool-cases,
}
use mathlib.Core.List.{append-nil}
use concurrencylab.Channel.{
  closed_error, Channel, Cond, read, write, Point, entry, test, retest, leave, Action, acquire,
  goto, wait_on, signal, broadcast, unlock, Call, send, receive, non_blocking_send,
  non_blocking_receive, close, code, check_open,
}
use concurrencylab.System.{
  System, Pc, idle, running, asleep, woken, returned, wake, Step, call, lock, relock, run, sleep,
  signal_one, signal_none, wake_all, release, give_up, spurious, finish,
}
use concurrencylab.System.Facts.{At, IsAt}
use concurrencylab.System.Invariant.{Inv, good}

-- A thread that is in no call, or has its next test of `closed` before it, or has failed it.
abbrev pub BeforeTest : Pc → Type 0
BeforeTest idle = Unit
BeforeTest (running c entry) = Unit
BeforeTest (running c test) = Unit
BeforeTest (running c retest) = Unit
BeforeTest (running c (leave closed_error none)) = Unit
BeforeTest (running c p) = ⊥
BeforeTest (asleep c cond p) = p ≡ retest
BeforeTest (woken c p) = p ≡ retest
BeforeTest (returned c closed_error none) = Unit
BeforeTest (returned c status out) = ⊥

-- What such a thread does next, on a closed channel.
abbrev Fails : Channel → Call → Action → Type 0
Fails ch c (acquire q) = BeforeTest (running c q)
Fails ch c (goto q ch') = BeforeTest (running c q)
Fails ch c (unlock status out) = BeforeTest (returned c status out)
Fails ch c a = ⊥

check-Fails : (ch : Channel) (c : Call) (q : Point) → ch.closed ≡ 0 → Fails ch c (check_open ch q)
check-Fails ch c q closed = let shut : (ch.closed == 0) ≡ true = ground arith in rw shut tt

code-Fails :
    (ch : Channel) (c : Call) (p : Point)
    → ch.closed ≡ 0
    → At ch c p
    → BeforeTest (running c p)
    → Fails ch c (code c p (some ch))
unfolding code
code-Fails ch (send v) entry closed at before = tt
code-Fails ch (send v) test closed at before = check-Fails ch (send v) _ closed
code-Fails ch (send v) retest closed at before = check-Fails ch (send v) _ closed
code-Fails ch (send v) (leave closed_error none) closed at before = tt
code-Fails ch receive entry closed at before = tt
code-Fails ch receive test closed at before = check-Fails ch receive _ closed
code-Fails ch receive retest closed at before = check-Fails ch receive _ closed
code-Fails ch receive (leave closed_error none) closed at before = tt
code-Fails ch (non_blocking_send v) entry closed at before = tt
code-Fails ch (non_blocking_send v) test closed at before =
    check-Fails ch (non_blocking_send v) _ closed
code-Fails ch (non_blocking_send v) (leave closed_error none) closed at before = tt
code-Fails ch non_blocking_receive entry closed at before = tt
code-Fails ch non_blocking_receive test closed at before =
    check-Fails ch non_blocking_receive _ closed
code-Fails ch non_blocking_receive (leave closed_error none) closed at before = tt
code-Fails ch close entry closed at before = tt
code-Fails ch close test closed at before = check-Fails ch close _ closed
code-Fails ch close (leave closed_error none) closed at before = tt
code-Fails ch c p closed at before = absurd (assumption (at, before))

BeforeTest-update :
    (pc : ℕ → Pc) (j : ℕ) (q : Pc) (i : ℕ)
    → (j ≡ i → BeforeTest q)
    → BeforeTest (pc i)
    → BeforeTest (update pc j q i)
BeforeTest-update pc j q i moved before = elim (Bool-cases (j == i)) [
  | inl same ↦ rw same (moved (ground arith))
  | inr other ↦ rw other before
]

moved_from : (pc : ℕ → Pc) (i j : ℕ) {q : Pc} → BeforeTest (pc i) → pc j ≡ q → j ≡ i → BeforeTest q
moved_from pc i j before here same =
    subst BeforeTest here (subst (λ k. BeforeTest (pc k)) (sym same) before)

-- What thread `i` at a point does on a closed channel, if it is before its test.
fails :
    {n capacity : ℕ} {s : System} (inv : Inv n capacity s) (closed : s.channel.closed ≡ 0) (i : ℕ)
    → BeforeTest (s.pc i)
    → (j : ℕ) {c : Call} {p : Point} → s.pc j ≡ running c p
    → (a : Action) → code c p (some s.channel) ≡ a
    → j ≡ i
    → Fails s.channel c a
fails {s} inv closed i before j {c} {p} here a e same = subst (Fails s.channel c) e (
    code-Fails s.channel c p closed (subst (IsAt s.channel) here (inv.at j))
      (moved_from s.pc i j before here same))

wake-BeforeTest : (cond : Cond) (p : Pc) → BeforeTest p → BeforeTest (wake cond p)
wake-BeforeTest read (asleep c read p) before = before
wake-BeforeTest write (asleep c write p) before = before
wake-BeforeTest read p before = before
wake-BeforeTest write p before = before

pub Step-BeforeTest :
    {n capacity : ℕ} {s t : System}
    → Inv n capacity s
    → s.channel.closed ≡ 0
    → Step n s t
    → (i : ℕ) → BeforeTest (s.pc i)
    → BeforeTest (t.pc i)
Step-BeforeTest {s} inv closed (call j c lt here) i b =
    BeforeTest-update s.pc j (running c entry) i (λ _. tt) b
Step-BeforeTest {s} inv closed (lock j c p q lt here e free) i b =
    BeforeTest-update s.pc j (running c q) i (fails inv closed i b j here (acquire q) e) b
Step-BeforeTest {s} inv closed (relock j c p lt here free) i b =
    BeforeTest-update s.pc j (running c p) i
      (λ same. subst (λ x. BeforeTest (running c x)) (sym (moved_from s.pc i j b here same)) tt) b
Step-BeforeTest {s} inv closed (run j c p q ch lt here e) i b =
    BeforeTest-update s.pc j (running c q) i (fails inv closed i b j here (goto q ch) e) b
Step-BeforeTest {s} inv closed (sleep j c p q cond lt here e) i b =
    BeforeTest-update s.pc j (asleep c cond q) i
      (λ same. absurd (fails inv closed i b j here (wait_on cond q) e same)) b
Step-BeforeTest {s} inv closed (signal_one j k c d p q r cond lt lt_k here e there) i b =
    BeforeTest-update (update s.pc k (woken d r)) j (running c q) i
      (λ same. absurd (fails inv closed i b j here (signal cond q) e same))
      (BeforeTest-update s.pc k (woken d r) i (moved_from s.pc i k b there) b)
Step-BeforeTest {s} inv closed (signal_none j c p q cond lt here e nobody) i b =
    BeforeTest-update s.pc j (running c q) i
      (λ same. absurd (fails inv closed i b j here (signal cond q) e same)) b
Step-BeforeTest {s} inv closed (wake_all j c p q cond lt here e) i b =
    BeforeTest-update (λ k. wake cond (s.pc k)) j (running c q) i
      (λ same. absurd (fails inv closed i b j here (broadcast cond q) e same))
      (wake-BeforeTest cond (s.pc i) b)
Step-BeforeTest {s} inv closed (release j c p status out lt here e) i b =
    BeforeTest-update s.pc j (returned c status out) i
      (fails inv closed i b j here (unlock status out) e) b
Step-BeforeTest {s} inv closed (give_up j c p status lt here e) i b = absurd (good inv j lt here e)
Step-BeforeTest {s} inv closed (spurious j c p cond lt here) i b =
    BeforeTest-update s.pc j (woken c p) i (moved_from s.pc i j b here) b
Step-BeforeTest {s} inv closed (finish j c status out lt here) i b =
    BeforeTest-update s.pc j idle i (λ _. tt) b

-- A step leaves a closed channel, and the history, as they are.
pub Step-closed :
    {n capacity : ℕ} {s t : System}
    → Inv n capacity s
    → s.channel.closed ≡ 0
    → Step n s t
    → (t.channel ≡ s.channel) × (t.history ≡ s.history)
Step-closed {s} inv closed (run j c p q ch lt here e) =
    let (nothing, same) = (good inv j lt here e).shut closed in (same, rw (nothing, append-nil))
Step-closed inv closed (call i c lt here) = (refl, refl)
Step-closed inv closed st = (refl, refl)
