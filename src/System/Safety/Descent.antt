-- ===== src/System/Safety/Descent.antt =====
-- Each statement under the lock leaves fewer of them before the lock is given back.
use concurrencylab.Common.{
  ℕ, ◌<◌, ◌≡◌, inl, inr, refl, arith, some, Bool-cases, Option-cases, ◌==◌, leb,
}
use concurrencylab.Buffer.{
  buffer_error, buffer_success, buffer_add, buffer_remove, buffer_capacity, buffer_current_size,
}
use concurrencylab.Channel.{
  Channel, Point, entry, test, room, attempt, retest, notify, clear, notify_write, notify_read,
  leave, Action, crash, acquire, goto, wait_on, signal, broadcast, unlock, quit, Call, send,
  receive, non_blocking_send, non_blocking_receive, close, code, check_open,
}
use concurrencylab.System.{Pc, running}

-- How many statements there are at most before the lock is given back.
abbrev pub left : Point → ℕ
left entry = 0
left (leave status out) = 1
left (notify out) = 2
left notify_read = 2
left notify_write = 3
left attempt = 3
left room = 4
left clear = 4
left retest = 4
left test = 5

abbrev pub remaining : Pc → ℕ
remaining (running c p) = left p
remaining _ = 0

abbrev pub Descends : Point → Action → Type 0
Descends p (goto q ch) = left q < left p
Descends p (signal cond q) = left q < left p
Descends p (broadcast cond q) = left q < left p
Descends p (wait_on cond q) = 0 < left p
Descends p (unlock status out) = 0 < left p
Descends p (acquire q) = left p ≡ 0
Descends p (quit status) = left p ≡ 0
Descends p crash = Unit

check_open-Descends :
    (ch : Channel) (p q : Point) → left q < left p → 1 < left p → Descends p (check_open ch q)
check_open-Descends ch p q lt more = elim (Bool-cases (ch.closed == 0)) [
  | inl shut ↦ rw shut more
  | inr opened ↦ rw opened lt
]

pub code-Descends : (ch : Channel) (c : Call) (p : Point) → Descends p (code c p (some ch))
unfolding code buffer_capacity buffer_current_size
code-Descends ch (send v) entry = refl
code-Descends ch (send v) test = check_open-Descends ch test attempt (omega arith) (omega arith)
code-Descends ch (send v) attempt = elim (Option-cases (buffer_add ch.buffer v)) [
  | inl e ↦ rw (e, Descends) tt
  | inr ((buffer_error, b), e) ↦ rw (e, Descends) (omega arith)
  | inr ((buffer_success, b), e) ↦ rw (e, Descends) (omega arith)
]
code-Descends ch (send v) retest = check_open-Descends ch retest attempt (omega arith) (omega arith)
code-Descends ch (send v) (notify out) = omega arith
code-Descends ch (send v) (leave status out) = omega arith
code-Descends ch (send v) room = tt
code-Descends ch (send v) clear = tt
code-Descends ch (send v) notify_write = tt
code-Descends ch (send v) notify_read = tt
code-Descends ch receive entry = refl
code-Descends ch receive test = check_open-Descends ch test attempt (omega arith) (omega arith)
code-Descends ch receive attempt = elim (Option-cases (buffer_remove ch.buffer)) [
  | inl e ↦ rw (e, Descends) tt
  | inr ((buffer_error, out, b), e) ↦ rw (e, Descends) (omega arith)
  | inr ((buffer_success, out, b), e) ↦ rw (e, Descends) (omega arith)
]
code-Descends ch receive retest = check_open-Descends ch retest attempt (omega arith) (omega arith)
code-Descends ch receive (notify out) = omega arith
code-Descends ch receive (leave status out) = omega arith
code-Descends ch receive room = tt
code-Descends ch receive clear = tt
code-Descends ch receive notify_write = tt
code-Descends ch receive notify_read = tt
code-Descends ch (non_blocking_send v) entry = refl
code-Descends ch (non_blocking_send v) test =
    check_open-Descends ch test room (omega arith) (omega arith)
code-Descends ch (non_blocking_send v) room =
    elim (Bool-cases (leb ch.buffer.capacity ch.buffer.size)) [
      | inl full ↦ rw (full, Descends) (omega arith)
      | inr space ↦ rw (space, Descends) (omega arith)
    ]
code-Descends ch (non_blocking_send v) attempt = elim (Option-cases (buffer_add ch.buffer v)) [
  | inl e ↦ rw (e, Descends) tt
  | inr ((status, b), e) ↦ rw (e, Descends) (omega arith)
]
code-Descends ch (non_blocking_send v) retest = tt
code-Descends ch (non_blocking_send v) (notify out) = omega arith
code-Descends ch (non_blocking_send v) (leave status out) = omega arith
code-Descends ch (non_blocking_send v) clear = tt
code-Descends ch (non_blocking_send v) notify_write = tt
code-Descends ch (non_blocking_send v) notify_read = tt
code-Descends ch non_blocking_receive entry = refl
code-Descends ch non_blocking_receive test =
    check_open-Descends ch test room (omega arith) (omega arith)
code-Descends ch non_blocking_receive room = elim (Bool-cases (ch.buffer.size == 0)) [
  | inl empty ↦ rw (empty, Descends) (omega arith)
  | inr there ↦ rw (there, Descends) (omega arith)
]
code-Descends ch non_blocking_receive attempt = elim (Option-cases (buffer_remove ch.buffer)) [
  | inl e ↦ rw (e, Descends) tt
  | inr ((status, out, b), e) ↦ rw (e, Descends) (omega arith)
]
code-Descends ch non_blocking_receive retest = tt
code-Descends ch non_blocking_receive (notify out) = omega arith
code-Descends ch non_blocking_receive (leave status out) = omega arith
code-Descends ch non_blocking_receive clear = tt
code-Descends ch non_blocking_receive notify_write = tt
code-Descends ch non_blocking_receive notify_read = tt
code-Descends ch close entry = refl
code-Descends ch close test = check_open-Descends ch test clear (omega arith) (omega arith)
code-Descends ch close clear = omega arith
code-Descends ch close notify_write = omega arith
code-Descends ch close notify_read = omega arith
code-Descends ch close (leave status out) = omega arith
code-Descends ch close room = tt
code-Descends ch close attempt = tt
code-Descends ch close retest = tt
code-Descends ch close (notify out) = tt
