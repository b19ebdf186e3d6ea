-- ===== src/Channel/Alone/Steps.antt =====
-- An undisturbed call, statement by statement.
use concurrencylab.Common.{ℕ, suc, ◌≡◌, ◌≢◌, refl, some, none, true, false, ◌==◌, arith, ap}
use concurrencylab.Channel.{
  closed_error, Channel, Point, entry, test, room, attempt, clear, leave, check_open, Action, crash,
  acquire, goto, wait_on, signal, broadcast, unlock, quit, receive, non_blocking_receive, Call,
  send, non_blocking_send, close, code,
}
use concurrencylab.Channel.Alone.{Outcome, returns, waits, fault, alone}

-- The rest of an undisturbed call, behind an action at its present point.
abbrev pub resume : ℕ → Call → Channel → Action → Outcome
resume fuel c ch a = elim a [
  | crash ↦ fault
  | acquire q ↦ alone fuel c q ch
  | goto q ch' ↦ alone fuel c q ch'
  | wait_on cond q ↦ waits ch
  | signal cond q ↦ alone fuel c q ch
  | broadcast cond q ↦ alone fuel c q ch
  | unlock status out ↦ returns status out ch
  | quit status ↦ returns status none ch
]

pub alone-step :
    (fuel : ℕ) (c : Call) (p : Point) (ch : Channel) {a : Action}
    → code c p (some ch) ≡ a
    → alone (suc fuel) c p ch ≡ resume fuel c ch a
unfolding alone
alone-step fuel c p ch e = ap (resume fuel c ch) e

pub check-shut :
    (ch : Channel) (q : Point) → ch.closed ≡ 0 → check_open ch q ≡ goto (leave closed_error none) ch
check-shut ch q closed = let shut : (ch.closed == 0) ≡ true = ground arith in rw shut refl

pub check-open : (ch : Channel) (q : Point) → ch.closed ≢ 0 → check_open ch q ≡ goto q ch
check-open ch q opened = let not_shut : (ch.closed == 0) ≡ false = ground arith in rw not_shut refl

pub closed-alone :
    (c : Call) (ch : Channel) → ch.closed ≡ 0 → alone 8 c entry ch ≡ returns closed_error none ch
unfolding alone code
closed-alone (send v) ch closed = alone-step 6 (send v) test ch (check-shut ch attempt closed)
closed-alone receive ch closed = alone-step 6 receive test ch (check-shut ch attempt closed)
closed-alone (non_blocking_send v) ch closed =
    alone-step 6 (non_blocking_send v) test ch (check-shut ch room closed)
closed-alone non_blocking_receive ch closed =
    alone-step 6 non_blocking_receive test ch (check-shut ch room closed)
closed-alone close ch closed = alone-step 6 close test ch (check-shut ch clear closed)
