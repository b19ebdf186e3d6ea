-- ===== src/System/Local/Defs.antt =====
-- What an action of the channel functions has to keep, and the test of `closed` that they share.
use concurrencylab.Common.{
  ℕ, ◌+◌, ◌≤◌, ◌≡◌, ◌⊎◌, inl, inr, refl, Option, none, true, [], ◌++◌, arith, ◌==◌, Bool-cases,
  Pointer,
}
use mathlib.Core.List.{append-nil}
use concurrencylab.Buffer.Invariant.{IsValid}
use concurrencylab.Buffer.Refine.{contents}
use concurrencylab.Channel.{
  ChannelStatus, closed_error, Channel, Cond, read, write, Point, leave, Action, crash, acquire,
  goto, wait_on, signal, broadcast, unlock, quit, Call, send, check_open,
}
use concurrencylab.System.{Pc, running, asleep, sleeps, events, puts, gots}
use concurrencylab.System.Facts.{inside, At, Waits, IsResult, demand, active, closing}

abbrev pub Both {ℓ} : (Cond → Type ℓ) → Type ℓ
Both P = P read × P write

-- 1 if the two are one condition variable
abbrev pub same : Cond → Cond → ℕ
same read read = 1
same write write = 1
same _ _ = 0

-- The channel's part of the invariant.
pub record IsOpenOrClosed (ch : Channel) : Type 0 where
  pub valid : IsValid ch.buffer
  pub flag : ch.closed ≤ 1

-- The move from one point to another leaves the threads that sleep on `cond` cared for.
abbrev pub Cares : Channel → Pc → Channel → Pc → Cond → Type 0
Cares ch p ch' q cond =
    ((ch.closed ≡ 1)
      × (ch'.closed ≡ 1)
      × (demand cond ch' + active cond p ≤ demand cond ch + active cond q))
    ⊎ (((ch.closed ≡ 1) × (ch'.closed ≡ 0) × (closing cond q ≡ 1))
        ⊎ ((ch.closed ≡ 0) × (ch'.closed ≡ 0) × (closing cond q ≡ closing cond p)))

pub record Moved (ch : Channel) (c : Call) (p q : Point) (ch' : Channel) : Type 0 where
  pub fine : IsOpenOrClosed ch'
  pub capacity : ch'.buffer.capacity ≡ ch.buffer.capacity
  pub at_next : At ch' c q
  pub from_inside : inside (running c p) ≡ true
  pub to_inside : inside (running c q) ≡ true
  pub queue : contents ch.buffer ++ puts (events c q) ≡ gots (events c q) ++ contents ch'.buffer
  pub shut : ch.closed ≡ 0 → (events c q ≡ []) × (ch' ≡ ch)
  pub cares : Both (Cares ch (running c p) ch' (running c q))

-- What the action at a point means for the channel and the other threads.
abbrev pub Good : Channel → Call → Point → Action → Type 0
Good ch c p crash = ⊥
Good ch c p (acquire q) =
    At ch c q
    × (inside (running c q) ≡ true)
    × Both (λ cond. active cond (running c q) ≡ active cond (running c p))
    × Both (λ cond. closing cond (running c q) ≡ closing cond (running c p))
Good ch c p (goto q ch') = Moved ch c p q ch'
Good ch c p (wait_on cond q) =
    Waits c cond q
    × (inside (running c p) ≡ true)
    × (ch.closed ≡ 1)
    × Both
        (λ k. (demand k ch ≡ 0) ⊎ ((active k (running c p) ≡ 0) × (sleeps k (asleep c cond q) ≡ 0)))
Good ch c p (signal cond q) =
    At ch c q
    × (inside (running c p) ≡ true)
    × (inside (running c q) ≡ true)
    × Both (λ k. active k (running c p) ≤ same k cond)
    × Both (λ k. closing k (running c p) ≡ 0)
    × (ch.closed ≡ 1)
Good ch c p (broadcast cond q) =
    At ch c q
    × (inside (running c p) ≡ true)
    × (inside (running c q) ≡ true)
    × (ch.closed ≡ 0)
    × Both (λ k. (same k cond ≡ 1) ⊎ (closing k (running c q) ≡ closing k (running c p)))
Good ch c p (unlock status out) =
    IsResult c status out
    × (inside (running c p) ≡ true)
    × Both (λ k. active k (running c p) ≡ 0)
    × Both (λ k. closing k (running c p) ≡ 0)
Good ch c p (quit status) = ⊥

-- A move that leaves the channel alone, in a record of its own.
pub stays :
    (ch : Channel) (c : Call) (p q : Point)
    → IsOpenOrClosed ch
    → At ch c q
    → inside (running c p) ≡ true
    → inside (running c q) ≡ true
    → events c q ≡ []
    → Both (Cares ch (running c p) ch (running c q))
    → Moved ch c p q ch
stays ch c p q fine at_next from to no_events cares = record {
  fine = fine;
  capacity = refl;
  at_next = at_next;
  from_inside = from;
  to_inside = to;
  queue = rw (no_events, append-nil);
  shut = λ _. (no_events, refl);
  cares = cares;
}

events-leave :
    (c : Call) (status : ChannelStatus) (out : Option Pointer) → events c (leave status out) ≡ []
events-leave (send v) status out = refl
events-leave c status out = refl

closing-leave :
    (k : Cond) (c : Call) (status : ChannelStatus) (out : Option Pointer)
    → closing k (running c (leave status out)) ≡ 0
closing-leave read (send v) status out = refl
closing-leave read c status out = refl
closing-leave write (send v) status out = refl
closing-leave write c status out = refl

-- A function goes on behind its test of `closed`, or leaves.
pub check_open-Good :
    (ch : Channel) (c : Call) (p next : Point)
    → IsOpenOrClosed ch
    → IsResult c closed_error none
    → (ch.closed ≡ 1 → At ch c next)
    → inside (running c p) ≡ true
    → inside (running c next) ≡ true
    → events c next ≡ []
    → Both (λ k. active k (running c p) ≤ active k (running c next))
    → Both (λ k. closing k (running c p) ≡ 0)
    → Good ch c p (check_open ch next)
check_open-Good ch c p next ok result at_next from to no_events more none_closing =
    elim (Bool-cases (ch.closed == 0)) [
      | inl shut ↦
          let closed : ch.closed ≡ 0 = ground arith in
          let gone = events-leave c closed_error none in
          let read_leave = closing-leave read c closed_error none in
          let write_leave = closing-leave write c closed_error none in
          rw shut (
            stays ch c p (leave closed_error none) ok result from refl gone
              (inr (inr (closed, closed, omega arith)), inr (inr (closed, closed, omega arith))))
      | inr not_shut ↦
          let opened : ch.closed ≡ 1 = ground (arith, ok) in
          rw not_shut (
            stays ch c p next ok (at_next opened) from to no_events
              (inl (opened, opened, omega arith), inl (opened, opened, omega arith)))
    ]
