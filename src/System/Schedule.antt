-- ===== src/System/Schedule.antt =====
-- Reachable states by evaluation: the threads move in a given order, and a signal wakes the sleeper
-- with the highest number.
use mathlib.Core.List.{foldl}
use concurrencylab.Common.{
  ℕ, zero, suc, ◌<◌, ◌≡◌, ◌⊎◌, inl, inr, refl, Option, none, some, List, ◌∷◌, arith, dec_lt,
  replicate,
}
use concurrencylab.Channel.{
  Channel, Cond, read, write, Point, Action, crash, acquire, goto, wait_on, signal, broadcast,
  unlock, quit, Call, code,
}
use concurrencylab.System.{
  System, Pc, idle, running, asleep, woken, returned, sleeps, Reach, start, later, call, lock,
  relock, run, sleep, signal_one, signal_none, wake_all, release, give_up, finish, start_of,
}

-- The next thing in a schedule: thread `i` makes a call, or goes on.
pub data Turn : Type 0 where
  begin : ℕ → Call → Turn
  go : ℕ → Turn

pub record Run (n : ℕ) (ch : Channel) : Type 0 where
  pub last : System
  pub open last use *
  pub reach : Reach n ch last

is_asleep :
    (cond : Cond) (x : Pc)
    → ((c : Call) × (p : Point) × (x ≡ asleep c cond p)) ⊎ (sleeps cond x ≡ 0)
is_asleep read (asleep c read p) = inl (c, p, refl)
is_asleep write (asleep c write p) = inl (c, p, refl)
is_asleep read x = inr refl
is_asleep write x = inr refl

find_sleeper :
    (cond : Cond) (pc : ℕ → Pc) (n : ℕ)
    → ((j : ℕ) × (j < n) × ((c : Call) × (p : Point) × (pc j ≡ asleep c cond p)))
      ⊎ ((j : ℕ) → j < n → sleeps cond (pc j) ≡ 0)
find_sleeper cond pc zero = inr (λ j lt. absurd (omega arith))
find_sleeper cond pc (suc n) = elim (is_asleep cond (pc n)) [
  | inl found ↦ inl (n, omega arith, found)
  | inr awake ↦ elim (find_sleeper cond pc n) [
    | inl (j, lt, found) ↦ inl (j, omega arith, found)
    | inr nobody ↦
        inr (λ j lt. elim (dec_lt j n) [ yes below ↦ nobody j below | no last ↦ ground arith ])
  ]
]

is_free : (o : Option ℕ) → (o ≡ none) ⊎ Unit {0}
is_free none = inl refl
is_free (some i) = inr tt

-- One statement of a running thread; it stays where it is if it cannot get the lock.
act :
    {n : ℕ} {ch : Channel} (r : Run n ch) (i : ℕ)
    → i < n
    → (c : Call) (p : Point) → r.pc i ≡ running c p
    → (a : Action) → code c p (some r.channel) ≡ a
    → Run n ch
unfolding find_sleeper is_asleep is_free
act r i lt c p here crash e = r
act r i lt c p here (acquire q) e = elim (is_free r.owner) [
  | inl free ↦ record { last = _; reach = later r.reach (lock i c p q lt here e free) }
  | inr _ ↦ r
]
act r i lt c p here (goto q ch') e = record {
  last = _;
  reach = later r.reach (run i c p q ch' lt here e);
}
act r i lt c p here (wait_on cond q) e = record {
  last = _;
  reach = later r.reach (sleep i c p q cond lt here e);
}
act {n} r i lt c p here (signal cond q) e = elim (find_sleeper cond r.pc n) [
  | inl (j, lt_j, (d, p', there)) ↦ record {
    last = _;
    reach = later r.reach (signal_one i j c d p q p' cond lt lt_j here e there);
  }
  | inr nobody ↦ record {
    last = _;
    reach = later r.reach (signal_none i c p q cond lt here e nobody);
  }
]
act r i lt c p here (broadcast cond q) e = record {
  last = _;
  reach = later r.reach (wake_all i c p q cond lt here e);
}
act r i lt c p here (unlock status out) e = record {
  last = _;
  reach = later r.reach (release i c p status out lt here e);
}
act r i lt c p here (quit status) e = record {
  last = _;
  reach = later r.reach (give_up i c p status lt here e);
}

-- A thread that sleeps stays asleep: no wake-up here is spurious.
go_on : {n : ℕ} {ch : Channel} (r : Run n ch) (i : ℕ) → i < n → (x : Pc) → r.pc i ≡ x → Run n ch
unfolding act
go_on r i lt idle here = r
go_on r i lt (running c p) here = act r i lt c p here (code c p (some r.channel)) refl
go_on r i lt (asleep c cond p) here = r
go_on r i lt (woken c p) here = elim (is_free r.owner) [
  | inl free ↦ record { last = _; reach = later r.reach (relock i c p lt here free) }
  | inr _ ↦ r
]
go_on r i lt (returned c status out) here = record {
  last = _;
  reach = later r.reach (finish i c status out lt here);
}

start_call :
    {n : ℕ} {ch : Channel} (r : Run n ch) (i : ℕ) → i < n → Call → (x : Pc) → r.pc i ≡ x → Run n ch
start_call r i lt c idle here = record { last = _; reach = later r.reach (call i c lt here) }
start_call r i lt c x here = r

turn : {n : ℕ} {ch : Channel} → Run n ch → Turn → Run n ch
unfolding go_on start_call dec_lt
turn {n} r (begin i c) = elim (dec_lt i n) [ yes lt ↦ start_call r i lt c (r.pc i) refl | no _ ↦ r ]
turn {n} r (go i) = elim (dec_lt i n) [ yes lt ↦ go_on r i lt (r.pc i) refl | no _ ↦ r ]

unfoldable pub schedule : (n : ℕ) (ch : Channel) → List Turn → Run n ch
unfolding turn
schedule n ch = foldl turn (record { last = start_of ch; reach = start })

-- thread `i` makes a call and goes on `k` times
abbrev pub turns : ℕ → Call → ℕ → List Turn
turns i c k = begin i c ∷ replicate k (go i)
