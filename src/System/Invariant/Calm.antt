-- ===== src/System/Invariant/Calm.antt =====
-- How much a thread counts for the wake-ups at the places where it stands outside of the code.
use concurrencylab.Common.{◌≡◌, refl, true, arith, Option, Pointer}
use concurrencylab.Channel.{
  ChannelStatus, Channel, Cond, read, write, Point, entry, retest, Call, send, receive,
}
use concurrencylab.System.{Pc, idle, running, asleep, woken, returned, sleeps, wake}
use concurrencylab.System.Facts.{inside, IsAt, At, Resumes, Waits, active, closing}
use concurrencylab.System.Local.{same}
use concurrencylab.System.Invariant.Moves.{Calm}

pub sleeps-running : (k : Cond) (c : Call) (p : Point) → sleeps k (running c p) ≡ 0
sleeps-running read c p = refl
sleeps-running write c p = refl

pub idle-Calm : (k : Cond) (c : Call) → Calm idle (running c entry) k
idle-Calm read (send v) = omega arith
idle-Calm read c = omega arith
idle-Calm write (send v) = omega arith
idle-Calm write c = omega arith

pub asleep-Calm :
    (k : Cond) (c : Call) (cond : Cond) (p : Point) → Calm (asleep c cond p) (woken c p) k
asleep-Calm read c cond p = omega arith
asleep-Calm write c cond p = omega arith

pub returned-Calm :
    (k : Cond) (c : Call) (status : ChannelStatus) (out : Option Pointer)
    → Calm (returned c status out) idle k
returned-Calm read c status out = omega arith
returned-Calm write c status out = omega arith

pub returned-zero :
    (k : Cond) (c : Call) (status : ChannelStatus) (out : Option Pointer)
    → (sleeps k (returned c status out) ≡ 0) × (closing k (returned c status out) ≡ 0)
returned-zero read c status out = (refl, refl)
returned-zero write c status out = (refl, refl)

-- A woken thread that gets the lock goes on at the second test.
pub woken-Resumes :
    (ch : Channel) (c : Call) (p : Point)
    → Resumes c p
    → At ch c p × (inside (running c p) ≡ true) × ((k : Cond) → Calm (woken c p) (running c p) k)
woken-Resumes ch (send v) retest r = (tt, refl, elim [ read ↦ omega arith | write ↦ omega arith ])
woken-Resumes ch receive retest r = (tt, refl, elim [ read ↦ omega arith | write ↦ omega arith ])
woken-Resumes ch c p r = elim r [ ]

-- A thread that is woken on its condition variable resumes, and counts there.
pub Waits-Resumes :
    (c : Call) (cond : Cond) (p : Point)
    → Waits c cond p
    → Resumes c p × (active cond (woken c p) ≡ 1)
Waits-Resumes (send v) read retest w = (tt, refl)
Waits-Resumes receive write retest w = (tt, refl)
Waits-Resumes c cond p w = elim w [ ]

pub wake-IsAt :
    (ch : Channel) (cond : Cond) (p : Pc)
    → IsAt ch p
    → IsAt ch (wake cond p) × (inside (wake cond p) ≡ inside p)
wake-IsAt ch read (asleep c read p) w = ((Waits-Resumes c read p w).0, refl)
wake-IsAt ch write (asleep c write p) w = ((Waits-Resumes c write p w).0, refl)
wake-IsAt ch read p w = (w, refl)
wake-IsAt ch write p w = (w, refl)

pub sleeps-wake : (k : Cond) (p : Pc) → sleeps k (wake k p) ≡ 0
sleeps-wake read (asleep c read p) = refl
sleeps-wake read p = refl
sleeps-wake write (asleep c write p) = refl
sleeps-wake write p = refl

pub sleeps-wake_ne :
    (k cond : Cond) (p : Pc) → same k cond ≡ 0 → sleeps k (wake cond p) ≡ sleeps k p
sleeps-wake_ne read write (asleep c write p) e = refl
sleeps-wake_ne read write p e = refl
sleeps-wake_ne write read (asleep c read p) e = refl
sleeps-wake_ne write read p e = refl
sleeps-wake_ne k cond p e = absurd (omega arith)

pub closing-wake : (k cond : Cond) (p : Pc) → closing k (wake cond p) ≡ closing k p
closing-wake read read (asleep c read p) = refl
closing-wake read write (asleep c write p) = refl
closing-wake write read (asleep c read p) = refl
closing-wake write write (asleep c write p) = refl
closing-wake k cond p = refl

pub wake-running : (cond : Cond) (c : Call) (p : Point) → wake cond (running c p) ≡ running c p
wake-running read c p = refl
wake-running write c p = refl
