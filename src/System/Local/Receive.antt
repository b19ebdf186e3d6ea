-- ===== src/System/Local/Receive.antt =====
-- The statements of channel_receive and channel_non_blocking_receive.
use concurrencylab.Common.{inl, inr, refl, ◌∙◌, none, some, arith, ◌==◌, Bool-cases, dec_lt}
use mathlib.Core.List.{append-nil}
use concurrencylab.Buffer.{buffer_current_size}
use concurrencylab.Buffer.Refine.{contents, remove_of_some, remove_of_empty}
use concurrencylab.Channel.{
  channel_empty, Channel, Point, entry, test, room, attempt, retest, notify, leave, receive,
  non_blocking_receive, code,
}
use concurrencylab.System.Facts.{At}
use concurrencylab.System.Local.Defs.{IsOpenOrClosed, Good, stays, check_open-Good}

pub receive-Good :
    (ch : Channel) (p : Point)
    → IsOpenOrClosed ch
    → At ch receive p
    → Good ch receive p (code receive p (some ch))
unfolding code
receive-Good ch entry ok at = ground arith
receive-Good ch test ok at =
    check_open-Good ch receive test attempt ok tt (λ e. e) refl refl refl (omega arith) (refl, refl)
receive-Good ch attempt ok at = elim (dec_lt 0 ch.buffer.size) [
  | yes some_left ↦
      let (result, front, kept) = remove_of_some ch.buffer ok.valid some_left in
      rw (result, Good)
        (record {
          fine = ground arith;
          capacity = refl;
          at_next = at;
          from_inside = refl;
          to_inside = refl;
          queue = append-nil (contents ch.buffer) ∙ front;
          shut = λ closed. absurd (omega arith);
          cares = (inl (omega (arith, ok.valid)), inl (omega arith));
        })
  | no empty ↦
      rw (remove_of_empty ch.buffer (omega arith), Good)
        (tt, refl, at, (inr (refl, refl), inl (omega arith)))
]
receive-Good ch retest ok at =
    check_open-Good ch receive retest attempt ok tt (λ e. e) refl refl refl (omega arith)
      (refl, refl)
receive-Good ch (notify (some v)) ok at = ground arith
receive-Good ch (leave status out) ok at = ground arith
receive-Good ch p ok at = elim at [ ]

pub non_blocking_receive-Good :
    (ch : Channel) (p : Point)
    → IsOpenOrClosed ch
    → At ch non_blocking_receive p
    → Good ch non_blocking_receive p (code non_blocking_receive p (some ch))
unfolding code buffer_current_size
non_blocking_receive-Good ch entry ok at = ground arith
non_blocking_receive-Good ch test ok at =
    check_open-Good ch non_blocking_receive test room ok tt (λ e. e) refl refl refl (omega arith)
      (refl, refl)
non_blocking_receive-Good ch room ok at = elim (Bool-cases (ch.buffer.size == 0)) [
  | inl empty ↦
      rw (empty, Good)
        (stays ch non_blocking_receive room (leave channel_empty none) ok tt refl refl refl
          (inl (omega arith), inl (omega arith)))
  | inr some_left ↦
      rw (some_left, Good)
        (stays ch non_blocking_receive room attempt ok (ground arith) refl refl refl
          (inl (omega arith), inl (omega arith)))
]
non_blocking_receive-Good ch attempt ok at =
    let (result, front, kept) = remove_of_some ch.buffer ok.valid (at.1) in
    rw (result, Good)
      (record {
        fine = ground arith;
        capacity = refl;
        at_next = at.0;
        from_inside = refl;
        to_inside = refl;
        queue = append-nil (contents ch.buffer) ∙ front;
        shut = λ closed. absurd (omega arith);
        cares = (inl (omega (arith, ok.valid)), inl (omega arith));
      })
non_blocking_receive-Good ch (notify (some v)) ok at = ground arith
non_blocking_receive-Good ch (leave status out) ok at = ground arith
non_blocking_receive-Good ch p ok at = elim at [ ]
