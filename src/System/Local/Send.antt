-- ===== src/System/Local/Send.antt =====
-- The statements of channel_send and channel_non_blocking_send.
use concurrencylab.Common.{inl, inr, refl, sym, none, some, arith, leb, Bool-cases, dec_lt, Pointer}
use concurrencylab.Buffer.{buffer_capacity, buffer_current_size}
use concurrencylab.Buffer.Refine.{add_of_room, add_of_full}
use concurrencylab.Channel.{
  channel_empty, Channel, Point, entry, test, room, attempt, retest, notify, leave, send,
  non_blocking_send, code,
}
use concurrencylab.System.Facts.{At}
use concurrencylab.System.Local.Defs.{IsOpenOrClosed, Good, stays, check_open-Good}

pub send-Good :
    (ch : Channel) (v : Pointer) (p : Point)
    → IsOpenOrClosed ch
    → At ch (send v) p
    → Good ch (send v) p (code (send v) p (some ch))
unfolding code
send-Good ch v entry ok at = ground arith
send-Good ch v test ok at =
    check_open-Good ch (send v) test attempt ok tt (λ e. e) refl refl refl (omega arith)
      (refl, refl)
send-Good ch v attempt ok at = elim (dec_lt ch.buffer.size ch.buffer.capacity) [
  | yes room_left ↦
      let (result, appended, kept) = add_of_room ch.buffer v ok.valid room_left in
      rw (result, Good)
        (record {
          fine = ground arith;
          capacity = refl;
          at_next = at;
          from_inside = refl;
          to_inside = refl;
          queue = sym appended;
          shut = λ closed. absurd (omega arith);
          cares = (inl (omega arith), inl (omega arith));
        })
  | no full ↦
      rw (add_of_full ch.buffer v (omega arith), Good)
        (tt, refl, at, (inl (omega arith), inr (refl, refl)))
]
send-Good ch v retest ok at =
    check_open-Good ch (send v) retest attempt ok tt (λ e. e) refl refl refl (omega arith)
      (refl, refl)
send-Good ch v (notify none) ok at = ground arith
send-Good ch v (leave status out) ok at = ground arith
send-Good ch v p ok at = elim at [ ]

pub non_blocking_send-Good :
    (ch : Channel) (v : Pointer) (p : Point)
    → IsOpenOrClosed ch
    → At ch (non_blocking_send v) p
    → Good ch (non_blocking_send v) p (code (non_blocking_send v) p (some ch))
unfolding code buffer_capacity buffer_current_size
non_blocking_send-Good ch v entry ok at = ground arith
non_blocking_send-Good ch v test ok at =
    check_open-Good ch (non_blocking_send v) test room ok tt (λ e. e) refl refl refl (omega arith)
      (refl, refl)
non_blocking_send-Good ch v room ok at = elim (Bool-cases (leb ch.buffer.capacity ch.buffer.size)) [
  | inl full ↦
      rw (full, Good)
        (stays ch (non_blocking_send v) room (leave channel_empty none) ok tt refl refl refl
          (inl (omega arith), inl (omega arith)))
  | inr room_left ↦
      rw (room_left, Good)
        (stays ch (non_blocking_send v) room attempt ok (ground arith) refl refl refl
          (inl (omega arith), inl (omega arith)))
]
non_blocking_send-Good ch v attempt ok at =
    let (result, appended, kept) = add_of_room ch.buffer v ok.valid (at.1) in
    rw (result, Good)
      (record {
        fine = ground arith;
        capacity = refl;
        at_next = at.0;
        from_inside = refl;
        to_inside = refl;
        queue = sym appended;
        shut = λ closed. absurd (omega arith);
        cares = (inl (omega arith), inl (omega arith));
      })
non_blocking_send-Good ch v (notify none) ok at = ground arith
non_blocking_send-Good ch v (leave status out) ok at = ground arith
non_blocking_send-Good ch v p ok at = elim at [ ]
