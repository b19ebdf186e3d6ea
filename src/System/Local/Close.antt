-- ===== src/System/Local/Close.antt =====
-- The statements of channel_close.
use concurrencylab.Common.{inl, inr, refl, some, arith}
use mathlib.Core.List.{append-nil}
use concurrencylab.Buffer.Refine.{contents}
use concurrencylab.Channel.{
  Channel, Point, entry, test, clear, notify_write, notify_read, leave, close, code,
}
use concurrencylab.System.Facts.{At}
use concurrencylab.System.Local.Defs.{IsOpenOrClosed, Good, check_open-Good}

pub close-Good :
    (ch : Channel) (p : Point)
    → IsOpenOrClosed ch
    → At ch close p
    → Good ch close p (code close p (some ch))
unfolding code
close-Good ch entry ok at = ground arith
close-Good ch test ok at =
    check_open-Good ch close test clear ok tt (λ e. e) refl refl refl (omega arith) (refl, refl)
close-Good ch clear ok at = record {
  fine = record { valid = ok.valid; flag = omega arith };
  capacity = refl;
  at_next = refl;
  from_inside = refl;
  to_inside = refl;
  queue = append-nil (contents ch.buffer);
  shut = λ closed. absurd (omega arith);
  cares = (inr (inl (at, refl, refl)), inr (inl (at, refl, refl)));
}
close-Good ch notify_write ok at = ground arith
close-Good ch notify_read ok at = ground arith
close-Good ch (leave status out) ok at = ground arith
close-Good ch p ok at = elim at [ ]
