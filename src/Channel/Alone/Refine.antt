-- ===== src/Channel/Alone/Refine.antt =====
-- An undisturbed call does what channel.h promises.
use concurrencylab.Common.{
  ◌≡◌, ◌≢◌, some, none, true, false, not, ltb, ◌==◌, if◌then◌else◌, arith, dec_lt, ℕ_discrete,
  length, Pointer, ap, ◌∙◌, sym, [],
}
use concurrencylab.Buffer.Invariant.{IsValid}
use concurrencylab.Buffer.Refine.{
  window_zero, contents, length-contents, add_of_room, remove_of_some,
}
use concurrencylab.Channel.{
  closed_error, Channel, entry, receive, non_blocking_receive, Call, send, non_blocking_send, close,
}
use concurrencylab.Channel.Alone.{alone, view, seen, reply, open_reply, answers}
use concurrencylab.Channel.Alone.Steps.{closed-alone}
use concurrencylab.Channel.Alone.Send.{
  send_of_room, send_of_full, non_blocking_send_of_room, non_blocking_send_of_full, close_of_open,
}
use concurrencylab.Channel.Alone.Receive.{
  receive_of_some, receive_of_empty, non_blocking_receive_of_some, non_blocking_receive_of_empty,
}

send-meets :
    (v : Pointer) (ch : Channel)
    → IsValid ch.buffer
    → ch.closed ≢ 0
    → (seen (alone 8 (send v) entry ch) ≡ some (open_reply (send v) (view ch)))
      × (seen (alone 8 (non_blocking_send v) entry ch)
          ≡ some (open_reply (non_blocking_send v) (view ch)))
send-meets v ch valid opened = elim (dec_lt ch.buffer.size ch.buffer.capacity) [
  | yes room_left ↦
      let fits : ltb (length (contents ch.buffer)) ch.buffer.capacity ≡ true =
        ground (arith, length-contents ch.buffer) in
      let appended = (add_of_room ch.buffer v valid room_left).1 in
      (
        rw (send_of_room v ch valid opened room_left, fits, appended),
        rw (non_blocking_send_of_room v ch valid opened room_left, fits, appended),
      )
  | no full ↦
      let no_fit : ltb (length (contents ch.buffer)) ch.buffer.capacity ≡ false =
        ground (arith, length-contents ch.buffer) in
      (
        rw (send_of_full v ch valid opened (omega arith), no_fit),
        rw (non_blocking_send_of_full v ch valid opened (omega arith), no_fit),
      )
]

receive-meets :
    (ch : Channel)
    → IsValid ch.buffer
    → ch.closed ≢ 0
    → (seen (alone 8 receive entry ch) ≡ some (open_reply receive (view ch)))
      × (seen (alone 8 non_blocking_receive entry ch)
          ≡ some (open_reply non_blocking_receive (view ch)))
receive-meets ch valid opened = elim (dec_lt 0 ch.buffer.size) [
  | yes some_left ↦
      let front = (remove_of_some ch.buffer valid some_left).1 in
      (
        rw (receive_of_some ch valid opened some_left, front),
        rw (non_blocking_receive_of_some ch valid opened some_left, front),
      )
  | no nothing ↦
      let none_left : contents ch.buffer ≡ [] =
        window_zero ch.buffer.slots ch.buffer.capacity ch.buffer.next ch.buffer.size
          (omega arith) in
      (
        rw (receive_of_empty ch valid opened (omega arith), none_left),
        rw (non_blocking_receive_of_empty ch valid opened (omega arith), none_left),
      )
]

open-meets :
    (c : Call) (ch : Channel)
    → IsValid ch.buffer
    → ch.closed ≢ 0
    → seen (alone 8 c entry ch) ≡ some (open_reply c (view ch))
open-meets (send v) ch valid opened = (send-meets v ch valid opened).0
open-meets receive ch valid opened = (receive-meets ch valid opened).0
open-meets (non_blocking_send v) ch valid opened = (send-meets v ch valid opened).1
open-meets non_blocking_receive ch valid opened = (receive-meets ch valid opened).1
open-meets close ch valid opened = rw (close_of_open ch opened)

-- On a channel with a valid buffer, each of the five functions, called by a thread that nobody
-- disturbs, returns or sleeps within eight statements, with no undefined behaviour, and agrees
-- with the FIFO of channel.h in whether it sleeps, and if it returns, in the status, the message,
-- and the messages, the limit and the openness of the channel behind it.
pub undisturbed_meets :
    (c : Call) (ch : Channel)
    → IsValid ch.buffer
    → seen (alone 8 c entry ch) ≡ some (reply c (view ch))
undisturbed_meets c ch valid = elim (ℕ_discrete ch.closed 0) [
  | yes closed ↦
      let shut : (ch.closed == 0) ≡ true = ground arith in rw (closed-alone c ch closed, shut)
  | no opened ↦
      let not_shut : (ch.closed == 0) ≡ false = ground arith in
      let replies : reply c (view ch) ≡ open_reply c (view ch) =
        ap (λ b. if not b then open_reply c (view ch) else answers closed_error none (view ch))
          not_shut in
      open-meets c ch valid opened ∙ ap some (sym replies)
]
