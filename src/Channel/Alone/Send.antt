-- ===== src/Channel/Alone/Send.antt =====
-- The two send functions and `channel_close` on an open channel, undisturbed.
use concurrencylab.Common.{◌<◌, ◌≤◌, ◌≡◌, ◌≢◌, none, true, false, leb, arith, Pointer, ◌∙◌}
use concurrencylab.Buffer.{buffer_capacity, buffer_current_size}
use concurrencylab.Buffer.Invariant.{IsValid}
use concurrencylab.Buffer.Refine.{add_of_room, add_of_full, added}
use concurrencylab.Channel.{
  Channel, entry, test, room, attempt, clear, leave, notify, channel_empty, success, retest, read,
  channel_send, channel_non_blocking_send, goto, wait_on, send, non_blocking_send, close, code,
}
use concurrencylab.Channel.Alone.{returns, waits, alone}
use concurrencylab.Channel.Alone.Steps.{alone-step, check-open}

module _ (v : Pointer) (ch : Channel) (valid : IsValid ch.buffer) (opened : ch.closed ≢ 0) where
  pub send_of_room :
      ch.buffer.size < ch.buffer.capacity
      → alone 8 (send v) entry ch ≡ returns success none (record ch { buffer = added ch.buffer v })
  unfolding alone code
  send_of_room room_left =
      alone-step 6 (send v) test ch (check-open ch attempt opened)
      ∙ alone-step 5 (send v) attempt ch
          {a = goto (notify none) (record ch { buffer = added ch.buffer v })}
          (rw ((add_of_room ch.buffer v valid room_left).0, channel_send))

  pub send_of_full : ch.buffer.capacity ≤ ch.buffer.size → alone 8 (send v) entry ch ≡ waits ch
  unfolding alone code
  send_of_full full =
      alone-step 6 (send v) test ch (check-open ch attempt opened)
      ∙ alone-step 5 (send v) attempt ch {a = wait_on read retest}
          (rw (add_of_full ch.buffer v full, channel_send))

  pub non_blocking_send_of_room :
      ch.buffer.size < ch.buffer.capacity
      → alone 8 (non_blocking_send v) entry ch
        ≡ returns success none (record ch { buffer = added ch.buffer v })
  unfolding alone code buffer_capacity buffer_current_size
  non_blocking_send_of_room room_left =
      let fits : leb ch.buffer.capacity ch.buffer.size ≡ false = ground arith in
      alone-step 6 (non_blocking_send v) test ch (check-open ch room opened)
      ∙ (alone-step 5 (non_blocking_send v) room ch {a = goto attempt ch} (rw fits)
          ∙ alone-step 4 (non_blocking_send v) attempt ch
              {a = goto (notify none) (record ch { buffer = added ch.buffer v })}
              (rw ((add_of_room ch.buffer v valid room_left).0, channel_non_blocking_send)))

  pub non_blocking_send_of_full :
      ch.buffer.capacity ≤ ch.buffer.size
      → alone 8 (non_blocking_send v) entry ch ≡ returns channel_empty none ch
  unfolding alone code buffer_capacity buffer_current_size
  non_blocking_send_of_full full =
      let no_fit : leb ch.buffer.capacity ch.buffer.size ≡ true = ground arith in
      alone-step 6 (non_blocking_send v) test ch (check-open ch room opened)
      ∙ alone-step 5 (non_blocking_send v) room ch {a = goto (leave channel_empty none) ch}
          (rw no_fit)

pub close_of_open :
    (ch : Channel)
    → ch.closed ≢ 0
    → alone 8 close entry ch ≡ returns success none (record ch { closed = 0 })
unfolding alone code
close_of_open ch opened = alone-step 6 close test ch (check-open ch clear opened)
