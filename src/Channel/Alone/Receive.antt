-- ===== src/Channel/Alone/Receive.antt =====
-- The two receive functions on an open channel, undisturbed.
use concurrencylab.Common.{◌<◌, ◌≡◌, ◌≢◌, some, none, true, false, ◌==◌, arith, get_or, ◌∙◌}
use concurrencylab.Buffer.{buffer_current_size}
use concurrencylab.Buffer.Invariant.{IsValid}
use concurrencylab.Buffer.Refine.{removed, remove_of_some, remove_of_empty}
use concurrencylab.Channel.{
  Channel, entry, test, room, attempt, leave, notify, channel_empty, success, retest, write,
  channel_receive, channel_non_blocking_receive, goto, wait_on, receive, non_blocking_receive, code,
}
use concurrencylab.Channel.Alone.{returns, waits, alone}
use concurrencylab.Channel.Alone.Steps.{alone-step, check-open}

module _ (ch : Channel) (valid : IsValid ch.buffer) (opened : ch.closed ≢ 0) where
  pub receive_of_some :
      0 < ch.buffer.size
      → alone 8 receive entry ch
        ≡ returns success
            (some (get_or ch.buffer.slots ch.buffer.next 0))
            (record ch { buffer = removed ch.buffer })
  unfolding alone code
  receive_of_some some_left =
      alone-step 6 receive test ch (check-open ch attempt opened)
      ∙ alone-step 5 receive attempt ch
          {a = goto (notify (some (get_or ch.buffer.slots ch.buffer.next 0)))
            (record ch { buffer = removed ch.buffer })}
          (rw ((remove_of_some ch.buffer valid some_left).0, channel_receive))

  pub receive_of_empty : ch.buffer.size ≡ 0 → alone 8 receive entry ch ≡ waits ch
  unfolding alone code
  receive_of_empty empty =
      alone-step 6 receive test ch (check-open ch attempt opened)
      ∙ alone-step 5 receive attempt ch {a = wait_on write retest}
          (rw (remove_of_empty ch.buffer empty, channel_receive))

  pub non_blocking_receive_of_some :
      0 < ch.buffer.size
      → alone 8 non_blocking_receive entry ch
        ≡ returns success
            (some (get_or ch.buffer.slots ch.buffer.next 0))
            (record ch { buffer = removed ch.buffer })
  unfolding alone code buffer_current_size
  non_blocking_receive_of_some some_left =
      let not_empty : (ch.buffer.size == 0) ≡ false = ground arith in
      alone-step 6 non_blocking_receive test ch (check-open ch room opened)
      ∙ (alone-step 5 non_blocking_receive room ch {a = goto attempt ch} (rw not_empty)
          ∙ alone-step 4 non_blocking_receive attempt ch
              {a = goto (notify (some (get_or ch.buffer.slots ch.buffer.next 0)))
                (record ch { buffer = removed ch.buffer })}
              (rw ((remove_of_some ch.buffer valid some_left).0, channel_non_blocking_receive)))

  pub non_blocking_receive_of_empty :
      ch.buffer.size ≡ 0 → alone 8 non_blocking_receive entry ch ≡ returns channel_empty none ch
  unfolding alone code buffer_current_size
  non_blocking_receive_of_empty empty =
      let no_item : (ch.buffer.size == 0) ≡ true = ground arith in
      alone-step 6 non_blocking_receive test ch (check-open ch room opened)
      ∙ alone-step 5 non_blocking_receive room ch {a = goto (leave channel_empty none) ch}
          (rw no_item)
