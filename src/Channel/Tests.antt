-- ===== src/Channel/Tests.antt =====
-- Calls on concrete channels, and the theorems about a channel at them.
use concurrencylab.Common.{◌≡◌, ◌≢◌, refl, none, some, [], ◌∷◌, arith}
use concurrencylab.Buffer.{buffer_add, buffer_remove, buffer_capacity, buffer_current_size}
use concurrencylab.Buffer.Samples.{generous, generous-Allocates}
use concurrencylab.Buffer.Invariant.{IsValid}
use concurrencylab.Channel.{
  Channel, success, destroy_error, channel_full, closed_error, gen_error, entry, send, receive,
  non_blocking_send, non_blocking_receive, close, code, quit, crash,
}
use concurrencylab.Channel.Life.{
  Parts, all_ended, channel_create_parts, channel_create, channel_destroy,
}
use concurrencylab.Channel.Life.Laws.{create-open, channel_destroy-channel_create}
use concurrencylab.Channel.Alone.{alone, waits, returns, seen, reply, view}
use concurrencylab.Channel.Alone.Refine.{undisturbed_meets}

-- A channel of size 2 that holds 8 and 9.
abbrev full_one : Channel
full_one = record {
  buffer = record { size = 2; next = 1; capacity = 2; slots = 9 ∷ 8 ∷ [] };
  closed = 1;
}

abbrev shut_one : Channel
shut_one = record full_one { closed = 0 }

calls_run :
    (alone 8 (send 7) entry full_one ≡ waits full_one)
    × (alone 8 (non_blocking_send 7) entry full_one ≡ returns channel_full none full_one)
    × (alone 8 receive entry shut_one ≡ returns closed_error none shut_one)
    × (alone 8 close entry full_one ≡ returns success none shut_one)
unfolding alone code buffer_add buffer_remove buffer_capacity buffer_current_size
calls_run = (refl, refl, refl, refl)

-- NULL: the non-blocking functions and `channel_close` return, and the blocking ones dereference it.
null_runs :
    (code (non_blocking_send 7) entry none ≡ quit gen_error)
    × (code non_blocking_receive entry none ≡ quit gen_error)
    × (code close entry none ≡ quit closed_error)
    × (code (send 7) entry none ≡ crash)
    × (code receive entry none ≡ crash)
unfolding code
null_runs = (refl, refl, refl, refl, refl)

full_one-IsValid : IsValid full_one.buffer
full_one-IsValid = omega arith

undisturbed_meets_example :
    seen (alone 8 receive entry full_one) ≡ some (reply receive (view full_one))
undisturbed_meets_example = undisturbed_meets receive full_one full_one-IsValid

create-open_example :
    (ch : Channel) × (channel_create generous 2 ≡ some ch)
    × IsValid ch.buffer
    × (ch.buffer.size ≡ 0)
    × (ch.buffer.capacity ≡ 2)
    × (ch.closed ≡ 1)
create-open_example = create-open generous 2 generous-Allocates (omega arith)

channel_destroy-channel_create_example :
    (ch : Channel) × (p : Parts) × (channel_create_parts generous 2 ≡ some (ch, p))
    × (channel_destroy ch p ≡ some (destroy_error, p))
    × ((used : Channel)
        → used.closed ≢ 1
        → (channel_destroy used p ≡ some (success, all_ended))
          × (channel_destroy used all_ended ≡ none))
channel_destroy-channel_create_example =
    channel_destroy-channel_create generous 2 generous-Allocates (omega arith)
