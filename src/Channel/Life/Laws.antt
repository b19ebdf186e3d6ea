-- ===== src/Channel/Life/Laws.antt =====
-- What `channel_create` returns, and what `channel_destroy` takes down.
use concurrencylab.Common.{
  ℕ, suc, ◌*◌, ◌%◌, ◌<◌, ◌≡◌, ◌≢◌, refl, none, some, arith, ◌==◌, false, size_mod,
}
use concurrencylab.Buffer.{Malloc, pointer_bytes, buffer_free}
use concurrencylab.Buffer.Invariant.{IsValid, Allocates, max_capacity, create-IsValid}
use concurrencylab.Channel.{Channel, success, destroy_error}
use concurrencylab.Channel.Life.{
  channel_bytes, live, life_of, initialize, Parts, all_live, all_ended, create_buffer,
  channel_create_parts, channel_create, channel_destroy, tear_down, init_mutex, init_condition,
  destroy_mutex, destroy_condition, free_block,
}

pub create_parts :
    (malloc : Malloc) (size : ℕ)
    → Allocates malloc
    → size < max_capacity
    → (ch : Channel) × (channel_create_parts malloc size ≡ some (ch, all_live))
      × IsValid ch.buffer
      × (ch.buffer.size ≡ 0)
      × (ch.buffer.capacity ≡ size)
      × (ch.closed ≡ 1)
unfolding channel_create_parts create_buffer initialize init_mutex init_condition
create_parts malloc size fine small =
    let (cells, got_block, enough) = fine 0 channel_bytes in
    let (cells_data, got_data, enough_data) = fine 2 (size * pointer_bytes % size_mod) in
    let (b, made, valid, empty, capacity) =
      create-IsValid (λ k. malloc (suc k)) size (λ k. fine (suc k)) small in
    let first : life_of (malloc 0 channel_bytes) ≡ live = rw got_block refl in
    let cells_live : life_of (malloc 2 (size * pointer_bytes % size_mod)) ≡ live =
      rw got_data refl in
    let buffer : create_buffer (λ k. malloc (suc k)) size ≡ some (b, live) =
      rw (made, create_buffer, cells_live) refl in
    (
      record { buffer = b; closed = 1 },
      rw (first, buffer, channel_create_parts) refl,
      valid,
      empty,
      capacity,
      refl,
    )

-- If malloc gives at least the bytes that it is asked for and the size is below 2^61,
-- channel_create returns an open channel with a valid and empty buffer of that capacity.
pub create-open :
    (malloc : Malloc) (size : ℕ)
    → Allocates malloc
    → size < max_capacity
    → (ch : Channel) × (channel_create malloc size ≡ some ch)
      × IsValid ch.buffer
      × (ch.buffer.size ≡ 0)
      × (ch.buffer.capacity ≡ size)
      × (ch.closed ≡ 1)
unfolding channel_create
create-open malloc size fine small =
    let (ch, made, valid, empty, capacity, opened) = create_parts malloc size fine small in
    (ch, rw (made, channel_create) refl, valid, empty, capacity, opened)

destroy_of_open :
    (ch : Channel) → ch.closed ≡ 1 → channel_destroy ch all_live ≡ some (destroy_error, all_live)
unfolding channel_destroy
destroy_of_open ch opened = ground arith

pub destroy_of_closed :
    (ch : Channel) → ch.closed ≢ 1 → channel_destroy ch all_live ≡ some (success, all_ended)
unfolding channel_destroy tear_down destroy_mutex destroy_condition buffer_free free_block
destroy_of_closed ch closed =
    let not_open : (ch.closed == 1) ≡ false = ground arith in rw not_open refl

destroy_again : (ch : Channel) → channel_destroy ch all_ended ≡ none
unfolding channel_destroy
destroy_again ch = refl

-- If malloc gives at least the bytes that it is asked for and the size is below 2^61,
-- channel_create returns a channel with its parts, such that channel_destroy on them returns
-- DESTROY_ERROR and leaves all parts as they are; and whatever the channel is later, if its flag
-- is not 1, channel_destroy on these parts has no undefined behaviour, returns SUCCESS and ends
-- all six, and another call is undefined.
pub channel_destroy-channel_create :
    (malloc : Malloc) (size : ℕ)
    → Allocates malloc
    → size < max_capacity
    → (ch : Channel) × (p : Parts) × (channel_create_parts malloc size ≡ some (ch, p))
      × (channel_destroy ch p ≡ some (destroy_error, p))
      × ((used : Channel)
          → used.closed ≢ 1
          → (channel_destroy used p ≡ some (success, all_ended))
            × (channel_destroy used all_ended ≡ none))
channel_destroy-channel_create malloc size fine small =
    let (ch, made, valid, empty, capacity, opened) = create_parts malloc size fine small in
    (
      ch,
      all_live,
      made,
      destroy_of_open ch opened,
      λ used closed. (destroy_of_closed used closed, destroy_again used),
    )
