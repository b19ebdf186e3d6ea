-- ===== src/Channel/Life.antt =====
-- `channel_create` and `channel_destroy` of concurrencylab-edit/channel.c, with what exists of the
-- channel at each statement: its three blocks, its lock and its two condition variables.
pub mod Laws
use concurrencylab.Common.{
  ℕ, suc, ◌*◌, ◌%◌, size_mod, Option, none, some, List, [], ◌∷◌, ◌==◌, if◌then◌else◌,
}
use concurrencylab.Buffer.{
  Buffer, Malloc, pointer_bytes, Block, data_block, buffer_block, channel_block, buffer_create,
  buffer_free,
}
use concurrencylab.Channel.{ChannelStatus, success, destroy_error, Channel, Cond, read, write}

abbrev pub channel_bytes : ℕ
channel_bytes = 160

-- A block behind NULL or a lock not yet initialized; in use; freed or destroyed.
pub data Life : Type 0 where
  unset live ended : Life

pub record Parts : Type 0 where
  pub channel_memory : Life
  pub buffer_memory : Life
  pub data_memory : Life
  pub mutex_lock : Life
  pub read_condition : Life
  pub write_condition : Life

abbrev pub all_unset : Parts
all_unset = record {
  channel_memory = unset;
  buffer_memory = unset;
  data_memory = unset;
  mutex_lock = unset;
  read_condition = unset;
  write_condition = unset;
}

abbrev pub all_live : Parts
all_live = record {
  channel_memory = live;
  buffer_memory = live;
  data_memory = live;
  mutex_lock = live;
  read_condition = live;
  write_condition = live;
}

abbrev pub all_ended : Parts
all_ended = record {
  channel_memory = ended;
  buffer_memory = ended;
  data_memory = ended;
  mutex_lock = ended;
  read_condition = ended;
  write_condition = ended;
}

-- The result of `malloc`, for the pointer to a block.
abbrev pub life_of {ℓ} : {A : Type ℓ} → Option A → Life
life_of none = unset
life_of (some _) = live

-- Statements in order; `none` is undefined behaviour.
infixl 5 ◌>>=◌
abbrev pub ◌>>=◌ : Option Parts → (Parts → Option Parts) → Option Parts
none >>= f = none
some p >>= f = f p

-- A statement that reads or writes `*channel`.
abbrev pub with_channel : (Parts → Option Parts) → Parts → Option Parts
with_channel f p = elim p.channel_memory [ unset ↦ none | live ↦ f p | ended ↦ none ]

abbrev pub with_buffer : (Parts → Option Parts) → Parts → Option Parts
with_buffer f p = elim p.buffer_memory [ unset ↦ none | live ↦ f p | ended ↦ none ]

-- `free` does nothing on NULL; to free a block again is undefined.
abbrev pub free_life : Life → Option Life
free_life unset = some unset
free_life live = some ended
free_life ended = none

-- `pthread_mutex_destroy` and `pthread_cond_destroy`, with no thread inside.
abbrev pub destroy_life : Life → Option Life
destroy_life unset = none
destroy_life live = some ended
destroy_life ended = none

abbrev pub update_life : Option Life → (Life → Parts) → Option Parts
update_life none f = none
update_life (some x) f = some (f x)

-- `free` of one block. `buffer->data` is read from the block of the buffer.
unfoldable pub free_block : Block → Parts → Option Parts
free_block data_block =
    with_buffer (λ p. update_life (free_life p.data_memory) (λ x. record p { data_memory = x }))
free_block buffer_block =
    λ p. update_life (free_life p.buffer_memory) (λ x. record p { buffer_memory = x })
free_block channel_block =
    λ p. update_life (free_life p.channel_memory) (λ x. record p { channel_memory = x })

abbrev pub free_blocks : List Block → Parts → Option Parts
free_blocks [] p = some p
free_blocks (b ∷ blocks) p = free_block b p >>= free_blocks blocks

unfoldable pub init_mutex : Parts → Option Parts
init_mutex = with_channel (λ p. some (record p { mutex_lock = live }))

unfoldable pub init_condition : Cond → Parts → Option Parts
init_condition read = with_channel (λ p. some (record p { read_condition = live }))
init_condition write = with_channel (λ p. some (record p { write_condition = live }))

unfoldable pub destroy_mutex : Parts → Option Parts
destroy_mutex =
    with_channel (λ p. update_life (destroy_life p.mutex_lock) (λ x. record p { mutex_lock = x }))

unfoldable pub destroy_condition : Cond → Parts → Option Parts
destroy_condition read =
    with_channel
      (λ p. update_life (destroy_life p.read_condition) (λ x. record p { read_condition = x }))
destroy_condition write =
    with_channel
      (λ p. update_life (destroy_life p.write_condition) (λ x. record p { write_condition = x }))

-- The buffer that `buffer_create` gives, and the block behind its `data`.
unfoldable pub create_buffer : Malloc → ℕ → Option (Buffer × Life)
create_buffer malloc size = elim (buffer_create malloc size) [
  | none ↦ none
  | some b ↦ some (b, life_of (malloc 1 (size * pointer_bytes % size_mod)))
]

abbrev with_parts : Channel → Option Parts → Option (Channel × Parts)
with_parts ch none = none
with_parts ch (some p) = some (ch, p)

-- From the block of the channel and the buffer: the rest of `channel_create`.
unfoldable pub initialize : Life → Option (Buffer × Life) → Option (Channel × Parts)
initialize channel none = none
initialize channel (some (b, cells)) =
    with_parts (record { buffer = b; closed = 1 })
      (init_mutex
          (record all_unset { channel_memory = channel; buffer_memory = live; data_memory = cells })
        >>= init_condition read
        >>= init_condition write)

-- `none` is a write through NULL.
unfoldable pub channel_create_parts : Malloc → ℕ → Option (Channel × Parts)
channel_create_parts malloc size =
    initialize (life_of (malloc 0 channel_bytes)) (create_buffer (λ k. malloc (suc k)) size)

unfoldable pub channel_create : Malloc → ℕ → Option Channel
channel_create malloc size = elim (channel_create_parts malloc size) [
  | none ↦ none
  | some (ch, p) ↦ some ch
]

-- Behind the test of `closed`.
unfoldable pub tear_down : Channel → Parts → Option Parts
tear_down ch p =
    destroy_mutex p
    >>= destroy_condition read
    >>= destroy_condition write
    >>= with_channel (free_blocks (buffer_free ch.buffer))
    >>= free_block channel_block

-- The status, and what exists then.
unfoldable pub channel_destroy : Channel → Parts → Option (ChannelStatus × Parts)
channel_destroy ch p = elim p.channel_memory [
  | unset ↦ none
  | ended ↦ none
  | live ↦
      if ch.closed == 1
      then some (destroy_error, p)
      else elim (tear_down ch p) [ none ↦ none | some p ↦ some (success, p) ]
]
