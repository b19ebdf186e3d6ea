-- ===== src/Buffer.antt =====
-- The ring buffer of concurrencylab-edit/buffer.h and buffer.c.
-- A function that updates `*buffer` returns the new buffer; `none` is undefined behaviour: an
-- access outside a block, or through NULL.
pub mod Invariant
pub mod Queue
pub mod Refine
pub mod Overflow
pub mod Roundtrip
pub mod Samples
mod Tests
use concurrencylab.Common.{
  ℕ, ◌*◌, ◌%◌, Option, none, some, List, [], ◌∷◌, ltb, leb, if◌then◌else◌, get_elem?, store,
  size_mod, add_size, sub_size, Pointer,
}

-- `buffer_t`. `slots` is the block behind `data`: its cells hold pointers.
pub record Buffer : Type 0 where
  pub size : ℕ
  pub next : ℕ
  pub capacity : ℕ
  pub slots : List Pointer

pub data BufferStatus : Type 0 where
  buffer_success buffer_error : BufferStatus

-- `malloc k n`: the cells of the block that call `k` of the function gets for `n` bytes; `none`
-- is NULL.
abbrev pub Malloc : Type 0
Malloc = ℕ → ℕ → Option (List Pointer)

abbrev pub pointer_bytes : ℕ
pointer_bytes = 8

abbrev pub buffer_bytes : ℕ
buffer_bytes = 32

-- A NULL block has no cell that can be accessed.
abbrev pub cells_of : Option (List Pointer) → List Pointer
cells_of none = []
cells_of (some cells) = cells

unfoldable pub buffer_create : Malloc → ℕ → Option Buffer
buffer_create malloc capacity = elim (malloc 0 buffer_bytes) [
  | none ↦ none
  | some _ ↦ some (record {
    size = 0;
    next = 0;
    capacity = capacity;
    slots = cells_of (malloc 1 (capacity * pointer_bytes % size_mod));
  })
]

-- `pos` of `buffer_add`
abbrev pub add_position : Buffer → ℕ
add_position b =
    let pos = add_size b.next b.size in if leb b.capacity pos then sub_size pos b.capacity else pos

unfoldable pub buffer_add : Buffer → Pointer → Option (BufferStatus × Buffer)
buffer_add b v =
    if leb b.capacity b.size
    then some (buffer_error, b)
    else elim (store b.slots (add_position b) v) [
      | none ↦ none
      | some slots ↦ some (buffer_success, record b { slots = slots; size = add_size b.size 1 })
    ]

-- `next` after `buffer_remove`
abbrev pub next_position : Buffer → ℕ
next_position b =
    let next = add_size b.next 1 in if leb b.capacity next then sub_size next b.capacity else next

-- The option is what is stored in `*data`; `none` leaves it alone.
unfoldable pub buffer_remove : Buffer → Option (BufferStatus × Option Pointer × Buffer)
buffer_remove b =
    if ltb 0 b.size
    then elim (get_elem? b.slots b.next) [
      | none ↦ none
      | some v ↦
          some
            (buffer_success, some v, record b { size = sub_size b.size 1; next = next_position b })
    ]
    else some (buffer_error, none, b)

-- The blocks that a program frees, in the order of the calls of `free`.
pub data Block : Type 0 where
  data_block buffer_block channel_block : Block

unfoldable pub buffer_free : Buffer → List Block
buffer_free b = data_block ∷ buffer_block ∷ []

unfoldable pub buffer_capacity : Buffer → ℕ
buffer_capacity b = b.capacity

unfoldable pub buffer_current_size : Buffer → ℕ
buffer_current_size b = b.size

pub peek_buffer : Buffer → ℕ → Option Pointer
peek_buffer b index = get_elem? b.slots index
