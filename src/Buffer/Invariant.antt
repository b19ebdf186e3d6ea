-- ===== src/Buffer/Invariant.antt =====
-- The representation invariant of `buffer_t`: no sum wraps, and no access leaves the block.
use concurrencylab.Common.{
  ℕ, ◌*◌, ◌%◌, ◌^◌, ◌≤◌, ◌<◌, max, ◌≡◌, some, List, arith, length, size_mod, Pointer,
}
use concurrencylab.Buffer.{Buffer, Malloc, pointer_bytes, buffer_bytes, buffer_create, add_position}

-- An array of `max_capacity` pointers or more has no size in bytes.
abbrev pub max_capacity : ℕ
max_capacity = 2 ^ 61

pub record IsValid (b : Buffer) : Type 0 where
  pub small : b.capacity < max_capacity
  pub block : b.capacity ≤ length b.slots
  pub next_in : b.next < max b.capacity 1
  pub size_in : b.size ≤ b.capacity

-- What the C library says of a `malloc` that succeeds: the block has the size that was asked for.
abbrev pub Allocates : Malloc → Type 0
Allocates malloc =
    (k n : ℕ)
    → (cells : List Pointer) × (malloc k n ≡ some cells) × (n ≤ length cells * pointer_bytes)

pub create-IsValid :
    (malloc : Malloc) (capacity : ℕ)
    → Allocates malloc
    → capacity < max_capacity
    → (b : Buffer) × (buffer_create malloc capacity ≡ some b)
      × IsValid b
      × (b.size ≡ 0)
      × (b.capacity ≡ capacity)
unfolding buffer_create
create-IsValid malloc capacity fine small =
    let (s, es, ls) = fine 0 buffer_bytes in
    let (d, ed, ld) = fine 1 (capacity * pointer_bytes % size_mod) in
    (
      record { size = 0; next = 0; capacity = capacity; slots = d },
      ground arith,
      omega arith,
      ground arith,
      ground arith,
    )

-- Within the invariant no index computation wraps.
pub no_wrap : {b : Buffer} → IsValid b → b.size < b.capacity → add_position b < b.capacity
no_wrap v h = ground arith
