-- ===== src/Buffer/Overflow.antt =====
-- What `buffer_create` does with a capacity whose size in bytes does not fit a `size_t`.
use concurrencylab.Common.{
  ℕ, ◌*◌, ◌%◌, ◌≤◌, ◌<◌, ◌≡◌, none, some, List, arith, length, size_mod, Pointer,
}
use concurrencylab.Buffer.{Buffer, Malloc, pointer_bytes, buffer_bytes, buffer_create, buffer_add}
use concurrencylab.Buffer.Invariant.{max_capacity}

-- A `malloc` that succeeds, with no more cells than were asked for.
abbrev pub AllocatesExactly : Malloc → Type 0
AllocatesExactly malloc =
    (k n : ℕ)
    → (cells : List Pointer) × (malloc k n ≡ some cells) × (length cells * pointer_bytes ≤ n)

-- If malloc gives no more cells than it is asked for, and a capacity below 2^64 is 2^61 or more,
-- buffer_create returns a buffer whose block has fewer cells than its capacity.
pub create_too_large :
    (malloc : Malloc) (capacity : ℕ)
    → AllocatesExactly malloc
    → max_capacity ≤ capacity
    → capacity < size_mod
    → (b : Buffer) × (buffer_create malloc capacity ≡ some b) × (length b.slots < b.capacity)
unfolding buffer_create
create_too_large malloc capacity exact large fits =
    let (s, es, ls) = exact 0 buffer_bytes in
    let (d, ed, ld) = exact 1 (capacity * pointer_bytes % size_mod) in
    (record { size = 0; next = 0; capacity = capacity; slots = d }, ground arith, omega arith)

-- If malloc gives no more cells than it is asked for, and a capacity below 2^64 is a positive
-- multiple of 2^61, buffer_create returns a buffer, and buffer_add on it has undefined behaviour
-- for every pointer.
pub create_wraps_to_zero :
    (malloc : Malloc) (capacity : ℕ)
    → AllocatesExactly malloc
    → 0 < capacity
    → capacity < size_mod
    → capacity % max_capacity ≡ 0
    → (b : Buffer) × (buffer_create malloc capacity ≡ some b)
      × ((v : Pointer) → buffer_add b v ≡ none)
unfolding buffer_create buffer_add
create_wraps_to_zero malloc capacity exact positive fits wraps =
    let (s, es, ls) = exact 0 buffer_bytes in
    let (d, ed, ld) = exact 1 (capacity * pointer_bytes % size_mod) in
    (record { size = 0; next = 0; capacity = capacity; slots = d }, ground arith, λ v. ground arith)
