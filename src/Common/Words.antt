-- ===== src/Common/Words.antt =====
-- `size_t` on the 64-bit target, and memory blocks as lists of pointer-sized cells.
use Prim.Native.Nat.{ℕ, ◌+◌, ◌-◌, ◌%◌, ◌^◌}
use mathlib.Core.List.{List}
use mathlib.Core.Option.{Option, none, some}
use concurrencylab.Common.Tests.{ltb, if◌then◌else◌}
use concurrencylab.Common.Lists.{length, set}

abbrev pub size_mod : ℕ
size_mod = 2 ^ 64

-- `a + b` and `a - b` in `size_t`: both wrap.
abbrev pub add_size : ℕ → ℕ → ℕ
add_size a b = (a + b) % size_mod

abbrev pub sub_size : ℕ → ℕ → ℕ
sub_size a b = (a + size_mod - b) % size_mod

-- A `void*`. NULL is 0.
abbrev pub Pointer : Type 0
Pointer = ℕ

abbrev pub null : Pointer
null = 0

-- A write to a cell of a block; `none` is a write outside the block.
abbrev pub store : List ℕ → ℕ → ℕ → Option (List ℕ)
store block i v = if ltb i (length block) then some (set block i v) else none
