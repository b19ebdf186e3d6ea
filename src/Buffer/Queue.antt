-- ===== src/Buffer/Queue.antt =====
-- What buffer.h promises: a FIFO of at most `capacity` pointers, oldest first.
use concurrencylab.Common.{
  ℕ, Option, none, some, List, [], ◌∷◌, ◌++◌, leb, if◌then◌else◌, length, Pointer,
}
use concurrencylab.Buffer.{BufferStatus, buffer_success, buffer_error}

abbrev pub Queue : Type 0
Queue = List Pointer

unfoldable pub enqueue : ℕ → Queue → Pointer → BufferStatus × Queue
enqueue capacity q v =
    if leb capacity (length q) then (buffer_error, q) else (buffer_success, q ++ (v ∷ []))

unfoldable pub dequeue : Queue → BufferStatus × Option Pointer × Queue
dequeue [] = (buffer_error, none, [])
dequeue (v ∷ q) = (buffer_success, some v, q)
