-- ===== src/Buffer/Tests.antt =====
-- Runs of the buffer, and its theorems at concrete buffers.
use concurrencylab.Common.{
  ℕ, ◌+◌, ◌/◌, ◌^◌, ◌<◌, ◌≡◌, refl, none, some, [], ◌∷◌, arith, replicate, length, length-replicate,
  Pointer,
}
use concurrencylab.Buffer.{
  Buffer, buffer_success, Malloc, pointer_bytes, buffer_create, buffer_add, buffer_remove,
  buffer_free, buffer_capacity, buffer_current_size, peek_buffer, data_block, buffer_block,
}
use concurrencylab.Buffer.Queue.{enqueue, dequeue}
use concurrencylab.Buffer.Samples.{generous, generous-Allocates}
use concurrencylab.Buffer.Invariant.{IsValid, create-IsValid}
use concurrencylab.Buffer.Refine.{contents, add_refines, remove_refines}
use concurrencylab.Buffer.Roundtrip.{add_all, remove_all, remove_all-add_all}
use concurrencylab.Buffer.Overflow.{AllocatesExactly, create_too_large, create_wraps_to_zero}

abbrev exact : Malloc
exact k n = some (replicate (n / pointer_bytes) 0)

exact-AllocatesExactly : AllocatesExactly exact
exact-AllocatesExactly k n = (
  replicate (n / pointer_bytes) 0,
  refl,
  omega (arith, length-replicate {A = ℕ} (n / pointer_bytes) 0),
)

-- 8, then 9, round the end of the block
abbrev turned : Buffer
turned = record { size = 2; next = 2; capacity = 3; slots = 9 ∷ 7 ∷ 8 ∷ [] }

turned-IsValid : IsValid turned
turned-IsValid = omega arith

create_runs :
    buffer_create exact 2 ≡ some (record { size = 0; next = 0; capacity = 2; slots = 0 ∷ 0 ∷ [] })
unfolding buffer_create
create_runs = refl

add_runs :
    buffer_add turned 5
    ≡ some (buffer_success, record { size = 3; next = 2; capacity = 3; slots = 9 ∷ 5 ∷ 8 ∷ [] })
unfolding buffer_add
add_runs = refl

remove_runs :
    buffer_remove turned
    ≡ some (
      buffer_success,
      some 8,
      record { size = 1; next = 0; capacity = 3; slots = 9 ∷ 7 ∷ 8 ∷ [] },
    )
unfolding buffer_remove
remove_runs = refl

others_run :
    (buffer_capacity turned ≡ 3)
    × (buffer_current_size turned ≡ 2)
    × (peek_buffer turned 1 ≡ some 7)
    × (peek_buffer turned 3 ≡ none)
    × (buffer_free turned ≡ data_block ∷ buffer_block ∷ [])
unfolding buffer_capacity buffer_current_size peek_buffer buffer_free
others_run = (refl, refl, refl, refl, refl)

create-IsValid_example :
    (b : Buffer) × (buffer_create generous 2 ≡ some b) × IsValid b × (b.size ≡ 0) × (b.capacity ≡ 2)
create-IsValid_example = create-IsValid generous 2 generous-Allocates (omega arith)

add_refines_example :
    (b : Buffer) × (buffer_add turned 5 ≡ some ((enqueue 3 (8 ∷ 9 ∷ []) 5).0, b))
    × (contents b ≡ (enqueue 3 (8 ∷ 9 ∷ []) 5).1)
    × IsValid b
    × (b.capacity ≡ 3)
add_refines_example = add_refines turned 5 turned-IsValid

remove_refines_example :
    (b : Buffer) × (buffer_remove turned
      ≡ some ((dequeue (8 ∷ 9 ∷ [])).0, (dequeue (8 ∷ 9 ∷ [])).1, b))
    × (contents b ≡ (dequeue (8 ∷ 9 ∷ [])).2)
    × IsValid b
    × (b.capacity ≡ 3)
remove_refines_example = remove_refines turned turned-IsValid

create_too_large_example :
    (b : Buffer) × (buffer_create exact (2 ^ 61 + 1) ≡ some b) × (length b.slots < b.capacity)
create_too_large_example =
    create_too_large exact (2 ^ 61 + 1) exact-AllocatesExactly (omega arith) (omega arith)

create_wraps_to_zero_example :
    (b : Buffer) × (buffer_create exact (2 ^ 61) ≡ some b) × ((v : Pointer) → buffer_add b v ≡ none)
create_wraps_to_zero_example =
    create_wraps_to_zero exact (2 ^ 61) exact-AllocatesExactly (omega arith) (omega arith) refl

remove_all-add_all_example :
    (b' b'' : Buffer) × (add_all (5 ∷ []) turned ≡ some b')
    × (remove_all 3 b' ≡ some (8 ∷ 9 ∷ 5 ∷ [], b''))
    × (b''.size ≡ 0)
remove_all-add_all_example = remove_all-add_all (5 ∷ []) turned turned-IsValid (omega arith)
