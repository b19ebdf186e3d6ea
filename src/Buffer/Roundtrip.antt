-- ===== src/Buffer/Roundtrip.antt =====
-- Series of calls of `buffer_add` and of `buffer_remove`.
use concurrencylab.Common.{
  ℕ, zero, suc, ◌+◌, ◌≤◌, ◌≡◌, ◌∙◌, refl, sym, ap, arith, Option, none, some, List, [], ◌∷◌, ◌++◌,
  length, Pointer,
}
use mathlib.Core.List.{append_assoc, append-nil}
use concurrencylab.Buffer.{Buffer, BufferStatus, buffer_success, buffer_add, buffer_remove}
use concurrencylab.Buffer.Invariant.{IsValid}
use concurrencylab.Buffer.Refine.{
  contents, window_zero, added, removed, add_of_room, remove_of_some,
}

-- Successful calls of `buffer_add`, one for each pointer.
abbrev after_add : Option (BufferStatus × Buffer) → Option Buffer
after_add (some (buffer_success, b)) = some b
after_add _ = none

abbrev and_then {ℓ κ} : {A : Type ℓ} {B : Type κ} → Option A → (A → Option B) → Option B
and_then none f = none
and_then (some a) f = f a

unfoldable pub add_all : List Pointer → Buffer → Option Buffer
add_all [] b = some b
add_all (v ∷ vs) b = and_then (after_add (buffer_add b v)) (add_all vs)

-- Successful calls of `buffer_remove`, and the pointers that they store.
abbrev after_remove : Option (BufferStatus × Option Pointer × Buffer) → Option (Pointer × Buffer)
after_remove (some (buffer_success, some v, b)) = some (v, b)
after_remove _ = none

unfoldable pub remove_all : ℕ → Buffer → Option (List Pointer × Buffer)
remove_all zero b = some ([], b)
remove_all (suc n) b =
    and_then (after_remove (buffer_remove b))
      (λ (v, b). and_then (remove_all n b) (λ (vs, b). some (v ∷ vs, b)))

add_all-contents :
    (vs : List Pointer) (b : Buffer)
    → IsValid b
    → b.size + length vs ≤ b.capacity
    → (b' : Buffer) × (add_all vs b ≡ some b')
      × (contents b' ≡ contents b ++ vs)
      × IsValid b'
      × (b'.size ≡ b.size + length vs)
unfolding add_all
add_all-contents [] b valid room = (b, refl, sym (append-nil (contents b)), valid, omega arith)
add_all-contents (v ∷ vs) b valid room =
    let (result, appended, kept) = add_of_room b v valid (omega arith) in
    let (b', rest, holds, valid', size) = add_all-contents vs (added b v) kept (omega arith) in
    (
      b',
      rw result rest,
      holds ∙ (ap (λ q. q ++ vs) appended ∙ append_assoc (contents b) (v ∷ []) vs),
      valid',
      omega arith,
    )

remove_all-contents :
    (n : ℕ) (b : Buffer)
    → IsValid b
    → b.size ≡ n
    → (b' : Buffer) × (remove_all n b ≡ some (contents b, b')) × (b'.size ≡ 0)
unfolding remove_all
remove_all-contents zero b valid e =
    (b, rw (window_zero b.slots b.capacity b.next b.size e) refl, e)
remove_all-contents (suc n) b valid e =
    let (result, front, kept) = remove_of_some b valid (omega arith) in
    let (b', rest, none_left) = remove_all-contents n (removed b) kept (omega arith) in
    (b', rw (result, rest, front) refl, none_left)

-- On a valid buffer with room for the pointers vs, the calls of buffer_add for vs one after the
-- other succeed, then as many calls of buffer_remove as the buffer holds succeed, store what it
-- held before and then vs, and leave it with size 0.
pub remove_all-add_all :
    (vs : List Pointer) (b : Buffer)
    → IsValid b
    → b.size + length vs ≤ b.capacity
    → (b' b'' : Buffer) × (add_all vs b ≡ some b')
      × (remove_all (b.size + length vs) b' ≡ some (contents b ++ vs, b''))
      × (b''.size ≡ 0)
remove_all-add_all vs b valid room =
    let (b', put, holds, valid', size) = add_all-contents vs b valid room in
    let (b'', got, none_left) = remove_all-contents (b.size + length vs) b' valid' size in
    (b', b'', put, got ∙ ap (λ q. some (q, b'')) holds, none_left)
