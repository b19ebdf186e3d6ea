-- ===== src/Buffer/Refine.antt =====
-- A valid `buffer_t` behaves as the bounded FIFO of the pointers that it holds.
use native.Mathlib.Numerals.{add-one}
use concurrencylab.Common.{
  ℕ, zero, suc, ◌+◌, ◌-◌, ◌≤◌, ◌<◌, ◌≡◌, refl, sym, subst, ◌∙◌, ap, ap₂, ◌≢◌, none, some, List, [],
  ◌∷◌, ◌++◌, arith, leb, if◌then◌else◌, length, length-set, true, false, dec_lt, get_or, set,
  get_elem?-eq-get_or, get_or-set_self, get_or-set_ne, Pointer,
}
use concurrencylab.Buffer.{
  Buffer, buffer_success, buffer_error, add_position, buffer_add, buffer_remove,
}
use concurrencylab.Buffer.Queue.{Queue, enqueue, dequeue}
use concurrencylab.Buffer.Invariant.{IsValid}

-- `p` brought back below `cap`, for `p` below `2 * cap`
abbrev pub wrapped : ℕ → ℕ → ℕ
wrapped cap p = if leb cap p then p - cap else p

-- the `n` pointers from index `h` on, going round at `cap`
abbrev pub window : List Pointer → ℕ → ℕ → ℕ → Queue
window slots cap h zero = []
window slots cap h (suc n) = get_or slots h 0 ∷ window slots cap (wrapped cap (h + 1)) n

abbrev pub contents : Buffer → Queue
contents b = window b.slots b.capacity b.next b.size

pub length-window : (slots : List Pointer) (cap h n : ℕ) → length (window slots cap h n) ≡ n
length-window slots cap h zero = refl
length-window slots cap h (suc n) = ap suc (length-window slots cap (wrapped cap (h + 1)) n)

pub window_zero : (slots : List Pointer) (cap h n : ℕ) → n ≡ 0 → window slots cap h n ≡ []
window_zero slots cap h n e = ap (window slots cap h) e

pub length-contents : (b : Buffer) → length (contents b) ≡ b.size
length-contents b = length-window b.slots b.capacity b.next b.size

-- Writing just past a window extends it by that pointer.
window-set :
    (slots : List Pointer) (cap v n h i : ℕ)
    → cap ≤ length slots
    → h < cap
    → n < cap
    → i ≡ wrapped cap (h + n)
    → window (set slots i v) cap h (suc n) ≡ window slots cap h n ++ (v ∷ [])
window-set slots cap v zero h i block hh hn e =
    let at_h : i ≡ h = ground arith in rw (at_h, get_or-set_self slots h v 0 (omega arith))
window-set slots cap v (suc n) h i block hh hn e = ap₂ ◌∷◌ (get_or-set_ne slots v 0 ne) (
    window-set slots cap v n (wrapped cap (h + 1)) i block (ground arith) (omega arith)
      (ground arith))
  where
    ne : i ≢ h
    ne = ground arith

-- the buffer after a successful `buffer_add`
abbrev pub added : Buffer → Pointer → Buffer
added b v = record b { slots = set b.slots (add_position b) v; size = b.size + 1 }

pub add_of_room :
    (b : Buffer) (v : Pointer)
    → IsValid b
    → b.size < b.capacity
    → (buffer_add b v ≡ some (buffer_success, added b v))
      × (contents (added b v) ≡ contents b ++ (v ∷ []))
      × IsValid (added b v)
unfolding buffer_add
add_of_room b v valid room = (ground arith, appended, kept)
  where
    appended : contents (added b v) ≡ contents b ++ (v ∷ [])
    appended =
        ap (window (set b.slots (add_position b) v) b.capacity b.next) (add-one b.size)
        ∙ window-set b.slots b.capacity v b.size b.next (add_position b) (omega arith) (omega arith)
            room (ground arith)

    kept : IsValid (added b v)
    kept = omega (arith, length-set b.slots (add_position b) v)

pub add_of_full :
    (b : Buffer) (v : Pointer) → b.capacity ≤ b.size → buffer_add b v ≡ some (buffer_error, b)
unfolding buffer_add
add_of_full b v full = ground arith

-- the buffer after a successful `buffer_remove`
abbrev pub removed : Buffer → Buffer
removed b = record b { size = b.size - 1; next = wrapped b.capacity (b.next + 1) }

window_pos :
    (slots : List Pointer) (cap h n : ℕ)
    → 0 < n
    → window slots cap h n ≡ get_or slots h 0 ∷ window slots cap (wrapped cap (h + 1)) (n - 1)
window_pos slots cap h zero p = absurd (omega arith)
window_pos slots cap h (suc n) p =
    ap (λ k. get_or slots h 0 ∷ window slots cap (wrapped cap (h + 1)) k) (omega arith)

pub remove_of_some :
    (b : Buffer)
    → IsValid b
    → 0 < b.size
    → (buffer_remove b ≡ some (buffer_success, some (get_or b.slots b.next 0), removed b))
      × (contents b ≡ get_or b.slots b.next 0 ∷ contents (removed b))
      × IsValid (removed b)
unfolding buffer_remove
remove_of_some b valid some_left = (
  ground (arith, get_elem?-eq-get_or b.slots b.next 0),
  window_pos b.slots b.capacity b.next b.size some_left,
  ground arith,
)

pub remove_of_empty : (b : Buffer) → b.size ≡ 0 → buffer_remove b ≡ some (buffer_error, none, b)
unfolding buffer_remove
remove_of_empty b empty = ground arith

-- buffer_add on a valid buffer has no undefined behaviour: it returns the status of the bounded
-- queue of the buffer's contents, leaves a buffer that holds that queue's result, and keeps the
-- invariant and the capacity.
pub add_refines :
    (b : Buffer) (v : Pointer)
    → IsValid b
    → (b' : Buffer) × (buffer_add b v ≡ some ((enqueue b.capacity (contents b) v).0, b'))
      × (contents b' ≡ (enqueue b.capacity (contents b) v).1)
      × IsValid b'
      × (b'.capacity ≡ b.capacity)
unfolding enqueue
add_refines b v valid = elim (dec_lt b.size b.capacity) [
  | yes room ↦
      let (result, appended, kept) = add_of_room b v valid room in
      let e : leb b.capacity (length (contents b)) ≡ false = ground (arith, length-contents b) in
      (added b v, rw e result, rw e appended, kept, refl)
  | no full ↦
      let e : leb b.capacity (length (contents b)) ≡ true = ground (arith, length-contents b) in
      (b, rw e (add_of_full b v (omega arith)), rw e refl, valid, refl)
]

-- buffer_remove on a valid buffer has no undefined behaviour: it returns the status and the
-- pointer of the bounded queue of the buffer's contents, leaves a buffer that holds that queue's
-- result, and keeps the invariant and the capacity.
pub remove_refines :
    (b : Buffer)
    → IsValid b
    → (b' : Buffer) × (buffer_remove b
        ≡ some ((dequeue (contents b)).0, (dequeue (contents b)).1, b'))
      × (contents b' ≡ (dequeue (contents b)).2)
      × IsValid b'
      × (b'.capacity ≡ b.capacity)
unfolding dequeue
remove_refines b valid = elim (dec_lt 0 b.size) [
  | yes some_left ↦
      let (result, front, kept) = remove_of_some b valid some_left in
      (removed b, rw front result, rw front refl, kept, refl)
  | no nothing ↦
      let e : contents b ≡ [] = window_zero b.slots b.capacity b.next b.size (omega arith) in
      (
        b,
        rw e (remove_of_empty b (omega arith)),
        subst (λ q. contents b ≡ (dequeue q).2) (sym e) e,
        valid,
        refl,
      )
]
