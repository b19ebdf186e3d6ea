-- ===== src/Stress/Graph/Round.antt =====
-- One round of the outer loop: with distances up to `inf_distance` no sum wraps, the row and the column of
-- the intermediate node do not change, and so the update in place is the one of the textbook.
use concurrencylab.Common.{
  ℕ, suc, ◌+◌, ◌*◌, ◌≤◌, ◌<◌, ◌≡◌, inl, inr, arith, min, List, length, length-set, ltb, ◌==◌, ◌&&◌,
  ◌||◌, if◌then◌else◌, Bool-cases, false, refl, Bool, for_from_keeps,
}
use concurrencylab.Stress.Graph.{
  Distance, inf_distance, add_distance, get_solution_distance, relax, dst_loop, src_loop,
}
use concurrencylab.Stress.Graph.Cells.{get-set}

-- A matrix of `n * n` distances.
pub record IsMatrix (n : ℕ) (m : List Distance) : Type 0 where
  pub size : length m ≡ n * n
  pub bounded : (a b : ℕ) → a < n → b < n → get_solution_distance n m a b ≤ inf_distance

-- the distance from `a` to `b`, directly or through `k`
abbrev pub through : ℕ → List Distance → ℕ → ℕ → ℕ → ℕ
through n m k a b =
    min (get_solution_distance n m a b)
      (get_solution_distance n m a k + get_solution_distance n m k b)

-- Cells up to some point of the round have been updated, and the others not.
abbrev pub Updated : ℕ → ℕ → List Distance → (ℕ → ℕ → Bool) → List Distance → Type 0
Updated n k m done t =
    (a b : ℕ)
    → a < n
    → b < n
    → get_solution_distance n t a b
      ≡ (if done a b then through n m k a b else get_solution_distance n m a b)

pub length-relax : (n k i j : ℕ) (t : List Distance) → length (relax n k i j t) ≡ length t
unfolding relax
length-relax n k i j t = ground (
  arith,
  length-set t (i * n + j)
      (add_distance (get_solution_distance n t i k) (get_solution_distance n t k j)),
)

-- The cells of row `i` before column `j` have been updated, and those of earlier rows.
abbrev pub before : ℕ → ℕ → ℕ → ℕ → Bool
before i j a b = ltb a i || ((a == i) && ltb b j)

module _ {n k : ℕ} {m : List Distance} (mat : IsMatrix n m) (hk : k < n) {i j : ℕ}
    (t : List Distance) (len : length t ≡ n * n) (hi : i < n) (hj : j < n)
    (upd : Updated n k m (before i j) t) where
  -- Updated or not, the column of `k` is as it was, and so is its row.
  column_kept : get_solution_distance n t i k ≡ get_solution_distance n m i k
  column_kept = elim (Bool-cases (before i j i k)) [
    | inl done ↦ let new = upd i k hi hk in ground arith
    | inr not_done ↦ let old = upd i k hi hk in ground arith
  ]

  row_kept : get_solution_distance n t k j ≡ get_solution_distance n m k j
  row_kept = elim (Bool-cases (before i j k j)) [
    | inl done ↦ let new = upd k j hk hj in ground arith
    | inr not_done ↦ let old = upd k j hk hj in ground arith
  ]

  not_yet : get_solution_distance n t i j ≡ get_solution_distance n m i j
  not_yet =
      let order : before i j i j ≡ false = ground arith in let old = upd i j hi hj in ground arith

  no_wrap :
      add_distance (get_solution_distance n t i k) (get_solution_distance n t k j)
      ≡ get_solution_distance n m i k + get_solution_distance n m k j
  no_wrap =
      let x = mat.bounded i k hi hk in
      let y = mat.bounded k j hk hj in rw (column_kept, row_kept) (omega arith)

  -- The body of the loop writes the shorter way into its cell, and no other.
  relax-cell :
      (a b : ℕ)
      → b < n
      → get_solution_distance n (relax n k i j t) a b
        ≡ (if (i == a) && (j == b) then through n m k i j else get_solution_distance n t a b)
  unfolding relax
  relax-cell a b hb = elim (Bool-cases (ltb way (get_solution_distance n t i j))) [
    | inl shorter ↦
        let is_through : way ≡ through n m k i j = ground (arith, no_wrap, not_yet) in
        rw shorter (rw (← is_through) (get-set n t i j way a b len hi hj hb))
    | inr not_shorter ↦
        let is_direct : get_solution_distance n t i j ≡ through n m k i j =
          ground (arith, no_wrap, not_yet) in
        rw not_shorter (elim (Bool-cases ((i == a) && (j == b))) [
          | inl here ↦
              let same_row : a ≡ i = ground arith in
              let same_column : b ≡ j = ground arith in rw (here, same_row, same_column) is_direct
          | inr elsewhere ↦ rw elsewhere refl
        ])
  ]
    where
      way : Distance
      way = add_distance (get_solution_distance n t i k) (get_solution_distance n t k j)

  pub relax-Updated : Updated n k m (before i (suc j)) (relax n k i j t)
  relax-Updated a b ha hb = ground (arith, relax-cell a b hb, upd a b ha hb)

-- The state of the two inner loops before cell `i`, `j` of the round for `k`.
abbrev pub Reached : ℕ → ℕ → List Distance → ℕ → ℕ → List Distance → Type 0
Reached n k m i j t = (length t ≡ n * n) × Updated n k m (before i j) t

next_row :
    (n k : ℕ) (m : List Distance) (i : ℕ) (t : List Distance)
    → Reached n k m i n t
    → Reached n k m (suc i) 0 t
next_row n k m i t (len, upd) = (len, λ a b ha hb. ground (arith, upd a b ha hb))

dst_loop-Reached :
    {n k : ℕ} {m : List Distance}
    → IsMatrix n m
    → k < n
    → (i : ℕ) (t : List Distance) → suc i ≤ n
    → Reached n k m i 0 t
    → Reached n k m (suc i) 0 (dst_loop n k i t)
unfolding dst_loop
dst_loop-Reached {n} {k} {m} mat hk i t hi start = next_row n k m i _ (
    for_from_keeps (λ j t. Reached n k m i j t) (λ j. relax n k i j) n
      (λ j t hj (len, upd).
        (omega (arith, length-relax n k i j t), relax-Updated mat hk t len hi hj upd))
      n 0 t (omega arith) start)

src_loop-Reached :
    {n k : ℕ} {m : List Distance} → IsMatrix n m → k < n → Reached n k m n 0 (src_loop n k m)
unfolding src_loop
src_loop-Reached {n} {k} {m} mat hk =
    for_from_keeps (λ i t. Reached n k m i 0 t) (λ i. dst_loop n k i) n
      (λ i t hi at. dst_loop-Reached mat hk i t hi at) n 0 m (omega arith)
      (mat.size, λ a b ha hb. ground arith)

-- One round sets every cell to the shorter of the direct way and the way through `k`.
pub src_loop-through :
    {n k : ℕ} {m : List Distance}
    → IsMatrix n m
    → k < n
    → (a b : ℕ) → a < n
    → b < n
    → get_solution_distance n (src_loop n k m) a b ≡ through n m k a b
src_loop-through mat hk a b ha hb =
    let (len, upd) = src_loop-Reached mat hk in let all = upd a b ha hb in ground arith

pub src_loop-IsMatrix :
    {n k : ℕ} {m : List Distance} → IsMatrix n m → k < n → IsMatrix n (src_loop n k m)
src_loop-IsMatrix mat hk = record {
  size = let (len, upd) = src_loop-Reached mat hk in len;
  bounded = λ a b ha hb.
      let cell = src_loop-through mat hk a b ha hb in
      let old = mat.bounded a b ha hb in ground arith;
}
