-- ===== src/Stress/Topology/Laws.antt =====
-- What `create_topology` reads from a file that holds enough numbers.
use mathlib.Core.List.{append-nil}
use concurrencylab.Common.{
  ◌∙◌, sym, ℕ, suc, ◌+◌, ◌*◌, ◌%◌, ◌≤◌, ◌<◌, ◌≡◌, inl, inr, arith, some, List, [], ◌∷◌, ◌/◌, leb,
  ap, subst, length, get_or, set, take, drop, take-all, drop-all, drop-get_or, length-set, ltb,
  ◌==◌, ◌&&◌, Bool, true, false, Bool-cases, refl, for_from_keeps, size_mod,
}
use concurrencylab.Stress.Graph.{Distance, floyd_warshall, get_link_distance, set_link_distance}
use concurrencylab.Stress.Graph.Cells.{cell-lt, get-set}
use concurrencylab.Stress.Graph.Round.{IsMatrix, before}
use concurrencylab.Stress.Topology.{
  MallocDistances, distance_bytes, created, Filling, filling, clamp, fill_cell, fill_row, fill,
  copy_cells, solve, create_from, create_topology,
}

-- The cells of `t` before cell `i`, `j` are the numbers of the file.
abbrev pub Holds : ℕ → List ℕ → (ℕ → ℕ → Bool) → List Distance → Type 0
Holds n numbers done t =
    (a b : ℕ)
    → a < n
    → b < n
    → done a b ≡ true
    → get_link_distance n t a b ≡ clamp (get_or numbers (a * n + b) 0)

-- The state of the loops before cell `i`, `j`.
abbrev pub Filled : ℕ → List ℕ → ℕ → ℕ → Filling → Type 0
Filled n numbers i j state =
    (t : List Distance) × (state ≡ filling t (drop (i * n + j) numbers))
    × (length t ≡ n * n)
    × Holds n numbers (before i j) t

module _ (n : ℕ) (numbers : List ℕ) (enough : n * n ≤ length numbers) where
  set-Holds :
      {i j : ℕ} (t : List Distance)
      → i < n
      → j < n
      → length t ≡ n * n
      → Holds n numbers (before i j) t
      → Holds n numbers
          (before i (suc j))
          (set_link_distance n i j (clamp (get_or numbers (i * n + j) 0)) t)
  set-Holds {i} {j} t hi hj len holds a b ha hb done = elim (Bool-cases ((i == a) && (j == b))) [
    | inl here ↦
        let same_row : a ≡ i = ground arith in
        let same_column : b ≡ j = ground arith in
        let cell = get-set n t i j (clamp (get_or numbers (i * n + j) 0)) a b len hi hj hb in
        rw (cell, here, same_row, same_column) refl
    | inr elsewhere ↦
        let cell = get-set n t i j (clamp (get_or numbers (i * n + j) 0)) a b len hi hj hb in
        rw (cell, elsewhere) (holds a b ha hb (ground arith))
  ]

  fill_cell-Filled :
      (i j : ℕ) (state : Filling)
      → i < n
      → j < n
      → Filled n numbers i j state
      → Filled n numbers i (suc j) (fill_cell n i j state)
  unfolding fill_cell
  fill_cell-Filled i j state hi hj (t, e, len, holds) =
      let inside = cell-lt n i j hi hj in
      let value = clamp (get_or numbers (i * n + j) 0) in
      let next : drop (i * n + j) numbers
          ≡ get_or numbers (i * n + j) 0 ∷ drop (suc (i * n + j)) numbers =
        drop-get_or (i * n + j) numbers 0 (omega arith) in
      let ok : ltb (i * n + j) (length t) ≡ true = ground arith in
      let position : i * n + suc j ≡ suc (i * n + j) = omega arith in
      (
        set t (i * n + j) value,
        rw (e, next, ok, position, fill_cell) refl,
        omega (arith, length-set t (i * n + j) value),
        set-Holds t hi hj len holds,
      )

  next_row-Filled :
      (i : ℕ) (state : Filling) → Filled n numbers i n state → Filled n numbers (suc i) 0 state
  next_row-Filled i state (t, e, len, holds) =
      let position : suc i * n + 0 ≡ i * n + n = omega arith in
      (t, rw position e, len, λ a b ha hb done. holds a b ha hb (ground arith))

  fill_row-Filled :
      (i : ℕ) (state : Filling)
      → i < n
      → Filled n numbers i 0 state
      → Filled n numbers (suc i) 0 (fill_row n i state)
  unfolding fill_row
  fill_row-Filled i state hi start = next_row-Filled i _ (
      for_from_keeps (λ j s. Filled n numbers i j s) (λ j. fill_cell n i j) n
        (λ j s hj at. fill_cell-Filled i j s hi hj at) n 0 state (omega arith) start)

  fill-Filled :
      (block : List Distance)
      → length block ≡ n * n
      → Filled n numbers n 0 (fill n (filling block numbers))
  unfolding fill
  fill-Filled block len =
      let first : 0 * n + 0 ≡ 0 = omega arith in
      for_from_keeps (λ i s. Filled n numbers i 0 s) (λ i. fill_row n i) n
        (λ i s hi at. fill_row-Filled i s hi at) n 0 (filling block numbers) (omega arith)
        (block, rw first refl, len, λ a b ha hb done. absurd (ground arith))

-- A copy that fills the whole block.
copy_cells-whole :
    (cells : ℕ) (source target : List Distance)
    → length source ≡ cells
    → length target ≡ cells
    → copy_cells cells source target ≡ some source
unfolding copy_cells
copy_cells-whole cells source target from to =
    let inside : (leb cells (length source) && leb cells (length target)) ≡ true = ground arith in
    let first : take cells source ≡ source =
      subst (λ k. take k source ≡ source) from (take-all source) in
    let rest : drop cells target ≡ [] = subst (λ k. drop k target ≡ []) to (drop-all target) in
    rw (inside, first, rest) (ap some (append-nil source))

-- Without a wrap, the number of bytes is that of the cells.
cells-bytes :
    (n : ℕ)
    → distance_bytes * n * n < size_mod
    → (distance_bytes * n * n % size_mod) / distance_bytes ≡ n * n
cells-bytes n small = omega arith

solve-reads :
    (n : ℕ) (t other : List Distance) (rest : List ℕ)
    → distance_bytes * n * n < size_mod
    → length t ≡ n * n
    → length other ≡ n * n
    → solve n other (filling t rest) ≡ created n t (floyd_warshall n t)
unfolding solve
solve-reads n t other rest small len_t len =
    let fits : leb (n * n) (length other) ≡ true = ground arith in
    let bytes = cells-bytes n small in
    let copied : copy_cells ((distance_bytes * n * n % size_mod) / distance_bytes) t other
        ≡ some t =
      copy_cells-whole _ t other (len_t ∙ sym bytes) (len ∙ sym bytes) in
    rw (copied, fits, solve) refl

-- If the file holds a positive number n and then at least n * n numbers, both calls of malloc give
-- blocks of n * n cells, and 4 * n * n is below 2^64, create_topology succeeds; the topology is a
-- matrix of distances up to inf_distance whose cell a, b is number a * n + b of the file, or
-- inf_distance if that is greater; and the solution is what floyd_warshall makes of it.
pub create_topology_reads :
    (malloc : MallocDistances) (n : ℕ) (numbers : List ℕ) {block other : List Distance}
    → 0 < n
    → n * n ≤ length numbers
    → malloc 0 (distance_bytes * n * n % size_mod) ≡ some block
    → malloc 1 (distance_bytes * n * n % size_mod) ≡ some other
    → length block ≡ n * n
    → length other ≡ n * n
    → distance_bytes * n * n < size_mod
    → (t : List Distance) × (create_topology malloc (some (n ∷ numbers))
        ≡ created n t (floyd_warshall n t))
      × IsMatrix n t
      × ((a b : ℕ)
          → a < n
          → b < n
          → get_link_distance n t a b ≡ clamp (get_or numbers (a * n + b) 0))
unfolding create_topology create_from
create_topology_reads malloc n numbers {block} {other} positive enough first second len len_other
      small =
    let (t, e, size, holds) = fill-Filled n numbers enough block len in
    let some_nodes : (n == 0) ≡ false = ground arith in
    let cells : (a b : ℕ)
        → a < n
        → b < n
        → get_link_distance n t a b ≡ clamp (get_or numbers (a * n + b) 0) =
      λ a b ha hb. holds a b ha hb (ground arith) in
    (
      t,
      rw (some_nodes, first, second, e) (solve-reads n t other _ small size len_other),
      record { size = size; bounded = λ a b ha hb. let cell = cells a b ha hb in ground arith },
      cells,
    )
