-- ===== src/Stress/Graph/Shortest.antt =====
-- What the outer loop computes: the lengths of shortest walks.
use concurrencylab.Common.{
  ℕ, suc, ◌+◌, ◌≤◌, ◌<◌, ◌≡◌, ◌⊎◌, inl, inr, arith, List, refl, for_from_keeps, min,
}
use concurrencylab.Stress.Graph.{
  Distance, get_link_distance, get_solution_distance, src_loop, floyd_warshall,
}
use concurrencylab.Stress.Graph.Walks.{Walk, link, join, Walk-Split}
use concurrencylab.Stress.Graph.Round.{IsMatrix, src_loop-through, src_loop-IsMatrix}

-- Every cell is the length of a walk of the graph.
abbrev pub AreWalks : ℕ → (ℕ → ℕ → ℕ) → List Distance → Type 0
AreWalks n weight t = (a b : ℕ) → a < n → b < n → Walk weight n a b (get_solution_distance n t a b)

-- No walk through nodes below `top` is shorter than its cell.
abbrev pub NoneShorter : ℕ → (ℕ → ℕ → ℕ) → ℕ → List Distance → Type 0
NoneShorter n weight top t =
    (a b l : ℕ) → a < n → b < n → Walk weight top a b l → get_solution_distance n t a b ≤ l

min-cases : (x y : ℕ) → ((min x y ≡ x) × (x ≤ y)) ⊎ ((min x y ≡ y) × (y ≤ x))
min-cases x y = ground arith

module _ {n k : ℕ} {weight : ℕ → ℕ → ℕ} {t : List Distance} (mat : IsMatrix n t) (hk : k < n) where
  src_loop-AreWalks : AreWalks n weight t → AreWalks n weight (src_loop n k t)
  src_loop-AreWalks walks a b ha hb =
      let cell = src_loop-through mat hk a b ha hb in
      elim (min-cases (get_solution_distance n t a b)
        (get_solution_distance n t a k + get_solution_distance n t k b)) [
          | inl (direct, le) ↦ rw (cell, direct) (walks a b ha hb)
          | inr (via, le) ↦ join k hk (walks a k ha hk) (walks k b hk hb) (rw cell via)
        ]

  src_loop-NoneShorter : NoneShorter n weight k t → NoneShorter n weight (suc k) (src_loop n k t)
  src_loop-NoneShorter none a b l ha hb w =
      let cell = src_loop-through mat hk a b ha hb in
      elim (Walk-Split w) [
        | inl (l', shorter, le) ↦ let old = none a b l' ha hb shorter in ground arith
        | inr (x, y, to, from, le) ↦
            let first = none a k x ha hk to in let rest = none k b y hk hb from in ground arith
      ]

link-NoneShorter : (n : ℕ) (t : List Distance) → NoneShorter n (get_link_distance n t) 0 t
link-NoneShorter n t a b l ha hb (link i j e) = omega arith
link-NoneShorter n t a b l ha hb (join m lt w v e) = absurd (omega arith)

-- The state before the round for `k`.
abbrev pub Before : ℕ → List Distance → ℕ → List Distance → Type 0
Before n topology k t =
    IsMatrix n t
    × AreWalks n (get_link_distance n topology) t
    × NoneShorter n (get_link_distance n topology) k t

floyd_warshall-Before :
    {n : ℕ} {topology : List Distance}
    → IsMatrix n topology
    → Before n topology n (floyd_warshall n topology)
unfolding floyd_warshall
floyd_warshall-Before {n} {topology} mat =
    for_from_keeps (Before n topology) (λ k. src_loop n k) n
      (λ k t hk (is, walks, none).
        (src_loop-IsMatrix is hk, src_loop-AreWalks is hk walks, src_loop-NoneShorter is hk none))
      n 0 topology (omega arith) (mat, λ a b ha hb. link a b refl, link-NoneShorter n topology)

-- Of a block of n * n distances up to inf_distance, floyd_warshall computes for every two nodes a
-- and b below n the length of a walk from a to b through the links of the block, and every walk
-- from a to b through nodes below n is at least as long.
pub floyd_warshall_shortest :
    {n : ℕ} {topology : List Distance}
    → IsMatrix n topology
    → (a b : ℕ) → a < n
    → b < n
    → Walk
        (get_link_distance n topology)
        n
        a
        b
        (get_solution_distance n (floyd_warshall n topology) a b)
      × ((l : ℕ)
          → Walk (get_link_distance n topology) n a b l
          → get_solution_distance n (floyd_warshall n topology) a b ≤ l)
floyd_warshall_shortest mat a b ha hb =
    let (is, walks, none) = floyd_warshall-Before mat in
    (walks a b ha hb, λ l w. none a b l ha hb w)

-- Of a block of n * n distances up to inf_distance, floyd_warshall makes such a block again, in
-- which for all nodes a, k and b below n the distance from a to b is at most the one from a to k
-- plus the one from k to b.
pub floyd_warshall_triangle :
    {n : ℕ} {topology : List Distance}
    → IsMatrix n topology
    → IsMatrix n (floyd_warshall n topology)
      × ((a k b : ℕ)
          → a < n
          → k < n
          → b < n
          → get_solution_distance n (floyd_warshall n topology) a b
            ≤ get_solution_distance n (floyd_warshall n topology) a k
              + get_solution_distance n (floyd_warshall n topology) k b)
floyd_warshall_triangle mat =
    let (is, walks, none) = floyd_warshall-Before mat in
    (is, λ a k b ha hk hb. none a b _ ha hb (join k hk (walks a k ha hk) (walks k b hk hb) refl))
