-- ===== src/Stress/Graph/Recurrence.antt =====
-- The recurrence that the three loops of `floyd_warshall` solve in place.
use concurrencylab.Common.{ℕ, zero, suc, ◌+◌, ◌<◌, ◌≡◌, ◌∙◌, refl, arith, List, for_from_keeps, min}
use concurrencylab.Stress.Graph.{
  Distance, get_link_distance, get_solution_distance, src_loop, floyd_warshall,
}
use concurrencylab.Stress.Graph.Round.{IsMatrix, src_loop-through, src_loop-IsMatrix}

-- The distance from `a` to `b` by ways whose inner nodes are below a bound.
abbrev pub distance_below : (ℕ → ℕ → ℕ) → ℕ → ℕ → ℕ → ℕ
distance_below weight zero a b = weight a b
distance_below weight (suc k) a b =
    min (distance_below weight k a b) (distance_below weight k a k + distance_below weight k k b)

-- Of a block of n * n distances up to inf_distance, floyd_warshall computes for every two nodes a
-- and b below n what the recurrence gives after n rounds that starts with the links and in round k
-- takes the smaller of the distance from a to b and the distance from a to k plus the one from k
-- to b, all of the round before and added without a bound.
pub floyd_warshall_recurrence :
    {n : ℕ} {topology : List Distance}
    → IsMatrix n topology
    → (a b : ℕ) → a < n
    → b < n
    → get_solution_distance n (floyd_warshall n topology) a b
      ≡ distance_below (get_link_distance n topology) n a b
unfolding floyd_warshall
floyd_warshall_recurrence {n} {topology} mat =
    let (is, cells) =
      for_from_keeps
        (λ k t.
          IsMatrix n t
          × ((a b : ℕ)
              → a < n
              → b < n
              → get_solution_distance n t a b
                ≡ distance_below (get_link_distance n topology) k a b))
        (λ k. src_loop n k) n
        (λ k t hk (is, cells). (
          src_loop-IsMatrix is hk,
          λ a b ha hb.
              src_loop-through is hk a b ha hb
              ∙ rw (cells a b ha hb, cells a k ha hk, cells k b hk hb) refl,
        ))
        n 0 topology (omega arith) (mat, λ a b ha hb. refl) in
    cells
