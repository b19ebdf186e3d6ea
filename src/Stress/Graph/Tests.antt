-- ===== src/Stress/Graph/Tests.antt =====
-- Tests of the distance matrices, and the concrete uses of the theorems about them.
use concurrencylab.Common.{
  ℕ, zero, suc, ◌+◌, ◌≤◌, ◌<◌, ◌≡◌, arith, List, ◌∷◌, [], Bool, true, leb, ◌&&◌, get_or, refl,
}
use concurrencylab.Stress.Graph.{
  Distance, inf_distance, get_link_distance, get_solution_distance, floyd_warshall, relax, dst_loop,
  src_loop,
}
use concurrencylab.Stress.Graph.Walks.{Walk}
use concurrencylab.Stress.Graph.Round.{IsMatrix}
use concurrencylab.Stress.Graph.Recurrence.{distance_below, floyd_warshall_recurrence}
use concurrencylab.Stress.Graph.Shortest.{floyd_warshall_shortest, floyd_warshall_triangle}

-- Three nodes; the direct way from 0 to 1 is longer than the one through 2, and 1 has no link to 0.
abbrev three : List Distance
three = 0 ∷ 7 ∷ 2 ∷ inf_distance ∷ 0 ∷ 4 ∷ 2 ∷ 4 ∷ 0 ∷ []

three_test : floyd_warshall 3 three ≡ 0 ∷ 6 ∷ 2 ∷ 6 ∷ 0 ∷ 4 ∷ 2 ∷ 4 ∷ 0 ∷ []
unfolding floyd_warshall src_loop dst_loop relax concurrencylab.Common.for_from
three_test = refl

abbrev all_bounded : List Distance → Bool
all_bounded [] = true
all_bounded (d ∷ ds) = leb d inf_distance && all_bounded ds

bounded_get : (ds : List Distance) (i : ℕ) → all_bounded ds ≡ true → get_or ds i 0 ≤ inf_distance
bounded_get [] i h = omega arith
bounded_get (d ∷ ds) zero h = ground arith
bounded_get (d ∷ ds) (suc i) h = bounded_get ds i (ground arith)

three-IsMatrix : IsMatrix 3 three
three-IsMatrix = record { size = refl; bounded = λ a b ha hb. bounded_get three _ refl }

floyd_warshall_shortest_example :
    Walk (get_link_distance 3 three) 3 0 1 (get_solution_distance 3 (floyd_warshall 3 three) 0 1)
    × ((l : ℕ)
        → Walk (get_link_distance 3 three) 3 0 1 l
        → get_solution_distance 3 (floyd_warshall 3 three) 0 1 ≤ l)
floyd_warshall_shortest_example =
    floyd_warshall_shortest three-IsMatrix 0 1 (omega arith) (omega arith)

floyd_warshall_triangle_example :
    IsMatrix 3 (floyd_warshall 3 three)
    × ((a k b : ℕ)
        → a < 3
        → k < 3
        → b < 3
        → get_solution_distance 3 (floyd_warshall 3 three) a b
          ≤ get_solution_distance 3 (floyd_warshall 3 three) a k
            + get_solution_distance 3 (floyd_warshall 3 three) k b)
floyd_warshall_triangle_example = floyd_warshall_triangle three-IsMatrix

floyd_warshall_recurrence_example :
    get_solution_distance 3 (floyd_warshall 3 three) 0 1
    ≡ distance_below (get_link_distance 3 three) 3 0 1
floyd_warshall_recurrence_example =
    floyd_warshall_recurrence three-IsMatrix 0 1 (omega arith) (omega arith)
