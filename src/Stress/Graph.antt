-- ===== src/Stress/Graph.antt =====
-- The distance matrices of concurrencylab-edit/stress.c: `topology`, `solution`, and the
-- Floyd-Warshall algorithm. A matrix is the block that the global variable points to, row by row.
pub mod Cells
pub mod Walks
pub mod Round
pub mod Shortest
pub mod Recurrence
mod Tests
use concurrencylab.Common.{ℕ, ◌+◌, ◌*◌, ◌%◌, ◌^◌, List, ltb, if◌then◌else◌, get_or, set, for_from}

-- `distance_t`, an `unsigned int`
abbrev pub Distance : Type 0
Distance = ℕ

abbrev pub inf_distance : Distance
inf_distance = 0x7fffffff

-- the sum of two values of type `distance_t`
abbrev pub add_distance : Distance → Distance → Distance
add_distance a b = (a + b) % 2 ^ 32

-- `num_channel`, the number of nodes, is an argument. A read outside the block gives 0; that none
-- happens follows from `cell-lt`.
abbrev pub get_link_distance : ℕ → List Distance → ℕ → ℕ → Distance
get_link_distance num_channel topology src dst = get_or topology (src * num_channel + dst) 0

abbrev pub set_link_distance : ℕ → ℕ → ℕ → Distance → List Distance → List Distance
set_link_distance num_channel src dst distance topology =
    set topology (src * num_channel + dst) distance

abbrev pub get_solution_distance : ℕ → List Distance → ℕ → ℕ → Distance
get_solution_distance num_channel solution src dst = get_or solution (src * num_channel + dst) 0

abbrev pub set_solution_distance : ℕ → ℕ → ℕ → Distance → List Distance → List Distance
set_solution_distance num_channel src dst distance solution =
    set solution (src * num_channel + dst) distance

-- The body of the innermost loop.
unfoldable pub relax : ℕ → ℕ → ℕ → ℕ → List Distance → List Distance
relax num_channel intermediate src dst solution =
    let through =
      add_distance (get_solution_distance num_channel solution src intermediate)
        (get_solution_distance num_channel solution intermediate dst) in
    if ltb through (get_solution_distance num_channel solution src dst)
    then set_solution_distance num_channel src dst through solution
    else solution

unfoldable pub dst_loop : ℕ → ℕ → ℕ → List Distance → List Distance
dst_loop num_channel intermediate src =
    for_from num_channel 0 (λ dst. relax num_channel intermediate src dst)

unfoldable pub src_loop : ℕ → ℕ → List Distance → List Distance
src_loop num_channel intermediate =
    for_from num_channel 0 (λ src. dst_loop num_channel intermediate src)

-- `solution` behind the call: it begins as a copy of `topology`.
unfoldable pub floyd_warshall : ℕ → List Distance → List Distance
floyd_warshall num_channel topology =
    for_from num_channel 0 (λ intermediate. src_loop num_channel intermediate) topology
