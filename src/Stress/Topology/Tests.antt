-- ===== src/Stress/Topology/Tests.antt =====
-- Tests of `create_topology`, and the concrete use of the theorem about it.
use concurrencylab.Common.{
  ℕ, zero, suc, ◌+◌, ◌*◌, ◌%◌, ◌/◌, ◌≡◌, ◌<◌, arith, Option, none, some, List, ◌∷◌, [], replicate,
  get_or, refl,
}
use concurrencylab.Stress.Graph.{
  Distance, inf_distance, get_link_distance, floyd_warshall, relax, dst_loop, src_loop,
}
use concurrencylab.Stress.Graph.Round.{IsMatrix}
use concurrencylab.Stress.Topology.{
  MallocDistances, created, failed_assertion, undefined, solve, copy_cells, clamp, create_topology,
  create_from, fill, fill_row, fill_cell,
}
use concurrencylab.Stress.Topology.Laws.{create_topology_reads}

-- blocks with some old contents
abbrev dirty_blocks : MallocDistances
dirty_blocks k bytes = some (replicate (bytes / 4) 99)

-- -1 as an `unsigned int`
abbrev minus_one : ℕ
minus_one = 0xffffffff

abbrev numbers : List ℕ
numbers = 0 ∷ 5 ∷ minus_one ∷ 0 ∷ []

create_test :
    create_topology dirty_blocks (some (2 ∷ numbers))
    ≡ created 2 (0 ∷ 5 ∷ inf_distance ∷ 0 ∷ []) (0 ∷ 5 ∷ inf_distance ∷ 0 ∷ [])
unfolding create_topology create_from solve copy_cells fill fill_row fill_cell floyd_warshall
    src_loop dst_loop relax concurrencylab.Common.for_from
create_test = refl

short_file_test : create_topology dirty_blocks (some (2 ∷ 0 ∷ 5 ∷ [])) ≡ failed_assertion
unfolding create_topology create_from solve copy_cells fill fill_row fill_cell
    concurrencylab.Common.for_from
short_file_test = refl

-- The second block is too small for the copy.
abbrev small_blocks : MallocDistances
small_blocks zero bytes = some (replicate 4 99)
small_blocks (suc k) bytes = some (replicate 3 99)

small_block_test : create_topology small_blocks (some (2 ∷ numbers)) ≡ undefined
unfolding create_topology create_from solve copy_cells fill fill_row fill_cell
    concurrencylab.Common.for_from
small_block_test = refl

no_nodes_test : create_topology dirty_blocks (some (0 ∷ [])) ≡ failed_assertion
unfolding create_topology create_from
no_nodes_test = refl

create_topology_reads_example :
    (t : List Distance) × (create_topology dirty_blocks (some (2 ∷ numbers))
      ≡ created 2 t (floyd_warshall 2 t))
    × IsMatrix 2 t
    × ((a b : ℕ) → a < 2 → b < 2 → get_link_distance 2 t a b ≡ clamp (get_or numbers (a * 2 + b) 0))
create_topology_reads_example =
    create_topology_reads dirty_blocks 2 numbers {block = replicate 4 99} {other = replicate 4 99}
      (omega arith) (omega arith) refl refl refl refl (omega arith)
