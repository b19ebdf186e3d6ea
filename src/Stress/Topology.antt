-- ===== src/Stress/Topology.antt =====
-- `create_topology` of concurrencylab-edit/stress.c. The numbers that the calls of `fscanf` give are
-- the contents of the file; a call behind the last of them gives none.
pub mod Laws
mod Tests
use concurrencylab.Common.{
  ℕ, ◌+◌, ◌*◌, ◌%◌, ◌/◌, ◌++◌, ◌&&◌, take, drop, leb, Option, none, some, List, [], ◌∷◌, length,
  ltb, ◌==◌, if◌then◌else◌, for_from, store, size_mod,
}
use concurrencylab.Stress.Graph.{Distance, inf_distance, floyd_warshall}

-- `malloc k n`: the cells of the block that call `k` of the function gets for `n` bytes; `none`
-- is NULL.
abbrev pub MallocDistances : Type 0
MallocDistances = ℕ → ℕ → Option (List Distance)

abbrev pub distance_bytes : ℕ
distance_bytes = 4

-- The outcome: `false`; a failed assertion; undefined behaviour, an access outside a block; or
-- `true` with the global variables `num_channel`, `topology` and `solution`.
pub data Creation : Type 0 where
  no_file failed_assertion undefined : Creation
  created : ℕ → List Distance → List Distance → Creation

-- The state of the loops that fill `topology`: it, and the rest of the file.
pub data Filling : Type 0 where
  stopped : Creation → Filling
  filling : List Distance → List ℕ → Filling

-- negative values get converted to inf_distance
abbrev pub clamp : Distance → Distance
clamp distance = if ltb inf_distance distance then inf_distance else distance

unfoldable pub fill_cell : ℕ → ℕ → ℕ → Filling → Filling
fill_cell num_channel src dst (stopped outcome) = stopped outcome
fill_cell num_channel src dst (filling topology []) = stopped failed_assertion
fill_cell num_channel src dst (filling topology (distance ∷ rest)) =
    elim (store topology (src * num_channel + dst) (clamp distance)) [
      | none ↦ stopped undefined
      | some topology ↦ filling topology rest
    ]

unfoldable pub fill_row : ℕ → ℕ → Filling → Filling
fill_row num_channel src = for_from num_channel 0 (λ dst. fill_cell num_channel src dst)

unfoldable pub fill : ℕ → Filling → Filling
fill num_channel = for_from num_channel 0 (λ src. fill_row num_channel src)

-- `memcpy` of whole cells; `none` is an access outside a block.
unfoldable pub copy_cells : ℕ → List Distance → List Distance → Option (List Distance)
copy_cells cells source target =
    if leb cells (length source) && leb cells (length target)
    then some (take cells source ++ drop cells target)
    else none

-- The end of the function: `floyd_warshall`, whose loops work in the block that `memcpy` has filled
-- and stay inside it if it has `num_channel * num_channel` cells, and `return true`.
unfoldable pub solve : ℕ → List Distance → Filling → Creation
solve num_channel solution (stopped outcome) = outcome
solve num_channel solution (filling topology rest) =
    elim (copy_cells ((distance_bytes * num_channel * num_channel % size_mod) / distance_bytes)
      topology solution) [
        | none ↦ undefined
        | some copied ↦
            if leb (num_channel * num_channel) (length solution)
            then created num_channel topology (floyd_warshall num_channel copied)
            else undefined
      ]

-- The function from the first `assert` on.
unfoldable pub create_from : MallocDistances → ℕ → List ℕ → Creation
create_from malloc num_channel rest =
    if num_channel == 0
    then failed_assertion
    else elim (malloc 0 (distance_bytes * num_channel * num_channel % size_mod)) [
      | none ↦ failed_assertion
      | some topology ↦ elim (malloc 1 (distance_bytes * num_channel * num_channel % size_mod)) [
        | none ↦ failed_assertion
        | some solution ↦ solve num_channel solution (fill num_channel (filling topology rest))
      ]
    ]

unfoldable pub create_topology : MallocDistances → Option (List ℕ) → Creation
create_topology malloc none = no_file
create_topology malloc (some []) = failed_assertion
create_topology malloc (some (num_channel ∷ rest)) = create_from malloc num_channel rest
