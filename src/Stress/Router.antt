-- ===== src/Stress/Router.antt =====
-- How a router of concurrencylab-edit/stress.c takes in the distances of a neighbour, and how
-- `check_done` compares the vectors of all routers with the solution.
pub mod Update
pub mod Vectors
pub mod Lowered
pub mod Fixpoint
pub mod Quiet
mod Tests
use concurrencylab.Common.{
  ℕ, Option, none, some, List, get_or, set, Bool, true, false, ltb, ◌==◌, ◌&&◌, if◌then◌else◌,
  for_from,
}
use concurrencylab.Stress.Graph.{
  Distance, inf_distance, add_distance, get_link_distance, get_solution_distance,
}

-- `distance_vector_t`
pub record DistanceVector : Type 0 where
  pub src : ℕ
  pub epoch : ℕ
  pub dist : List Distance

-- The body of the loop over the entries, on `changed` and `next_state->dist`.
unfoldable pub relax_entry :
    Distance → List Distance → ℕ → Bool × List Distance → Bool × List Distance
relax_entry neighbor_dist neighbor i (changed, next) =
    let new_dist = add_distance neighbor_dist (get_or neighbor i 0) in
    if ltb new_dist (get_or next i 0) then (true, set next i new_dist) else (changed, next)

unfoldable pub relax_entries :
    ℕ → Distance → List Distance → Bool × List Distance → Bool × List Distance
relax_entries num_channel neighbor_dist neighbor =
    for_from num_channel 0 (λ i. relax_entry neighbor_dist neighbor i)

-- What a router does with the vector of a neighbour; `none` is the failed assertion.
unfoldable pub take_in :
    ℕ → List Distance → ℕ → DistanceVector → Bool × DistanceVector → Option (Bool × DistanceVector)
take_in num_channel topology index neighbor_state (changed, next_state) =
    let neighbor_dist = get_link_distance num_channel topology index neighbor_state.src in
    if neighbor_dist == inf_distance
    then none
    else let (changed, dist) =
        relax_entries num_channel neighbor_dist neighbor_state.dist (changed, next_state.dist) in
      some (changed, record next_state { dist = dist })

-- The loops of `check_done` that check the results; `false` is a failed assertion.
unfoldable pub check_row : ℕ → List Distance → (ℕ → DistanceVector) → ℕ → Bool → Bool
check_row num_channel solution completed src = for_from num_channel 0 (λ dst ok.
    ok && (get_or (completed src).dist dst 0 == get_solution_distance num_channel solution src dst))

unfoldable pub check_results : ℕ → List Distance → (ℕ → DistanceVector) → Bool
check_results num_channel solution completed =
    for_from num_channel 0 (λ src. check_row num_channel solution completed src) true
