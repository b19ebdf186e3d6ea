-- ===== src/Stress/Router/Fixpoint.antt =====
-- Vectors that no link would shorten any more are the solution.
use concurrencylab.Common.{
  ℕ, ◌+◌, ◌≤◌, ◌<◌, ◌≡◌, ◌≢◌, arith, List, get_or, ℕ_discrete, ap, Bool, true, for_from_keeps, refl,
}
use concurrencylab.Stress.Graph.{
  Distance, inf_distance, get_link_distance, get_solution_distance, floyd_warshall,
}
use concurrencylab.Stress.Graph.Walks.{Walk, link, join}
use concurrencylab.Stress.Graph.Round.{IsMatrix}
use concurrencylab.Stress.Graph.Shortest.{floyd_warshall_shortest}
use concurrencylab.Stress.Router.{DistanceVector, check_row, check_results}
use concurrencylab.Stress.Router.Vectors.{IsVector, bounded}

-- The link from `a` to `m`, and the way on from `m`, are no shorter.
abbrev pub NoShortcut : ℕ → List Distance → (ℕ → DistanceVector) → Type 0
NoShortcut n topology vectors =
    (a m b : ℕ)
    → a < n
    → m < n
    → b < n
    → a ≢ m
    → get_link_distance n topology a m ≢ inf_distance
    → get_or (vectors a).dist b 0 ≤ get_link_distance n topology a m + get_or (vectors m).dist b 0

module _ {n : ℕ} {topology : List Distance} {vectors : ℕ → DistanceVector}
    (mat : IsMatrix n topology) (are : (a : ℕ) → a < n → IsVector n topology a (vectors a)) where
  abbrev distance : ℕ → ℕ → Distance
  distance a b = get_or (vectors a).dist b 0

  -- Vectors of walks are never shorter than the solution.
  pub solution-le :
      (a b : ℕ)
      → a < n
      → b < n
      → get_solution_distance n (floyd_warshall n topology) a b ≤ distance a b
  solution-le a b ha hb =
      let (walk, shortest) = floyd_warshall_shortest mat a b ha hb in
      let here = are a ha in shortest _ (here.walks b hb)

module _ {n : ℕ} {topology : List Distance} {vectors : ℕ → DistanceVector}
    (mat : IsMatrix n topology) (are : (a : ℕ) → a < n → IsVector n topology a (vectors a))
    (over : NoShortcut n topology vectors) where
  over-Walk :
      {i j l : ℕ} (b : ℕ)
      → i < n
      → j < n
      → b < n
      → Walk (get_link_distance n topology) n i j l
      → get_or (vectors i).dist b 0 ≤ l + get_or (vectors j).dist b 0
  over-Walk b hi hj hb (link i j e) = elim (ℕ_discrete i j) [
    | yes is ↦ omega (arith, ap (λ k. get_or (vectors k).dist b 0) is)
    | no other ↦ elim (ℕ_discrete (get_link_distance n topology i j) inf_distance) [
      | yes infinite ↦ omega (arith, bounded mat i (vectors i) hi (are i hi) b hb)
      | no finite ↦ omega (arith, over i j b hi hj hb other finite)
    ]
  ]
  over-Walk b hi hj hb (join m lt w v e) =
      omega (arith, over-Walk b hi lt hb w, over-Walk b lt hj hb v)

  none_shorter :
      {i b l : ℕ}
      → i < n
      → b < n
      → Walk (get_link_distance n topology) n i b l
      → get_or (vectors i).dist b 0 ≤ l
  none_shorter hi hb (link i b e) = let here = are i hi in omega (arith, here.direct b hb)
  none_shorter hi hb (join m lt w v e) = omega (arith, over-Walk _ hi lt hb w, none_shorter lt hb v)

  pub is_solution :
      (a b : ℕ)
      → a < n
      → b < n
      → get_or (vectors a).dist b 0 ≡ get_solution_distance n (floyd_warshall n topology) a b
  is_solution a b ha hb =
      let (walk, shortest) = floyd_warshall_shortest mat a b ha hb in
      omega (arith, none_shorter ha hb walk, solution-le mat are a b ha hb)

  check_row-passes :
      (a : ℕ) (ok : Bool)
      → a < n
      → ok ≡ true
      → check_row n (floyd_warshall n topology) vectors a ok ≡ true
  unfolding check_row
  check_row-passes a ok ha start =
      for_from_keeps (λ _ ok. ok ≡ true) _ n
        (λ b ok hb so_far. let cell = is_solution a b ha hb in ground arith) n 0 ok (omega arith)
        start

  pub check_results-passes : check_results n (floyd_warshall n topology) vectors ≡ true
  unfolding check_results
  check_results-passes =
      for_from_keeps (λ _ ok. ok ≡ true) _ n (λ a ok ha so_far. check_row-passes a ok ha so_far) n 0
        true (omega arith) refl
