-- ===== src/Stress/Router/Tests.antt =====
-- Tests of the routers, and the concrete uses of the theorems about them.
use concurrencylab.Common.{
  ℕ, zero, suc, ◌+◌, ◌*◌, ◌≤◌, ◌<◌, ◌≡◌, ◌≢◌, min, arith, Option, some, List, ◌∷◌, [], get_or,
  length, Bool, true, false, refl,
}
use concurrencylab.Stress.Graph.{Distance, inf_distance, get_link_distance, floyd_warshall}
use concurrencylab.Stress.Graph.Walks.{link}
use concurrencylab.Stress.Graph.Round.{IsMatrix}
use concurrencylab.Stress.Router.{
  DistanceVector, relax_entry, relax_entries, take_in, check_results,
}
use concurrencylab.Stress.Router.Vectors.{IsVector, take_in_keeps}
use concurrencylab.Stress.Router.Quiet.{Quiet, quiet_passes}

-- Two nodes with a link of length 5.
abbrev two : List Distance
two = 0 ∷ 5 ∷ 5 ∷ 0 ∷ []

abbrev vector_of : ℕ → DistanceVector
vector_of zero = record { src = 0; epoch = 2; dist = 0 ∷ 5 ∷ [] }
vector_of (suc a) = record { src = 1; epoch = 2; dist = 5 ∷ 0 ∷ [] }

-- The neighbour 0 knows a shorter way to node 2.
take_in_test :
    take_in 3
      (0 ∷ 7 ∷ 2 ∷ 7 ∷ 0 ∷ 20 ∷ 2 ∷ 20 ∷ 0 ∷ [])
      1
      (record { src = 0; epoch = 2; dist = 0 ∷ 7 ∷ 2 ∷ [] })
      (false, record { src = 1; epoch = 3; dist = 7 ∷ 0 ∷ 20 ∷ [] })
    ≡ some (true, record { src = 1; epoch = 3; dist = 7 ∷ 0 ∷ 9 ∷ [] })
unfolding take_in relax_entries relax_entry concurrencylab.Common.for_from
take_in_test = refl

two-IsMatrix : IsMatrix 2 two
two-IsMatrix = record { size = refl; bounded = bound }
  where
    bound : (a b : ℕ) → a < 2 → b < 2 → get_or two (a * 2 + b) 0 ≤ inf_distance
    bound zero zero ha hb = omega arith
    bound zero (suc zero) ha hb = omega arith
    bound zero (suc (suc b)) ha hb = absurd (omega arith)
    bound (suc zero) zero ha hb = omega arith
    bound (suc zero) (suc zero) ha hb = omega arith
    bound (suc zero) (suc (suc b)) ha hb = absurd (omega arith)
    bound (suc (suc a)) b ha hb = absurd (omega arith)

vector-entry :
    (a b : ℕ) → a < 2 → b < 2 → get_or (vector_of a).dist b 0 ≡ get_link_distance 2 two a b
vector-entry zero zero ha hb = refl
vector-entry zero (suc zero) ha hb = refl
vector-entry (suc zero) zero ha hb = refl
vector-entry (suc zero) (suc zero) ha hb = refl
vector-entry zero (suc (suc b)) ha hb = absurd (omega arith)
vector-entry (suc zero) (suc (suc b)) ha hb = absurd (omega arith)
vector-entry (suc (suc a)) b ha hb = absurd (omega arith)

vector-size : (a : ℕ) → a < 2 → ((vector_of a).src ≡ a) × (length (vector_of a).dist ≡ 2)
vector-size zero ha = (refl, refl)
vector-size (suc zero) ha = (refl, refl)
vector-size (suc (suc a)) ha = absurd (omega arith)

vectors-IsVector : (a : ℕ) → a < 2 → IsVector 2 two a (vector_of a)
vectors-IsVector a ha =
    let (node, size) = vector-size a ha in
    record {
      node = node;
      size = size;
      walks = λ b hb. link a b (vector-entry a b ha hb);
      direct = λ b hb. omega (arith, vector-entry a b ha hb);
    }

two-Quiet : Quiet 2 two vector_of
unfolding take_in relax_entries relax_entry concurrencylab.Common.for_from
two-Quiet zero zero ha hm other finite = absurd (other refl)
two-Quiet zero (suc zero) ha hm other finite = refl
two-Quiet zero (suc (suc m)) ha hm other finite = absurd (omega arith)
two-Quiet (suc zero) zero ha hm other finite = refl
two-Quiet (suc zero) (suc zero) ha hm other finite = absurd (other refl)
two-Quiet (suc zero) (suc (suc m)) ha hm other finite = absurd (omega arith)
two-Quiet (suc (suc a)) m ha hm other finite = absurd (omega arith)

quiet_passes_example : check_results 2 (floyd_warshall 2 two) vector_of ≡ true
quiet_passes_example = quiet_passes two-IsMatrix vectors-IsVector two-Quiet

take_in_keeps_example :
    (c : Bool) × (u : DistanceVector) × (take_in 2 two 0 (vector_of 1) (false, vector_of 0)
      ≡ some (c, u))
    × IsVector 2 two 0 u
    × ((b : ℕ)
        → b < 2
        → get_or u.dist b 0
          ≡ min
              (get_or (vector_of 0).dist b 0)
              (get_link_distance 2 two 0 1 + get_or (vector_of 1).dist b 0))
take_in_keeps_example =
    take_in_keeps two-IsMatrix 0 1 (vector_of 1) (vector_of 0) false (omega arith) (omega arith)
      (vectors-IsVector 1 (omega arith)) (vectors-IsVector 0 (omega arith)) (omega arith)
