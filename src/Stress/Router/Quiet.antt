-- ===== src/Stress/Router/Quiet.antt =====
-- When no router would change its vector any more, all vectors are right.
use concurrencylab.Common.{
  ℕ, ◌+◌, ◌≤◌, ◌<◌, ◌≡◌, ◌≢◌, ◌∙◌, Option, none, some, List, get_or, Bool, true, false, refl, sym,
  ap, subst,
}
use concurrencylab.Stress.Graph.{Distance, inf_distance, get_link_distance, floyd_warshall}
use concurrencylab.Stress.Graph.Round.{IsMatrix}
use concurrencylab.Stress.Router.{DistanceVector, relax_entries, take_in, check_results}
use concurrencylab.Stress.Router.Fixpoint.{check_results-passes}
use concurrencylab.Stress.Router.Update.{Relaxed}
use concurrencylab.Stress.Router.Vectors.{IsVector, relaxed, take_in-eq}

-- No router would change its vector on that of a neighbour.
abbrev pub Quiet : ℕ → List Distance → (ℕ → DistanceVector) → Type 0
Quiet n topology vectors =
    (a m : ℕ)
    → a < n
    → m < n
    → a ≢ m
    → get_link_distance n topology a m ≢ inf_distance
    → take_in n topology a (vectors m) (false, vectors a) ≡ some (false, vectors a)

abbrev changed_of : Option (Bool × DistanceVector) → Bool
changed_of none = true
changed_of (some (changed, v)) = changed

module _ {n : ℕ} {topology : List Distance} {vectors : ℕ → DistanceVector}
    (mat : IsMatrix n topology) (are : (a : ℕ) → a < n → IsVector n topology a (vectors a))
    (quiet : Quiet n topology vectors) where
  abbrev distance : ℕ → ℕ → Distance
  distance a b = get_or (vectors a).dist b 0

  over_link :
      (a m b : ℕ)
      → a < n
      → m < n
      → b < n
      → a ≢ m
      → get_link_distance n topology a m ≢ inf_distance
      → distance a b ≤ get_link_distance n topology a m + distance m b
  over_link a m b ha hm hb other finite =
      from _ refl (relaxed mat a m (vectors m) (vectors a) false ha hm (are m hm) (are a ha))
    where
      from :
          (r : Bool × List Distance)
          → relax_entries n
              (get_link_distance n topology a (vectors m).src)
              (vectors m).dist
              (false, (vectors a).dist)
            ≡ r
          → Relaxed n
              (get_link_distance n topology a (vectors m).src)
              (vectors m).dist
              (false, (vectors a).dist)
              n
              r
          → distance a b ≤ get_link_distance n topology a m + distance m b
      from (c, d) e (len, cells, unchanged) =
          let here = are m hm in
          let result =
            take_in-eq n topology a (vectors m) false (vectors a) c d (rw here.node finite) e in
          let (was, all) = unchanged (ap changed_of (sym result ∙ quiet a m ha hm other finite)) in
          subst (λ k. distance a b ≤ get_link_distance n topology a k + distance m b) here.node
            (all b hb hb)

  -- On a matrix of distances up to inf_distance, if the vector of each node consists of lengths of
  -- walks from it that are at most its links, and no router would change its vector on the vector
  -- of another node to which it has a link below inf_distance, then the assertions of check_done
  -- that compare the vectors with the result of floyd_warshall hold.
  pub quiet_passes : check_results n (floyd_warshall n topology) vectors ≡ true
  quiet_passes = check_results-passes mat are over_link
