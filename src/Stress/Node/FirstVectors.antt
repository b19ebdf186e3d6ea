-- ===== src/Stress/Node/FirstVectors.antt =====
-- The vectors of a router before its loop.
use concurrencylab.Common.{
  ℕ, ◌<◌, ◌≡◌, ◌∙◌, refl, ap, arith, List, length, length-set, length-replicate, replicate, get_or,
  get_or-set, true, false, ◌==◌, ℕ_discrete, for_from_keeps,
}
use concurrencylab.Stress.Graph.{Distance, get_link_distance}
use concurrencylab.Stress.Graph.Walks.{link}
use concurrencylab.Stress.Router.Vectors.{IsVector}
use concurrencylab.Stress.Node.{link_distances, first_vector}

module _ (n : ℕ) (topology : List Distance) (i : ℕ) where
  link_distances_lem :
      (fresh : List Distance)
      → length fresh ≡ n
      → (length (link_distances n topology i fresh) ≡ n)
        × ((b : ℕ)
            → b < n
            → get_or (link_distances n topology i fresh) b 0 ≡ get_link_distance n topology i b)
  unfolding link_distances
  link_distances_lem fresh size =
      for_from_keeps
        (λ k l.
          (length l ≡ n) × ((b : ℕ) → b < k → get_or l b 0 ≡ get_link_distance n topology i b))
        _ n
        (λ k l hk (len, cells). (
          omega (arith, length-set l k (get_link_distance n topology i k)),
          λ b hb.
              let now = get_or-set l k (get_link_distance n topology i k) 0 b (omega arith) in
              elim (ℕ_discrete k b) [
                | yes same ↦
                    let here : (k == b) ≡ true = ground arith in
                    now ∙ rw here (ap (get_link_distance n topology i) same)
                | no other ↦
                    let there : (k == b) ≡ false = ground arith in
                    now ∙ rw there (cells b (omega arith))
              ],
        ))
        n 0 fresh (omega arith) (size, λ b hb. absurd (omega arith))

  pub first_vector-IsVector : (epoch : ℕ) → IsVector n topology i (first_vector n topology i epoch)
  unfolding first_vector
  first_vector-IsVector epoch =
      let (size, cells) = link_distances_lem (replicate n 0) (length-replicate n 0) in
      record {
        node = refl;
        size = size;
        walks = λ b hb. link i b (cells b hb);
        direct = λ b hb. omega (arith, cells b hb);
      }
