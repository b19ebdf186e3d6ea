-- ===== src/Stress/Router/Lowered.antt =====
-- A vector that takes in another has a smaller sum, or is as it was.
use concurrencylab.Common.{
  ℕ, zero, suc, ◌+◌, ◌*◌, ◌≤◌, ◌<◌, ◌≡◌, ◌⊎◌, inl, inr, refl, arith, Option, none, some, List, [],
  ◌∷◌, length, get_or, set, Bool, true, ltb, ◌==◌, Bool-cases, for_from_keeps,
}
use concurrencylab.Stress.Graph.{Distance, inf_distance, add_distance, get_link_distance}
use concurrencylab.Stress.Router.{DistanceVector, relax_entry, relax_entries, take_in}

-- the sum of the entries
abbrev pub sum : List Distance → ℕ
sum [] = 0
sum (d ∷ ds) = d + sum ds

sum-set_lt :
    (ds : List Distance) (i : ℕ) (d : Distance) → d < get_or ds i 0 → sum (set ds i d) < sum ds
sum-set_lt [] i d h = absurd (omega arith)
sum-set_lt (x ∷ ds) zero d h = omega arith
sum-set_lt (x ∷ ds) (suc i) d h = omega (arith, sum-set_lt ds i d h)

pub sum-le :
    (ds : List Distance) (bound : ℕ)
    → ((b : ℕ) → b < length ds → get_or ds b 0 ≤ bound)
    → sum ds ≤ length ds * bound
sum-le [] bound h = omega arith
sum-le (d ∷ ds) bound h =
    let first : d ≤ bound = h 0 (omega arith) in
    let rest = sum-le ds bound (λ b hb. h (suc b) (omega arith)) in grind arith

-- From `changed` and a vector: `changed` is set only with a smaller sum.
abbrev Lowered : Bool → List Distance → Bool × List Distance → Type 0
Lowered changed dist (changed', dist') =
    (sum dist' ≤ sum dist) × (changed' ≡ true → (changed ≡ true) ⊎ (sum dist' < sum dist))

relax_entry-Lowered :
    (neighbor_dist : Distance) (neighbor : List Distance) (i : ℕ) (changed : Bool)
    (dist : List Distance) (t : Bool × List Distance)
    → Lowered changed dist t
    → Lowered changed dist (relax_entry neighbor_dist neighbor i t)
unfolding relax_entry
relax_entry-Lowered neighbor_dist neighbor i changed dist (changed', t) (le, lower) =
    elim (Bool-cases (ltb (add_distance neighbor_dist (get_or neighbor i 0)) (get_or t i 0))) [
      | inl way ↦
          let less =
            sum-set_lt t i (add_distance neighbor_dist (get_or neighbor i 0)) (ground arith) in
          rw way (omega arith, λ e. inr (omega arith))
      | inr no_way ↦ rw no_way (le, lower)
    ]

relax_entries-Lowered :
    (n : ℕ) (neighbor_dist : Distance) (neighbor : List Distance) (changed : Bool)
    (dist : List Distance)
    → Lowered changed dist (relax_entries n neighbor_dist neighbor (changed, dist))
unfolding relax_entries
relax_entries-Lowered n neighbor_dist neighbor changed dist =
    for_from_keeps (λ i t. Lowered changed dist t) (λ i. relax_entry neighbor_dist neighbor i) n
      (λ i t hi low. relax_entry-Lowered neighbor_dist neighbor i changed dist t low) n 0
      (changed, dist) (omega arith) (omega arith, λ e. inl e)

-- The same for the result of `take_in`, which leaves the epoch alone.
abbrev pub TookLess : Bool → DistanceVector → Option (Bool × DistanceVector) → Type 0
TookLess changed w none = changed ≡ changed
TookLess changed w (some (c, u)) = (u.epoch ≡ w.epoch) × Lowered changed w.dist (c, u.dist)

pub take_in-TookLess :
    (n : ℕ) (topology : List Distance) (i : ℕ) (v : DistanceVector) (changed : Bool)
    (w : DistanceVector)
    → TookLess changed w (take_in n topology i v (changed, w))
unfolding take_in
take_in-TookLess n topology i v changed w =
    elim (Bool-cases (get_link_distance n topology i v.src == inf_distance)) [
      | inl e ↦ rw e refl
      | inr e ↦ rw e (
        refl,
        relax_entries-Lowered n (get_link_distance n topology i v.src) v.dist changed w.dist,
      )
    ]
