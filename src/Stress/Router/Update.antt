-- ===== src/Stress/Router/Update.antt =====
-- What a router's vector is after that of a neighbour.
use concurrencylab.Common.{
  ℕ, suc, ◌+◌, ◌≤◌, ◌<◌, ◌≡◌, inl, inr, arith, List, length, get_or, length-set, get_or-set, Bool,
  false, ltb, if◌then◌else◌, Bool-cases, ℕ_discrete, min, for_from_keeps,
}
use concurrencylab.Stress.Graph.{Distance, inf_distance, add_distance}
use concurrencylab.Stress.Router.{relax_entry, relax_entries}

-- The distance to `b`, from the router or through the neighbour.
abbrev pub shorter : Distance → List Distance → List Distance → ℕ → ℕ
shorter neighbor_dist neighbor next b = min (get_or next b 0) (neighbor_dist + get_or neighbor b 0)

-- The state of the loop before entry `i`, from a `changed` and a `next`.
abbrev pub Relaxed :
    ℕ → Distance → List Distance → Bool × List Distance → ℕ → Bool × List Distance → Type 0
Relaxed n neighbor_dist neighbor (changed, next) i (changed', next') =
    (length next' ≡ n)
    × ((b : ℕ)
        → b < n
        → get_or next' b 0
          ≡ (if ltb b i then shorter neighbor_dist neighbor next b else get_or next b 0))
    × (changed' ≡ false
        → (changed ≡ false)
          × ((b : ℕ) → b < i → b < n → get_or next b 0 ≤ neighbor_dist + get_or neighbor b 0))

module _ {n : ℕ} {neighbor_dist : Distance} (neighbor : List Distance)
    (link : neighbor_dist ≤ inf_distance)
    (bounded : (b : ℕ) → b < n → get_or neighbor b 0 ≤ inf_distance) where
  relax_entry-Relaxed :
      (start : Bool × List Distance) (i : ℕ) (t : Bool × List Distance)
      → i < n
      → Relaxed n neighbor_dist neighbor start i t
      → Relaxed n neighbor_dist neighbor start (suc i) (relax_entry neighbor_dist neighbor i t)
  unfolding relax_entry
  relax_entry-Relaxed (changed, next) i (changed', t) hi (len, cells, quiet) =
      let small = bounded i hi in
      let sum : add_distance neighbor_dist (get_or neighbor i 0)
          ≡ neighbor_dist + get_or neighbor i 0 =
        omega arith in
      let old : get_or t i 0 ≡ get_or next i 0 = let cell = cells i hi in ground arith in
      elim (Bool-cases (ltb (add_distance neighbor_dist (get_or neighbor i 0)) (get_or t i 0))) [
        | inl way ↦ rw way (
          omega (arith, length-set t i (add_distance neighbor_dist (get_or neighbor i 0))),
          (λ b hb.
              let cell = cells b hb in
              let now =
                get_or-set t i (add_distance neighbor_dist (get_or neighbor i 0)) 0 b
                  (omega arith) in
              ground arith),
          λ e. absurd (ground arith),
        )
        | inr no_way ↦ rw no_way (
          len,
          (λ b hb. let cell = cells b hb in ground arith),
          λ e.
              let (was, below) = quiet e in
              (
                was,
                λ b hb hn. elim (ℕ_discrete b i) [
                  | yes is ↦ rw is (ground arith)
                  | no other ↦ below b (omega arith) hn
                ],
              ),
        )
      ]

  pub relax_entries-Relaxed :
      (changed : Bool) (next : List Distance)
      → length next ≡ n
      → Relaxed n neighbor_dist neighbor
          (changed, next)
          n
          (relax_entries n neighbor_dist neighbor (changed, next))
  unfolding relax_entries
  relax_entries-Relaxed changed next len =
      for_from_keeps (Relaxed n neighbor_dist neighbor (changed, next))
        (λ i. relax_entry neighbor_dist neighbor i) n
        (λ i t hi at. relax_entry-Relaxed (changed, next) i t hi at) n 0 (changed, next)
        (omega arith) (len, (λ b hb. ground arith), λ e. (e, λ b hb hn. absurd (omega arith)))
