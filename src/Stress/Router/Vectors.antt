-- ===== src/Stress/Router/Vectors.antt =====
-- The vectors of the routers as walks of the graph.
use concurrencylab.Common.{
  ℕ, ◌+◌, ◌≤◌, ◌<◌, ◌≡◌, ◌≢◌, ◌⊎◌, inl, inr, arith, some, List, length, get_or, Bool, false, ◌==◌,
  refl, subst, min,
}
use concurrencylab.Stress.Graph.{Distance, inf_distance, get_link_distance}
use concurrencylab.Stress.Graph.Walks.{Walk, link, join}
use concurrencylab.Stress.Graph.Round.{IsMatrix}
use concurrencylab.Stress.Router.{DistanceVector, relax_entries, take_in}
use concurrencylab.Stress.Router.Update.{Relaxed, relax_entries-Relaxed}

-- A vector of node `a`: the lengths of walks, and never longer than the links.
pub record IsVector (n : ℕ) (topology : List Distance) (a : ℕ) (v : DistanceVector) : Type 0 where
  pub node : v.src ≡ a
  pub size : length v.dist ≡ n
  pub walks : (b : ℕ) → b < n → Walk (get_link_distance n topology) n a b (get_or v.dist b 0)
  pub direct : (b : ℕ) → b < n → get_or v.dist b 0 ≤ get_link_distance n topology a b

min-cases : (x y : ℕ) → ((min x y ≡ x) × (x ≤ y)) ⊎ ((min x y ≡ y) × (y ≤ x))
min-cases x y = ground arith

-- What `take_in` gives, where the assertion holds.
pub take_in-eq :
    (n : ℕ) (topology : List Distance) (a : ℕ) (v : DistanceVector) (changed : Bool)
    (w : DistanceVector) (c : Bool) (d : List Distance)
    → get_link_distance n topology a v.src ≢ inf_distance
    → relax_entries n (get_link_distance n topology a v.src) v.dist (changed, w.dist) ≡ (c, d)
    → take_in n topology a v (changed, w) ≡ some (c, record w { dist = d })
unfolding take_in
take_in-eq n topology a v changed w c d finite e =
    let differs : (get_link_distance n topology a v.src == inf_distance) ≡ false = ground arith in
    rw (differs, e) refl

module _ {n : ℕ} {topology : List Distance} (mat : IsMatrix n topology) where
  pub bounded :
      (a : ℕ) (v : DistanceVector)
      → a < n
      → IsVector n topology a v
      → (b : ℕ) → b < n
      → get_or v.dist b 0 ≤ inf_distance
  bounded a v ha is b hb = omega (arith, is.direct b hb, mat.bounded a b ha hb)

  pub relaxed :
      (a m : ℕ) (v w : DistanceVector) (changed : Bool)
      → a < n
      → m < n
      → IsVector n topology m v
      → IsVector n topology a w
      → Relaxed n
          (get_link_distance n topology a v.src)
          v.dist
          (changed, w.dist)
          n
          (relax_entries n (get_link_distance n topology a v.src) v.dist (changed, w.dist))
  relaxed a m v w changed ha hm isv isw =
      relax_entries-Relaxed v.dist (rw isv.node (mat.bounded a m ha hm)) (bounded m v hm isv)
        changed w.dist isw.size

  -- The shorter ways are walks again.
  Relaxed-IsVector :
      (a m : ℕ) (v w : DistanceVector) (changed c : Bool) (d : List Distance)
      → a < n
      → m < n
      → IsVector n topology m v
      → IsVector n topology a w
      → Relaxed n (get_link_distance n topology a m) v.dist (changed, w.dist) n (c, d)
      → IsVector n topology a (record w { dist = d })
        × ((b : ℕ)
            → b < n
            → get_or d b 0
              ≡ min (get_or w.dist b 0) (get_link_distance n topology a m + get_or v.dist b 0))
  Relaxed-IsVector a m v w changed c d ha hm isv isw (len, cells, quiet) =
      let shorter_cells : (b : ℕ)
          → b < n
          → get_or d b 0
            ≡ min (get_or w.dist b 0) (get_link_distance n topology a m + get_or v.dist b 0) =
        λ b hb. let cell = cells b hb in ground arith in
      (
        record {
          node = isw.node;
          size = len;
          walks = λ b hb.
              let cell = shorter_cells b hb in
              elim (min-cases (get_or w.dist b 0)
                (get_link_distance n topology a m + get_or v.dist b 0)) [
                  | inl (is, le) ↦ rw (cell, is) (isw.walks b hb)
                  | inr (is, le) ↦ join m hm (link a m refl) (isv.walks b hb) (rw cell is)
                ];
          direct =
              λ b hb. let cell = shorter_cells b hb in let old = isw.direct b hb in ground arith;
        },
        shorter_cells,
      )

  -- What `take_in` gives: the shorter distances, and `changed` unless there is none.
  abbrev pub TookIn : ℕ → ℕ → DistanceVector → DistanceVector → Bool → Type 0
  TookIn a m v w changed =
      (c : Bool) × (u : DistanceVector) × (take_in n topology a v (changed, w) ≡ some (c, u))
      × IsVector n topology a u
      × ((b : ℕ)
          → b < n
          → get_or u.dist b 0
            ≡ min (get_or w.dist b 0) (get_link_distance n topology a m + get_or v.dist b 0))
      × (c ≡ false
          → (changed ≡ false)
            × ((b : ℕ)
                → b < n
                → get_or w.dist b 0 ≤ get_link_distance n topology a m + get_or v.dist b 0))

  pub take_in-TookIn :
      (a m : ℕ) (v w : DistanceVector) (changed : Bool)
      → a < n
      → m < n
      → IsVector n topology m v
      → IsVector n topology a w
      → get_link_distance n topology a m ≢ inf_distance
      → TookIn a m v w changed
  take_in-TookIn a m v w changed ha hm isv isw finite =
      from _ refl (relaxed a m v w changed ha hm isv isw)
    where
      from :
          (r : Bool × List Distance)
          → relax_entries n (get_link_distance n topology a v.src) v.dist (changed, w.dist) ≡ r
          → Relaxed n (get_link_distance n topology a v.src) v.dist (changed, w.dist) n r
          → TookIn a m v w changed
      from (c, d) e rel =
          let at_m : Relaxed n (get_link_distance n topology a m) v.dist (changed, w.dist) n
              (c, d) =
            subst
              (λ k. Relaxed n (get_link_distance n topology a k) v.dist (changed, w.dist) n (c, d))
              isv.node rel in
          let (is, cells) = Relaxed-IsVector a m v w changed c d ha hm isv isw at_m in
          let (size, entries, quiet) = at_m in
          (
            c,
            record w { dist = d },
            take_in-eq n topology a v changed w c d (rw isv.node finite) e,
            is,
            cells,
            λ unchanged. let (was, all) = quiet unchanged in (was, λ b hb. all b hb hb),
          )

  -- On a matrix of distances up to inf_distance, a router at a with a vector of lengths of walks
  -- that are at most its links, which takes in such a vector of a node m to which it has a link
  -- below inf_distance, fails no assertion; each of its entries becomes the smaller of the old one
  -- and the link plus the neighbour's, and its vector is again one of lengths of walks that are at
  -- most its links.
  pub take_in_keeps :
      (a m : ℕ) (v w : DistanceVector) (changed : Bool)
      → a < n
      → m < n
      → IsVector n topology m v
      → IsVector n topology a w
      → get_link_distance n topology a m ≢ inf_distance
      → (c : Bool) × (u : DistanceVector) × (take_in n topology a v (changed, w) ≡ some (c, u))
        × IsVector n topology a u
        × ((b : ℕ)
            → b < n
            → get_or u.dist b 0
              ≡ min (get_or w.dist b 0) (get_link_distance n topology a m + get_or v.dist b 0))
  take_in_keeps a m v w changed ha hm isv isw finite =
      let (c, u, result, is, cells, quiet) = take_in-TookIn a m v w changed ha hm isv isw finite in
      (c, u, result, is, cells)
