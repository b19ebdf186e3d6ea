-- ===== src/Stress/Graph/Walks.antt =====
-- Walks in a graph with weights on its links, and how they split at the highest node on the way.
use concurrencylab.Common.{
  ℕ, suc, ◌+◌, ◌≤◌, ◌<◌, ◌≡◌, ◌⊎◌, inl, inr, refl, arith, ℕ_discrete, subst,
}

-- A walk from `i` to `j` of a given length, whose nodes between the ends are below `top`.
pub data Walk (weight : ℕ → ℕ → ℕ) (top : ℕ) : ℕ → ℕ → ℕ → Type 0 where
  link : (i j : ℕ) {length : ℕ} → length ≡ weight i j → Walk weight top i j length
  join :
      {i j a b : ℕ} (m : ℕ) {length : ℕ}
      → m < top
      → Walk weight top i m a
      → Walk weight top m j b
      → length ≡ a + b
      → Walk weight top i j length

-- A walk that is no longer, and uses nodes below `top` only; or one to `top` and one from there.
abbrev pub Split : (ℕ → ℕ → ℕ) → ℕ → ℕ → ℕ → ℕ → Type 0
Split weight top i j length =
    ((l : ℕ) × Walk weight top i j l × (l ≤ length))
    ⊎ ((a : ℕ) × (b : ℕ) × Walk weight top i top a × Walk weight top top j b × (a + b ≤ length))

module _ {weight : ℕ → ℕ → ℕ} {top : ℕ} where
  to_top :
      {i length : ℕ}
      → Split weight top i top length
      → (a : ℕ) × Walk weight top i top a × (a ≤ length)
  to_top (inl w) = w
  to_top (inr (a, b, w, v, le)) = (a, w, omega arith)

  from_top :
      {j length : ℕ}
      → Split weight top top j length
      → (b : ℕ) × Walk weight top top j b × (b ≤ length)
  from_top (inl w) = w
  from_top (inr (a, b, w, v, le)) = (b, v, omega arith)

  Split-join :
      {i j x y length : ℕ} (m : ℕ)
      → m < top
      → Split weight top i m x
      → Split weight top m j y
      → length ≡ x + y
      → Split weight top i j length
  Split-join m lt (inl (l, w, le)) (inl (l', w', le')) e =
      inl (l + l', join m lt w w' refl, omega arith)
  Split-join m lt (inl (l, w, le)) (inr (a, b, to, from, le')) e =
      inr (l + a, b, join m lt w to refl, from, omega arith)
  Split-join m lt (inr (a, b, to, from, le)) (inl (l, w, le')) e =
      inr (a, b + l, to, join m lt from w refl, omega arith)
  Split-join m lt (inr (a, b, to, from, le)) (inr (a', b', to', from', le')) e =
      inr (a, b', to, from', omega arith)

pub Walk-Split :
    {weight : ℕ → ℕ → ℕ} {top i j length : ℕ}
    → Walk weight (suc top) i j length
    → Split weight top i j length
Walk-Split (link i j e) = inl (_, link i j e, omega arith)
Walk-Split {weight} {top} {i} {j} (join {a = a} {b = b} m lt w v e) = elim (ℕ_discrete m top) [
  | yes is_top ↦
      let (x, to, to_le) = to_top (subst (λ k. Split weight top i k a) is_top (Walk-Split w)) in
      let (y, from, from_le) =
        from_top (subst (λ k. Split weight top k j b) is_top (Walk-Split v)) in
      inr (x, y, to, from, omega arith)
  | no other ↦ Split-join m (omega arith) (Walk-Split w) (Walk-Split v) e
]
