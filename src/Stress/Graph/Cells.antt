-- ===== src/Stress/Graph/Cells.antt =====
-- The cells of a matrix in its block.
use concurrencylab.Common.{
  ℕ, ◌+◌, ◌*◌, ◌≤◌, ◌<◌, ◌≡◌, inl, inr, arith, dec_lt, List, length, get_or-set_self, get_or-set_ne,
  ◌==◌, ◌&&◌, if◌then◌else◌, Bool-cases, ap,
}
use concurrencylab.Stress.Graph.{Distance, get_solution_distance, set_solution_distance}

-- No access leaves the block.
pub cell-lt : (n src dst : ℕ) → src < n → dst < n → src * n + dst < n * n
cell-lt n src dst hs hd = grind arith

row-le : (n a b : ℕ) → a < b → a * n + n ≤ b * n
row-le n a b h = grind arith

pub cell-injective : (n a b i j : ℕ) → b < n → j < n → i * n + j ≡ a * n + b → (i ≡ a) × (j ≡ b)
cell-injective n a b i j hb hj e = elim (dec_lt i a) [
  | yes below ↦ absurd (omega (arith, row-le n i a below))
  | no not_below ↦ elim (dec_lt a i) [
    | yes above ↦ absurd (omega (arith, row-le n a i above))
    | no not_above ↦ let same : i ≡ a = omega arith in (same, omega (arith, ap (λ t. t * n) same))
  ]
]

-- What a write of one cell does to all cells.
pub get-set :
    (n : ℕ) (m : List Distance) (i j : ℕ) (d : Distance) (a b : ℕ)
    → length m ≡ n * n
    → i < n
    → j < n
    → b < n
    → get_solution_distance n (set_solution_distance n i j d m) a b
      ≡ (if (i == a) && (j == b) then d else get_solution_distance n m a b)
get-set n m i j d a b len hi hj hb = elim (Bool-cases ((i == a) && (j == b))) [
  | inl here ↦
      let same_row : a ≡ i = ground arith in
      let same_column : b ≡ j = ground arith in
      rw (here, same_row, same_column)
        (get_or-set_self m (i * n + j) d 0 (omega (arith, cell-lt n i j hi hj)))
  | inr elsewhere ↦
      rw elsewhere
        (get_or-set_ne m d 0 (λ e. let same = cell-injective n a b i j hb hj e in ground arith))
]
