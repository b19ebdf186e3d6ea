-- ===== src/Stress/Ring/Flags.antt =====
-- How many flags of a block are set.
use concurrencylab.Common.{
  ℕ, zero, suc, ◌+◌, ◌≤◌, ◌<◌, ◌≡◌, refl, arith, List, [], ◌∷◌, length, get_or, set, replicate,
  Bool, true, false, if◌then◌else◌,
}

abbrev pub flags_set : List Bool → ℕ
flags_set [] = 0
flags_set (b ∷ flags) = (if b then 1 else 0) + flags_set flags

flags_set-le : (flags : List Bool) → flags_set flags ≤ length flags
flags_set-le [] = omega arith
flags_set-le (true ∷ flags) = omega (arith, flags_set-le flags)
flags_set-le (false ∷ flags) = omega (arith, flags_set-le flags)

pub flags_set-replicate : (k : ℕ) → flags_set (replicate k false) ≡ 0
flags_set-replicate zero = refl
flags_set-replicate (suc k) = omega (arith, flags_set-replicate k)

pub flags_set-set :
    (flags : List Bool) (i : ℕ)
    → i < length flags
    → get_or flags i false ≡ false
    → flags_set (set flags i true) ≡ suc (flags_set flags)
flags_set-set [] i h unset = absurd (omega arith)
flags_set-set (b ∷ flags) zero h unset = rw unset (omega arith)
flags_set-set (b ∷ flags) (suc i) h unset = omega (arith, flags_set-set flags i (omega arith) unset)

-- Where as many flags are set as there are, each is.
all_set :
    (flags : List Bool) (i : ℕ)
    → flags_set flags ≡ length flags
    → i < length flags
    → get_or flags i false ≡ true
all_set [] i e h = absurd (omega arith)
all_set (true ∷ flags) zero e h = refl
all_set (true ∷ flags) (suc i) e h = all_set flags i (omega arith) (omega arith)
all_set (false ∷ flags) i e h = absurd (omega (arith, flags_set-le flags))

-- Where all flags but one may be set, and flag 0 is not, each other one is.
pub others_set :
    (flags : List Bool) (i : ℕ)
    → suc (flags_set flags) ≡ length flags
    → get_or flags 0 false ≡ false
    → 0 < i
    → i < length flags
    → get_or flags i false ≡ true
others_set [] i e unset hi h = absurd (omega arith)
others_set (b ∷ flags) zero e unset hi h = absurd (omega arith)
others_set (true ∷ flags) (suc i) e unset hi h = absurd (ground arith)
others_set (false ∷ flags) (suc i) e unset hi h = all_set flags i (omega arith) (omega arith)
