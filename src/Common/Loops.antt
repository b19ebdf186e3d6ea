-- ===== src/Common/Loops.antt =====
-- Counted loops.
use Prim.Native.Nat.{ℕ, zero, suc, ◌+◌, ◌≤◌}
use mathlib.Core.Path.{◌≡◌, subst}
use native.Mathlib.Omega.{arith}

-- `for (i = first; i < first + rounds; i++) s = body(i, s);`
unfoldable pub for_from {ℓ} : {S : Type ℓ} → ℕ → ℕ → (ℕ → S → S) → S → S
for_from zero first body s = s
for_from (suc rounds) first body s = for_from rounds (suc first) body (body first s)

-- What holds at the start and is carried from each round to the next holds at the end.
pub for_from_keeps {ℓ κ} :
    {S : Type ℓ} (Holds : ℕ → S → Type κ) (body : ℕ → S → S) (end : ℕ)
    → ((i : ℕ) (s : S) → suc i ≤ end → Holds i s → Holds (suc i) (body i s))
    → (rounds first : ℕ) (s : S) → first + rounds ≡ end
    → Holds first s
    → Holds end (for_from rounds first body s)
unfolding for_from
for_from_keeps Holds body end keep zero first s e h = subst (λ i. Holds i s) (omega arith) h
for_from_keeps Holds body end keep (suc rounds) first s e h =
    for_from_keeps Holds body end keep rounds (suc first) (body first s) (omega arith)
      (keep first s (omega arith) h)
