-- ===== src/Common/Family.antt =====
-- What each thread has, as a function of the thread's number: one thread's change, and how much a
-- weight comes to over the threads below a bound.
use Prim.Native.Nat.{ℕ, zero, suc, ◌+◌, ◌*◌, ◌≤◌, ◌<◌}
use mathlib.Core.Bool.{true, false}
use mathlib.Core.Path.{◌≡◌, refl, sym, subst}
use mathlib.Core.Logic.{◌≢◌, ◌⊎◌, inl, inr}
use native.Mathlib.Omega.{arith}
use native.Mathlib.Decide.{ℕ_discrete}
use concurrencylab.Common.Tests.{◌==◌, if◌then◌else◌, Bool-cases}

abbrev pub update {ℓ} : {A : Type ℓ} → (ℕ → A) → ℕ → A → ℕ → A
update f i a j = if i == j then a else f j

pub update_same {ℓ} : {A : Type ℓ} (f : ℕ → A) (i : ℕ) (a : A) → update f i a i ≡ a
update_same f i a = let here : (i == i) ≡ true = ground arith in rw here refl

pub update_other {ℓ} :
    {A : Type ℓ} (f : ℕ → A) (i : ℕ) (a : A) (j : ℕ) → i ≢ j → update f i a j ≡ f j
update_other f i a j other = let there : (i == j) ≡ false = ground arith in rw there refl

module _ {ℓ} {A : Type ℓ} (weight : A → ℕ) where
  pub total : ℕ → (ℕ → A) → ℕ
  total zero of = 0
  total (suc bound) of = weight (of bound) + total bound of

  pub total-congr :
      (bound : ℕ) (of of' : ℕ → A)
      → ((i : ℕ) → i < bound → weight (of i) ≡ weight (of' i))
      → total bound of ≡ total bound of'
  unfolding total
  total-congr zero of of' agree = refl
  total-congr (suc bound) of of' agree =
      let below = total-congr bound of of' (λ i lt. agree i (omega arith)) in
      omega (arith, below, agree bound (omega arith))

  -- One thread's change moves the total by the change of its weight.
  pub total-update :
      (bound : ℕ) (of : ℕ → A) (i : ℕ) (a : A)
      → i < bound
      → total bound (update of i a) + weight (of i) ≡ total bound of + weight a
  unfolding total
  total-update zero of i a lt = absurd (omega arith)
  total-update (suc bound) of i a lt = elim (Bool-cases (i == bound)) [
    | inl is_last ↦
        let rest = total-congr bound (update of i a) of (λ j below. ground arith) in
        ground (arith, rest)
    | inr is_below ↦ ground (arith, total-update bound of i a)
  ]

  pub total-eq-zero :
      (bound : ℕ) (of : ℕ → A) → ((i : ℕ) → i < bound → weight (of i) ≡ 0) → total bound of ≡ 0
  unfolding total
  total-eq-zero zero of none_has = refl
  total-eq-zero (suc bound) of none_has =
      let below = total-eq-zero bound of (λ i lt. none_has i (omega arith)) in
      omega (arith, below, none_has bound (omega arith))

  -- A positive total has a thread with a positive weight.
  pub total-pos :
      (bound : ℕ) (of : ℕ → A) → 0 < total bound of → (i : ℕ) × (i < bound) × (0 < weight (of i))
  unfolding total
  total-pos zero of positive = absurd (omega arith)
  total-pos (suc bound) of positive = elim (Bool-cases (weight (of bound) == 0)) [
    | inr has ↦ (bound, omega arith, ground arith)
    | inl has_none ↦ let (i, lt, has) = total-pos bound of (ground arith) in (i, omega arith, has)
  ]

  pub total-ge : (bound : ℕ) (of : ℕ → A) (i : ℕ) → i < bound → weight (of i) ≤ total bound of
  unfolding total
  total-ge zero of i lt = absurd (omega arith)
  total-ge (suc bound) of i lt = elim (Bool-cases (i == bound)) [
    | inl is_last ↦ ground arith
    | inr is_below ↦ omega (arith, total-ge bound of i (ground arith))
  ]

-- Either all below a bound have a property, or one of them gives something else.
pub all_or {ℓ κ} :
    {P : ℕ → Type ℓ} {E : Type κ} (bound : ℕ)
    → ((i : ℕ) → i < bound → P i ⊎ E)
    → ((i : ℕ) → i < bound → P i) ⊎ E
all_or zero each = inl (λ i lt. absurd (omega arith))
all_or {P = P} (suc bound) each = elim (all_or bound (λ i lt. each i (omega arith))) [
  | inr e ↦ inr e
  | inl below ↦ elim (each bound (omega arith)) [
    | inr e ↦ inr e
    | inl last ↦ inl (λ i lt. elim (ℕ_discrete i bound) [
      | yes same ↦ subst P (sym same) last
      | no other ↦ below i (omega arith)
    ])
  ]
]

pub total-ge_mul {ℓ} :
    {A : Type ℓ} (weight : A → ℕ) (least bound : ℕ) (of : ℕ → A)
    → ((i : ℕ) → i < bound → least ≤ weight (of i))
    → bound * least ≤ total weight bound of
unfolding total
total-ge_mul weight least zero of each = omega arith
total-ge_mul weight least (suc bound) of each =
    let below = total-ge_mul weight least bound of (λ i lt. each i (omega arith)) in
    let last = each bound (omega arith) in grind arith

pub total-le_bound {ℓ} :
    {A : Type ℓ} (weight : A → ℕ) (bound : ℕ) (of : ℕ → A)
    → ((i : ℕ) → i < bound → weight (of i) ≤ 1)
    → total weight bound of ≤ bound
unfolding total
total-le_bound weight zero of each = omega arith
total-le_bound weight (suc bound) of each =
    let below = total-le_bound weight bound of (λ i lt. each i (omega arith)) in
    omega (arith, each bound (omega arith))

-- A weight of 1 at most that one does not have.
pub total-lt_bound {ℓ} :
    {A : Type ℓ} (weight : A → ℕ) (bound : ℕ) (of : ℕ → A)
    → ((i : ℕ) → i < bound → weight (of i) ≤ 1)
    → (i : ℕ) → i < bound
    → weight (of i) ≡ 0
    → total weight bound of < bound
unfolding total
total-lt_bound weight zero of each i hi e = absurd (omega arith)
total-lt_bound weight (suc bound) of each i hi e = elim (Bool-cases (i == bound)) [
  | inl is_last ↦
      let below = total-le_bound weight bound of (λ i lt. each i (omega arith)) in ground arith
  | inr is_below ↦
      let below =
        total-lt_bound weight bound of (λ i lt. each i (omega arith)) i (ground arith) e in
      omega (arith, each bound (omega arith))
]

pub total-suc {ℓ} :
    {A : Type ℓ} (weight : A → ℕ) (bound : ℕ) (of : ℕ → A)
    → total weight (suc bound) of ≡ weight (of bound) + total weight bound of
unfolding total
total-suc weight bound of = refl
