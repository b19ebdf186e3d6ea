-- ===== src/Stress/Ring/Waiting.antt =====
-- What the workers of the ring wait for.
use concurrencylab.Common.{
  ℕ, zero, suc, ◌-◌, ◌+◌, ◌*◌, ◌≤◌, ◌<◌, ◌≡◌, ◌≢◌, ◌⊎◌, inl, inr, arith, Option, none, some, List,
  [], ◌∷◌, length, Bool, true, false, ltb, if◌then◌else◌, Bool-cases, Pointer, total, total-ge_mul,
  total-suc, refl, ap, subst, update, size_mod,
}
use concurrencylab.Stress.Ring.{
  Queues, Worker, receiving, testing, passing, ended, next_index, worker_thread, Run, Turn,
  worker_turn,
}
use concurrencylab.Stress.Ring.Balance.{weigh, carried}
use concurrencylab.Stress.Ring.Early.{is_null, is_message, started, Sound}

weigh-length : (xs : List Pointer) → weigh is_null xs + weigh is_message xs ≡ length xs
weigh-length [] = refl
weigh-length (x ∷ xs) = let rest = weigh-length xs in ground arith

carried-le : (p : Worker) → carried is_message p ≤ 1
carried-le (receiving start) = omega arith
carried-le (testing start x) = ground arith
carried-le (passing start seen x) = ground arith
carried-le ended = omega arith

pub started-le : (p : Worker) → started p ≤ 1
started-le (receiving start) = ground arith
started-le (testing start x) = ground arith
started-le (passing start seen x) = ground arith
started-le ended = omega arith

module _ (n buffer_size num_msgs : ℕ) (s : Run) where
  abbrev pub CanTurn : Type 0
  CanTurn = (t : Run) × Turn n buffer_size num_msgs s t

  -- What a worker waits for.
  abbrev pub Waits : ℕ → Worker → Type 0
  Waits i (receiving true) = s.queues n ≡ []
  Waits i (receiving false) = s.queues i ≡ []
  Waits i (testing start x) = n ≢ n
  Waits i (passing start true x) = buffer_size ≤ length (s.queues n)
  Waits i (passing start false x) = buffer_size ≤ length (s.queues (next_index n i))
  Waits i ended = s.done ≢ s.done

  stepped :
      (i : ℕ) (o : Option (Worker × Queues))
      → i < n
      → worker_thread n buffer_size i s.done (s.workers i) s.queues ≡ o
      → o ≢ none
      → CanTurn
  stepped i none hi e there = absurd (there refl)
  stepped i (some (p, q)) hi e there =
      (record s { queues = q; workers = update s.workers i p }, worker_turn i p hi e)

  taken :
      (i c : ℕ) (start : Bool) (xs : List Pointer)
      → i < n
      → s.workers i ≡ receiving start
      → (if start then n else i) ≡ c
      → s.queues c ≡ xs
      → CanTurn ⊎ (s.queues c ≡ [])
  unfolding worker_thread
  taken i c start [] hi here channel e = inr e
  taken i c start (x ∷ xs) hi here channel e =
      inl (stepped i _ hi refl (rw (here, channel, e) (λ e'. cc)))

  given :
      (i c : ℕ) (start seen : Bool) (x : Pointer)
      → i < n
      → s.workers i ≡ passing start seen x
      → (if seen then n else next_index n i) ≡ c
      → CanTurn ⊎ (buffer_size ≤ length (s.queues c))
  unfolding worker_thread
  given i c start seen x hi here channel =
      elim (Bool-cases (ltb (length (s.queues c)) buffer_size)) [
        | inl room ↦ inl (stepped i _ hi refl (rw (here, channel, room) (λ e'. cc)))
        | inr full ↦ inr (ground arith)
      ]

  pub worker-Waits :
      (i : ℕ) (p : Worker) → i < n → s.workers i ≡ p → Sound s.done p → Waits i p ⊎ CanTurn
  unfolding worker_thread
  worker-Waits i (receiving true) hi here sound =
      elim (taken i n true (s.queues n) hi here refl refl) [ inl t ↦ inr t | inr e ↦ inl e ]
  worker-Waits i (receiving false) hi here sound =
      elim (taken i i false (s.queues i) hi here refl refl) [ inl t ↦ inr t | inr e ↦ inl e ]
  worker-Waits i (testing start x) hi here sound = inr (stepped i _ hi refl (rw here (λ e'. cc)))
  worker-Waits i (passing start true x) hi here sound = elim (given i n start true x hi here refl) [
    | inl t ↦ inr t
    | inr e ↦ inl e
  ]
  worker-Waits i (passing start false x) hi here sound =
      elim (given i (next_index n i) start false x hi here refl) [ inl t ↦ inr t | inr e ↦ inl e ]
  worker-Waits i ended hi here sound = inl sound

  -- A worker waits for its own channel, or to pass a message on.
  abbrev pub Idle : ℕ → Type 0
  Idle i = (s.queues i ≡ []) × (started (s.workers i) ≡ 1) × (carried is_message (s.workers i) ≡ 0)

  abbrev pub Stuck : ℕ → Type 0
  Stuck i =
      (carried is_message (s.workers i) ≡ 1) × (buffer_size ≤ length (s.queues (next_index n i)))

  module _ (room : 1 ≤ buffer_size) (nodes : n < size_mod)
      (each : (i : ℕ) → i < n → Idle i ⊎ Stuck i) where
    next-Stuck : (i : ℕ) → i < n → Stuck i → Stuck (next_index n i)
    next-Stuck i hi (holds, full) = elim (each (next_index n i) (ground arith)) [
      | inl (empty, ready, nothing) ↦ absurd (omega (arith, ap length empty))
      | inr stuck ↦ stuck
    ]

    climb : (d i : ℕ) → i + d < n → Stuck i → Stuck (i + d)
    climb zero i hi stuck = subst Stuck (omega arith) stuck
    climb (suc d) i hi stuck =
        let next : next_index n i ≡ suc i = ground arith in
        let above =
          climb d (suc i) (omega arith) (subst Stuck next (next-Stuck i (omega arith) stuck)) in
        subst Stuck (omega arith) above

    pub all-Stuck : (i : ℕ) → i < n → Stuck i → (j : ℕ) → j < n → Stuck j
    all-Stuck i hi stuck j hj =
        let last : Stuck (n - 1) =
          subst Stuck (omega arith) (climb (n - 1 - i) i (omega arith) stuck) in
        let first_index : next_index n (n - 1) ≡ 0 = ground arith in
        let first = subst Stuck first_index (next-Stuck (n - 1) (omega arith) last) in
        subst Stuck (omega arith) (climb j 0 (omega arith) first)

    full_queue : ((j : ℕ) → j < n → Stuck j) → (j : ℕ) → j < n → buffer_size ≤ length (s.queues j)
    full_queue all zero hj =
        let first_index : next_index n (n - 1) ≡ 0 = ground arith in
        let full = (all (n - 1) (omega arith)).1 in
        subst (λ k. buffer_size ≤ length (s.queues k)) first_index full
    full_queue all (suc j) hj =
        let next : next_index n j ≡ suc j = ground arith in
        let full = (all j (omega arith)).1 in
        subst (λ k. buffer_size ≤ length (s.queues k)) next full

    -- With a message at each worker and all channels full there are too many.
    pub crowded :
        ((j : ℕ) → j < n → Stuck j)
        → ((j : ℕ) → j < n → weigh is_null (s.queues j) ≡ 0)
        → n * (buffer_size + 1)
          ≤ total (weigh is_message) (suc n) s.queues + total (carried is_message) n s.workers
    crowded all own =
        let workers =
          total-ge_mul (carried is_message) 1 n s.workers (λ i hi. omega (arith, (all i hi).0)) in
        let queues =
          total-ge_mul (weigh is_message) buffer_size n s.queues
            (λ i hi. omega (arith, full_queue all i hi, own i hi, weigh-length (s.queues i))) in
        let all_queues = total-suc (weigh is_message) n s.queues in grind arith
