-- ===== src/Stress/Ring/Progress.antt =====
-- The run of the ring before all messages are collected: who can go on.
use concurrencylab.Common.{
  ℕ, suc, ◌+◌, ◌*◌, ◌≤◌, ◌<◌, ◌≡◌, ◌≢◌, ◌⊎◌, inl, inr, ◌∙◌, arith, Option, none, some, List, [],
  ◌∷◌, length, Bool, true, false, ltb, leb, Bool-cases, Pointer, total, total-ge_mul, total-suc,
  total-lt_bound, total-eq-zero, refl, ap, subst, all_or, size_mod,
}
use concurrencylab.Stress.Ring.{
  Worker, receiving, testing, passing, ended, Main, feeding, priming, collecting, stopping, joining,
  pausing, finished, not_a_message, duplicated, Run, run_stress_send_recv, Turn, main_turn, Reached,
}
use concurrencylab.Stress.Ring.Balance.{weigh, carried}
use concurrencylab.Stress.Ring.Early.{is_null, is_message, is_early, started, Sound, Amount, Early}
use concurrencylab.Stress.Ring.Phases.{Reached-Early}
use concurrencylab.Stress.Ring.Waiting.{
  CanTurn, Waits, Idle, Stuck, worker-Waits, all-Stuck, crowded, started-le,
}

module _ {n buffer_size num_msgs : ℕ} {s : Run} (room : 1 ≤ buffer_size)
    (few : num_msgs < n * (buffer_size + 1)) (nodes : n < size_mod)
    (early : Early n num_msgs s.main s) where
  Amount-le : (m : Main) (a : ℕ) → is_early m ≡ true → Amount num_msgs m a → a ≤ num_msgs
  Amount-le (feeding msg) a e (is, le) = omega arith
  Amount-le (priming i) a e is = omega arith
  Amount-le pausing a e is = omega arith
  Amount-le (collecting msg) a e (is, low) = omega arith
  Amount-le (stopping i) a e is = absurd (cc)
  Amount-le (joining i) a e is = absurd (cc)
  Amount-le finished a e is = absurd (cc)
  Amount-le (not_a_message x) a e is = absurd (cc)
  Amount-le (duplicated x) a e is = absurd (cc)

  -- While each worker waits, all of them wait for their own channels.
  all-Idle :
      is_early s.main ≡ true
      → ((i : ℕ) → i < n → Idle n buffer_size num_msgs s i ⊎ Stuck n buffer_size num_msgs s i)
      → (i : ℕ) → i < n
      → Idle n buffer_size num_msgs s i
  all-Idle e each i hi = elim (each i hi) [
    | inl idle ↦ idle
    | inr stuck ↦
        let all = all-Stuck n buffer_size num_msgs s room nodes each i hi stuck in
        let many = crowded n buffer_size num_msgs s room nodes each all early.own in
        absurd (omega (arith, Amount-le s.main _ e early.messages))
  ]

  Idle-started : ((i : ℕ) → i < n → Idle n buffer_size num_msgs s i) → n ≤ total started n s.workers
  Idle-started idle = omega (
    arith,
    total-ge_mul started 1 n s.workers
        (λ i hi. let (empty, ready, nothing) = idle i hi in omega arith),
  )

  -- Nothing is under way then, if the channel of the main thread is empty too.
  Idle-empty :
      ((i : ℕ) → i < n → Idle n buffer_size num_msgs s i)
      → s.queues n ≡ []
      → total (weigh is_message) (suc n) s.queues + total (carried is_message) n s.workers ≡ 0
  Idle-empty idle empty =
      let queues =
        total-eq-zero (weigh is_message) n s.queues (λ i hi. ap (weigh is_message) (idle i hi).0) in
      let workers = total-eq-zero (carried is_message) n s.workers (λ i hi. (idle i hi).2) in
      let last : weigh is_message (s.queues n) ≡ 0 = ap (weigh is_message) empty in
      omega (arith, queues, workers, last, total-suc (weigh is_message) n s.queues)

  -- Each worker waits, but not for the channel of the main thread.
  Idle-or_Stuck :
      ((i : ℕ) → i < n → s.workers i ≡ receiving true → s.queues n ≢ [])
      → ((i : ℕ) (start : Bool) (x : Pointer)
          → i < n
          → s.workers i ≡ passing start true x
          → length (s.queues n) < buffer_size)
      → (i : ℕ) (p : Worker) → i < n
      → s.workers i ≡ p
      → Sound s.done p
      → Waits n buffer_size num_msgs s i p
      → Idle n buffer_size num_msgs s i ⊎ Stuck n buffer_size num_msgs s i
  Idle-or_Stuck starts sends i (receiving true) hi here sound waits =
      absurd (starts i hi here waits)
  Idle-or_Stuck starts sends i (receiving false) hi here sound waits =
      inl (waits, ap started here, ap (carried is_message) here)
  Idle-or_Stuck starts sends i (testing start x) hi here sound waits = absurd (waits refl)
  Idle-or_Stuck starts sends i (passing start true x) hi here sound waits =
      absurd (omega (arith, sends i start x hi here))
  Idle-or_Stuck starts sends i (passing start false x) hi here (positive, seen) waits =
      let holds : is_message x ≡ 1 = ground arith in
      inr (ap (carried is_message) here ∙ holds, waits)
  Idle-or_Stuck starts sends i ended hi here sound waits = absurd (waits refl)

  worker_or_Idle :
      is_early s.main ≡ true
      → ((i : ℕ) → i < n → s.workers i ≡ receiving true → s.queues n ≢ [])
      → ((i : ℕ) (start : Bool) (x : Pointer)
          → i < n
          → s.workers i ≡ passing start true x
          → length (s.queues n) < buffer_size)
      → ((i : ℕ) → i < n → Idle n buffer_size num_msgs s i) ⊎ CanTurn n buffer_size num_msgs s
  worker_or_Idle e starts sends =
      elim (all_or n (λ i hi.
        worker-Waits n buffer_size num_msgs s i (s.workers i) hi refl (early.sound i hi))) [
          | inr turn ↦ inr turn
          | inl waits ↦ inl (
              all-Idle e (λ i hi.
                Idle-or_Stuck starts sends i (s.workers i) hi refl (early.sound i hi) (waits i hi)))
        ]

  -- The main thread waits for room in its channel.
  main_sends :
      is_early s.main ≡ true
      → s.done ≡ false
      → buffer_size ≤ length (s.queues n)
      → total started n s.workers < n
      → CanTurn n buffer_size num_msgs s
  main_sends e unset full not_all =
      elim (worker_or_Idle e (λ i hi here empty. absurd (omega (arith, ap length empty)))
        (λ i start x hi here.
          let (positive, seen) = subst (Sound s.done) here (early.sound i hi) in
          let is_set = seen unset in cc)) [
            | inr turn ↦ turn
            | inl idle ↦ absurd (omega (arith, Idle-started idle))
          ]

  -- It waits for a message.
  main_receives :
      is_early s.main ≡ true
      → s.queues n ≡ []
      → total started n s.workers ≡ n
      → 0 < total (weigh is_message) (suc n) s.queues + total (carried is_message) n s.workers
      → CanTurn n buffer_size num_msgs s
  main_receives e empty all_started some_left =
      elim (worker_or_Idle e
        (λ i hi here nothing.
          let less =
            total-lt_bound started n s.workers (λ j hj. started-le (s.workers j)) i hi
              (ap started here) in
          absurd (omega arith))
        (λ i start x hi here. omega (arith, ap length empty))) [
          | inr turn ↦ turn
          | inl idle ↦ absurd (omega (arith, Idle-empty idle empty))
        ]

  main_turns :
      (o : Option Run)
      → run_stress_send_recv n buffer_size num_msgs s.main s ≡ o
      → o ≢ none
      → CanTurn n buffer_size num_msgs s
  main_turns none e there = absurd (there refl)
  main_turns (some t) e there = (t, main_turn e)

  collects :
      (msg : ℕ) (xs : List Pointer)
      → s.main ≡ collecting msg
      → msg ≤ num_msgs
      → s.queues n ≡ xs
      → Early n num_msgs (collecting msg) s
      → CanTurn n buffer_size num_msgs s
  unfolding run_stress_send_recv
  collects msg [] here more empty at =
      let (amount, low) = at.messages in
      let none_there : weigh is_null (s.queues n) ≡ 0 = ap (weigh is_null) empty in
      main_receives (ap is_early here) empty (omega (arith, at.starts)) (omega arith)
  collects msg (x ∷ xs) here more e at =
      let is_more : leb msg num_msgs ≡ true = ground arith in
      main_turns _ refl (rw (here, is_more, e) (λ e'. cc))

  main_case :
      (m : Main)
      → s.main ≡ m
      → is_early m ≡ true
      → Early n num_msgs m s
      → CanTurn n buffer_size num_msgs s
  unfolding run_stress_send_recv
  main_case (feeding msg) here e at = elim (Bool-cases (leb msg num_msgs)) [
    | inr all ↦ main_turns _ refl (rw (here, all) (λ e'. cc))
    | inl more ↦ elim (Bool-cases (ltb (length (s.queues n)) buffer_size)) [
      | inl free ↦ main_turns _ refl (rw (here, more, free) (λ e'. cc))
      | inr full ↦ main_sends (ap is_early here) at.flag (ground arith) (grind (arith, at.starts))
    ]
  ]
  main_case (priming i) here e at = elim (Bool-cases (ltb i n)) [
    | inr all ↦ main_turns _ refl (rw (here, all) (λ e'. cc))
    | inl more ↦ elim (Bool-cases (ltb (length (s.queues n)) buffer_size)) [
      | inl free ↦ main_turns _ refl (rw (here, more, free) (λ e'. cc))
      | inr full ↦
          let (so_far, le) = at.starts in
          let below : i < n = ground arith in
          main_sends (ap is_early here) at.flag (ground arith) (omega arith)
    ]
  ]
  main_case pausing here e at = main_turns _ refl (rw here (λ e'. cc))
  main_case (collecting msg) here e at = elim (Bool-cases (leb msg num_msgs)) [
    | inr all ↦ main_turns _ refl (rw (here, all) (λ e'. cc))
    | inl more ↦ collects msg (s.queues n) here (ground arith) refl at
  ]
  main_case (stopping i) here e at = absurd (cc)
  main_case (joining i) here e at = absurd (cc)
  main_case finished here e at = absurd (cc)
  main_case (not_a_message x) here e at = absurd (cc)
  main_case (duplicated x) here e at = absurd (cc)

-- With channels of a size of at least 1, fewer messages than the number of channels times the size
-- plus 1, and less than 2^64 channels, in every state that a run reaches in which the main thread
-- is not past the loop that collects the messages and has failed no assertion, the main thread or
-- a worker has a step.
pub never_blocks :
    {n buffer_size num_msgs : ℕ} {s : Run}
    → 1 ≤ buffer_size
    → num_msgs < n * (buffer_size + 1)
    → n < size_mod
    → Reached n buffer_size num_msgs s
    → is_early s.main ≡ true
    → (t : Run) × Turn n buffer_size num_msgs s t
never_blocks {s = s} room few nodes reached e =
    let early = Reached-Early reached e in main_case room few nodes early s.main refl e early
