-- ===== src/Stress/Ring/Early.antt =====
-- Until the main thread has collected all messages: where the NULLs are, and how many messages are
-- under way.
use concurrencylab.Common.{
  ℕ, suc, ◌+◌, ◌≤◌, ◌<◌, ◌≡◌, ◌≢◌, inl, inr, arith, Option, none, some, List, [], ◌∷◌, ◌++◌, length,
  Bool, true, false, ltb, ◌==◌, if◌then◌else◌, Bool-cases, Pointer, total, refl, ap, subst, update,
  update_same, update_other, ℕ_discrete,
}
use concurrencylab.Stress.Ring.{
  Queues, send_to, take_oldest, after_receive, Worker, receiving, testing, passing, ended,
  next_index, after_send, worker_thread, Main, feeding, priming, collecting, pausing, Run,
}
use concurrencylab.Stress.Ring.Balance.{weigh, weigh-append, carried}

abbrev pub is_null : Pointer → ℕ
is_null x = if x == 0 then 1 else 0

abbrev pub is_message : Pointer → ℕ
is_message x = if x == 0 then 0 else 1

-- Before the main thread stops the workers.
abbrev pub is_early : Main → Bool
is_early (feeding msg) = true
is_early (priming i) = true
is_early pausing = true
is_early (collecting msg) = true
is_early _ = false

abbrev pub is_collecting : Main → Bool
is_collecting (collecting msg) = true
is_collecting _ = false

-- A worker has taken its start message.
abbrev pub started : Worker → ℕ
started (receiving start) = if start then 0 else 1
started (testing start x) = if start then 0 else 1
started (passing start seen x) = if start then 0 else 1
started ended = 1

-- A worker holds no NULL, has not ended, and has seen `done` only if it is set.
abbrev pub Sound : Bool → Worker → Type 0
Sound done (receiving start) = done ≡ done
Sound done (testing start x) = 0 < x
Sound done (passing start seen x) = (0 < x) × (done ≡ false → seen ≡ false)
Sound done ended = done ≢ done

-- How many messages are under way.
abbrev pub Amount : ℕ → Main → ℕ → Type 0
Amount num_msgs (feeding msg) a = (suc a ≡ msg) × (msg ≤ suc num_msgs)
Amount num_msgs (priming i) a = a ≡ num_msgs
Amount num_msgs pausing a = a ≡ num_msgs
Amount num_msgs (collecting msg) a = (a + msg ≡ suc num_msgs) × (1 ≤ msg)
Amount num_msgs _ a = a ≡ a

-- How many start messages have been sent.
abbrev pub Primed : ℕ → Main → ℕ → Type 0
Primed n (feeding msg) z = z ≡ 0
Primed n (priming i) z = (z ≡ i) × (i ≤ n)
Primed n pausing z = z ≡ n
Primed n (collecting msg) z = z ≡ n
Primed n _ z = z ≡ z

pub record Early (n num_msgs : ℕ) (m : Main) (s : Run) : Type 0 where
  pub messages :
      Amount num_msgs m
        (total (weigh is_message) (suc n) s.queues + total (carried is_message) n s.workers)
  pub starts : Primed n m (weigh is_null (s.queues n) + total started n s.workers)
  pub own : (i : ℕ) → i < n → weigh is_null (s.queues i) ≡ 0
  pub sound : (i : ℕ) → i < n → Sound s.done (s.workers i)
  pub flag : s.done ≡ is_collecting m

null_weight : (x : Pointer) → 0 < x → is_null x ≡ 0
null_weight x h = ground arith

module _ (n : ℕ) (done : Bool) (q : Queues) (i : ℕ) (hi : i < n)
    (own : (j : ℕ) → j < n → weigh is_null (q j) ≡ 0) where
  -- The NULLs, and the worker, behind a statement of the worker.
  abbrev pub Stays : Worker → Option (Worker × Queues) → Type 0
  Stays p none = n ≡ n
  Stays p (some (p', q')) =
      (weigh is_null (q' n) + started p' ≡ weigh is_null (q n) + started p)
      × ((j : ℕ) → j < n → weigh is_null (q' j) ≡ 0)
      × Sound done p'

  own_kept : (rest : List Pointer) (j : ℕ) → j < n → weigh is_null (update q n rest j) ≡ 0
  own_kept rest j hj = rw (update_other q n rest j (λ e. absurd (omega arith))) (own j hj)

  from_main :
      (xs : List Pointer)
      → q n ≡ xs
      → Stays (receiving true) (after_receive true (take_oldest n q xs))
  from_main [] e = refl
  from_main (x ∷ rest) e =
      let before : weigh is_null (q n) ≡ is_null x + weigh is_null rest = ap (weigh is_null) e in
      elim (Bool-cases (x == 0)) [
        | inl null ↦ rw (null, update_same q n rest) (ground arith, own_kept rest, refl)
        | inr some_message ↦
            rw (some_message, update_same q n rest) (ground arith, own_kept rest, ground arith)
      ]

  from_own :
      (xs : List Pointer)
      → q i ≡ xs
      → Stays (receiving false) (after_receive false (take_oldest i q xs))
  from_own [] e = refl
  from_own (x ∷ rest) e =
      let before : weigh is_null (q i) ≡ is_null x + weigh is_null rest = ap (weigh is_null) e in
      let none_here = own i hi in
      let message : (x == 0) ≡ false = ground arith in
      rw (message, update_other q i rest n (λ e. absurd (omega arith)))
        (
          refl,
          (λ j hj. elim (ℕ_discrete i j) [
            | yes same ↦
                subst (λ k. weigh is_null (update q i rest k) ≡ 0) same
                  (rw (update_same q i rest) (omega arith))
            | no other ↦ rw (update_other q i rest j other) (own j hj)
          ]),
          ground arith,
        )

  to_main :
      (buffer_size : ℕ) (start seen : Bool) (x : Pointer)
      → 0 < x
      → Stays (passing start seen x) (after_send start (send_to buffer_size n x q))
  to_main buffer_size start seen x hx = elim (Bool-cases (ltb (length (q n)) buffer_size)) [
    | inl room ↦
        rw (room, update_same q n (q n ++ x ∷ []), weigh-append is_null x (q n), null_weight x hx)
          (omega arith, own_kept (q n ++ x ∷ []), refl)
    | inr full ↦ rw full refl
  ]

  to_next :
      (buffer_size c : ℕ) (start seen : Bool) (x : Pointer)
      → c < n
      → 0 < x
      → Stays (passing start seen x) (after_send start (send_to buffer_size c x q))
  to_next buffer_size c start seen x hc hx = elim (Bool-cases (ltb (length (q c)) buffer_size)) [
    | inl room ↦
        rw (room, update_other q c (q c ++ x ∷ []) n (λ e. absurd (omega arith)))
          (
            refl,
            (λ j hj. elim (ℕ_discrete c j) [
              | yes same ↦
                  subst (λ k. weigh is_null (update q c (q c ++ x ∷ []) k) ≡ 0) same
                    (rw
                      (
                        update_same q c (q c ++ x ∷ []),
                        weigh-append is_null x (q c),
                        null_weight x hx,
                      )
                      (omega (arith, own c hc)))
              | no other ↦ rw (update_other q c (q c ++ x ∷ []) j other) (own j hj)
            ]),
            refl,
          )
    | inr full ↦ rw full refl
  ]

  pub worker_thread-Stays :
      (buffer_size : ℕ) (p : Worker)
      → Sound done p
      → Stays p (worker_thread n buffer_size i done p q)
  unfolding worker_thread
  worker_thread-Stays buffer_size (receiving true) sound = from_main (q n) refl
  worker_thread-Stays buffer_size (receiving false) sound = from_own (q i) refl
  worker_thread-Stays buffer_size (testing start x) sound = (refl, own, (sound, λ e. e))
  worker_thread-Stays buffer_size (passing start true x) (hx, seen) =
      to_main buffer_size start true x hx
  worker_thread-Stays buffer_size (passing start false x) (hx, seen) =
      to_next buffer_size (next_index n i) start false x (ground arith) hx
  worker_thread-Stays buffer_size ended sound = refl
