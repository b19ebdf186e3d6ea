-- ===== src/Stress/Ring/Phases.antt =====
-- What the main thread does to the counts of messages and NULLs, and that they hold in all states
-- before it stops the workers.
use concurrencylab.Common.{
  ℕ, suc, ◌+◌, ◌≤◌, ◌<◌, ◌≡◌, inl, inr, ◌∙◌, arith, Option, none, some, List, [], ◌∷◌, ◌++◌, length,
  get_or, true, false, ltb, leb, ◌&&◌, Bool-cases, Pointer, total, total-update, total-eq-zero,
  refl, ap, subst, update, update_same, update_other, ℕ_discrete,
}
use concurrencylab.Stress.Ring.{
  Queues, send_to, take_oldest, Worker, receiving, worker_thread, Main, feeding, priming,
  collecting, stopping, joining, pausing, finished, not_a_message, duplicated, Run, after_collect,
  after_main_send, has_ended, run_stress_send_recv, main_turn, worker_turn, Reached, set_up, turn,
}
use concurrencylab.Stress.Ring.Balance.{weigh, weigh-append, carried, Kept, worker_thread-Kept}
use concurrencylab.Stress.Ring.Early.{
  is_null, is_message, is_early, is_collecting, started, Sound, Amount, Primed, Early, Stays,
  worker_thread-Stays,
}

module _ (n num_msgs : ℕ) where
  -- The counts in the state behind a step, if there is one.
  abbrev RunEarly : Option Run → Type 0
  RunEarly none = n ≡ n
  RunEarly (some t) = is_early t.main ≡ true → Early n num_msgs t.main t

  not_early :
      (next : Main) (s : Run) (o : Option Queues)
      → is_early next ≡ false
      → RunEarly (after_main_send next s o)
  not_early next s none late = refl
  not_early next s (some q) late = λ e. cc

  other_own :
      (q : Queues) (xs : List Pointer)
      → ((j : ℕ) → j < n → weigh is_null (q j) ≡ 0)
      → (j : ℕ) → j < n
      → weigh is_null (update q n xs j) ≡ 0
  other_own q xs own j hj = rw (update_other q n xs j (λ e. absurd (omega arith))) (own j hj)

  sent :
      (buffer_size : ℕ) (m next : Main) (x : Pointer) (s : Run)
      → Early n num_msgs m s
      → Amount num_msgs next (
          total (weigh is_message) (suc n) s.queues
          + total (carried is_message) n s.workers
          + is_message x)
      → Primed n next (weigh is_null (s.queues n) + total started n s.workers + is_null x)
      → is_collecting m ≡ is_collecting next
      → RunEarly (after_main_send next s (send_to buffer_size n x s.queues))
  sent buffer_size m next x s early amount primed same =
      elim (Bool-cases (ltb (length (s.queues n)) buffer_size)) [
        | inr full ↦ rw full refl
        | inl room ↦
            let more = s.queues n ++ x ∷ [] in
            let moved = total-update (weigh is_message) (suc n) s.queues n more (omega arith) in
            let messages : total (weigh is_message) (suc n) (update s.queues n more)
                  + total (carried is_message) n s.workers
                ≡ total (weigh is_message) (suc n) s.queues
                  + total (carried is_message) n s.workers
                  + is_message x =
              omega (arith, moved, weigh-append is_message x (s.queues n)) in
            let starts : weigh is_null more + total started n s.workers
                ≡ weigh is_null (s.queues n) + total started n s.workers + is_null x =
              omega (arith, weigh-append is_null x (s.queues n)) in
            rw room (λ e. record {
              messages = rw messages amount;
              starts = rw (update_same s.queues n more, starts) primed;
              own = other_own s.queues more early.own;
              sound = early.sound;
              flag = early.flag ∙ same;
            })
      ]

  collects :
      (msg : ℕ) (s : Run) (xs : List Pointer)
      → msg ≤ num_msgs
      → s.queues n ≡ xs
      → Early n num_msgs (collecting msg) s
      → RunEarly (after_collect num_msgs msg s (take_oldest n s.queues xs))
  collects msg s [] le e early = refl
  collects msg s (x ∷ rest) le e early = elim (Bool-cases (leb 1 x && leb x num_msgs)) [
    | inr bad ↦ rw bad (λ e. cc)
    | inl good ↦ elim (Bool-cases (get_or s.msg_check x false)) [
      | inl set_before ↦ rw (good, set_before) (λ e. cc)
      | inr fresh ↦
          let moved = total-update (weigh is_message) (suc n) s.queues n rest (omega arith) in
          let messages : weigh is_message (s.queues n) ≡ is_message x + weigh is_message rest =
            ap (weigh is_message) e in
          let nulls : weigh is_null (s.queues n) ≡ is_null x + weigh is_null rest =
            ap (weigh is_null) e in
          let message : is_message x ≡ 1 = ground arith in
          let no_null : is_null x ≡ 0 = ground arith in
          let (amount, low) = early.messages in
          rw (good, fresh)
            (λ e'. record {
              messages = (omega arith, omega arith);
              starts = rw (update_same s.queues n rest) (omega (arith, early.starts));
              own = other_own s.queues rest early.own;
              sound = early.sound;
              flag = early.flag;
            })
    ]
  ]

  run-RunEarly :
      (buffer_size : ℕ) (m : Main) (s : Run)
      → (is_early m ≡ true → Early n num_msgs m s)
      → RunEarly (run_stress_send_recv n buffer_size num_msgs m s)
  unfolding run_stress_send_recv
  run-RunEarly buffer_size (feeding msg) s before =
      let early = before refl in
      let (amount, le) = early.messages in
      let none_yet = early.starts in
      elim (Bool-cases (leb msg num_msgs)) [
        | inl more ↦ rw more (
            sent buffer_size (feeding msg) (feeding (suc msg)) msg s early
              (ground arith, ground arith) (ground arith) refl)
        | inr all ↦ rw all (λ e. record {
          messages = ground arith;
          starts = (none_yet, omega arith);
          own = early.own;
          sound = early.sound;
          flag = early.flag;
        })
      ]
  run-RunEarly buffer_size (priming i) s before =
      let early = before refl in
      let amount = early.messages in
      let (so_far, le) = early.starts in
      elim (Bool-cases (ltb i n)) [
        | inl more ↦ rw more (
            sent buffer_size (priming i) (priming (suc i)) 0 s early (omega arith)
              (omega arith, ground arith) refl)
        | inr all ↦ rw all (λ e. record {
          messages = amount;
          starts = ground arith;
          own = early.own;
          sound = early.sound;
          flag = early.flag;
        })
      ]
  run-RunEarly buffer_size pausing s before =
      let early = before refl in
      let amount = early.messages in
      λ e. record {
        messages = (omega arith, omega arith);
        starts = early.starts;
        own = early.own;
        sound = λ i hi. unset_sound (s.workers i) (early.sound i hi);
        flag = refl;
      }
    where
      unset_sound : (p : Worker) → Sound s.done p → Sound true p
      unset_sound (receiving start) h = refl
      unset_sound (Worker.testing start x) h = h
      unset_sound (Worker.passing start seen x) (h, l) = (h, λ e. cc)
      unset_sound Worker.ended h = absurd (h refl)
  run-RunEarly buffer_size (collecting msg) s before = elim (Bool-cases (leb msg num_msgs)) [
    | inl more ↦ rw more (collects msg s (s.queues n) (ground arith) refl (before refl))
    | inr all ↦ rw all (λ e. cc)
  ]
  run-RunEarly buffer_size (stopping i) s before = elim (Bool-cases (ltb i n)) [
    | inl more ↦ rw more (not_early (stopping (suc i)) s _ refl)
    | inr all ↦ rw all (λ e. cc)
  ]
  run-RunEarly buffer_size (joining i) s before = elim (Bool-cases (ltb i n)) [
    | inl more ↦ elim (Bool-cases (has_ended (s.workers i))) [
      | inl over ↦ rw (more, over) (λ e. cc)
      | inr busy ↦ rw (more, busy) refl
    ]
    | inr all ↦ rw all (λ e. cc)
  ]
  run-RunEarly buffer_size finished s before = refl
  run-RunEarly buffer_size (not_a_message x) s before = refl
  run-RunEarly buffer_size (duplicated x) s before = refl

  worker-Early :
      (buffer_size : ℕ) {s : Run} {q : Queues} (i : ℕ) (p : Worker)
      → i < n
      → worker_thread n buffer_size i s.done (s.workers i) s.queues ≡ some (p, q)
      → Early n num_msgs s.main s
      → Early n num_msgs s.main (record s { queues = q; workers = update s.workers i p })
  worker-Early buffer_size {s} {q} i p hi e early =
      let messages =
        subst
          (Kept is_message n
            (total (weigh is_message) (suc n) s.queues + carried is_message (s.workers i)))
          e (worker_thread-Kept is_message n buffer_size i s.done (s.workers i) s.queues refl hi) in
      let moved = total-update (carried is_message) n s.workers i p hi in
      let (starts, own, sound) = subst (Stays n s.done s.queues i hi early.own (s.workers i)) e (
        worker_thread-Stays n s.done s.queues i hi early.own buffer_size (s.workers i)
          (early.sound i hi)) in
      let started_moved = total-update started n s.workers i p hi in
      let same_messages : total (weigh is_message) (suc n) q
            + total (carried is_message) n (update s.workers i p)
          ≡ total (weigh is_message) (suc n) s.queues + total (carried is_message) n s.workers =
        omega arith in
      let same_starts : weigh is_null (q n) + total started n (update s.workers i p)
          ≡ weigh is_null (s.queues n) + total started n s.workers =
        omega arith in
      record {
        messages = rw same_messages early.messages;
        starts = rw same_starts early.starts;
        own = own;
        sound = λ j hj. elim (ℕ_discrete i j) [
          | yes same ↦
              subst (λ k. Sound s.done (update s.workers i p k)) same
                (rw (update_same s.workers i p) sound)
          | no other ↦ rw (update_other s.workers i p j other) (early.sound j hj)
        ];
        flag = early.flag;
      }

pub Reached-Early :
    {n buffer_size num_msgs : ℕ} {s : Run}
    → Reached n buffer_size num_msgs s
    → is_early s.main ≡ true
    → Early n num_msgs s.main s
Reached-Early {n} {buffer_size} {num_msgs} set_up e =
    let queues = total-eq-zero (weigh is_message) (suc n) (λ _. []) (λ i lt. refl) in
    let workers = total-eq-zero (carried is_message) n (λ _. receiving true) (λ i lt. refl) in
    record {
      messages = (omega (arith, queues, workers), omega arith);
      starts = omega (arith, total-eq-zero started n (λ _. receiving true) (λ i lt. refl));
      own = λ i hi. refl;
      sound = λ i hi. refl;
      flag = refl;
    }
Reached-Early {n} {buffer_size} {num_msgs} (turn {s = s} r (main_turn e)) now =
    subst (RunEarly n num_msgs) e
      (run-RunEarly n num_msgs buffer_size s.main s (λ early. Reached-Early r early)) now
Reached-Early {n} {buffer_size} {num_msgs} (turn {s = s} r (worker_turn i p hi e)) now =
    worker-Early n num_msgs buffer_size i p hi e (Reached-Early r now)
