-- ===== src/Stress/Ring/Balance.antt =====
-- Where each message is: the run neither loses nor copies one.
use concurrencylab.Common.{
  ℕ, suc, ◌+◌, ◌≤◌, ◌<◌, ◌≡◌, inl, inr, arith, Option, none, some, List, [], ◌∷◌, ◌++◌, length,
  get_or, Bool, true, false, ltb, leb, ◌==◌, ◌&&◌, if◌then◌else◌, Bool-cases, add_size, Pointer,
  total, total-update, refl,
}
use concurrencylab.Stress.Ring.{
  Queues, send_to, take_oldest, receive_from, Worker, receiving, testing, passing, ended,
  next_index, received, after_receive, after_send, worker_thread, Main, feeding, not_a_message,
  duplicated, Run,
}

abbrev pub same : Pointer → Pointer → ℕ
same v x = if v == x then 1 else 0

-- what the messages of a list come to, each with its weight
abbrev pub weigh : (Pointer → ℕ) → List Pointer → ℕ
weigh w [] = 0
weigh w (x ∷ xs) = w x + weigh w xs

abbrev pub count : Pointer → List Pointer → ℕ
count v = weigh (same v)

-- the weight of the message that a worker holds
abbrev pub carried : (Pointer → ℕ) → Worker → ℕ
carried w (testing start x) = w x
carried w (passing start seen x) = w x
carried w _ = 0

-- how often a worker holds `v`
abbrev pub held : Pointer → Worker → ℕ
held v = carried (same v)

-- how often the main thread still has to send `v`, or stopped at it
abbrev pub pending : ℕ → Pointer → Main → ℕ
pending num_msgs v (feeding msg) = if leb msg v && leb v num_msgs then 1 else 0
pending num_msgs v (not_a_message x) = same v x
pending num_msgs v (duplicated x) = same v x
pending num_msgs v _ = 0

-- how often `v` has been collected
abbrev pub collected : Pointer → List Bool → ℕ
collected v msg_check = if get_or msg_check v false then 1 else 0

-- All places where `v` can be.
abbrev pub places : ℕ → ℕ → Pointer → Run → ℕ
places num_channel num_msgs v s =
    pending num_msgs v s.main
    + total (count v) (suc num_channel) s.queues
    + total (held v) num_channel s.workers
    + collected v s.msg_check

pub weigh-append :
    (w : Pointer → ℕ) (x : Pointer) (xs : List Pointer) → weigh w (xs ++ x ∷ []) ≡ weigh w xs + w x
weigh-append w x [] = omega arith
weigh-append w x (y ∷ xs) = omega (arith, weigh-append w x xs)

module _ (w : Pointer → ℕ) (n : ℕ) where
  -- A send puts its message into a queue, and a receive takes it out.
  abbrev pub Put : Pointer → Queues → Option Queues → Type 0
  Put x q none = n ≡ n
  Put x q (some q') = total (weigh w) (suc n) q' ≡ total (weigh w) (suc n) q + w x

  abbrev pub Got : Queues → Option (Pointer × Queues) → Type 0
  Got q none = n ≡ n
  Got q (some (x, q')) = total (weigh w) (suc n) q' + w x ≡ total (weigh w) (suc n) q

  pub send_to-Put :
      (buffer_size c : ℕ) (x : Pointer) (q : Queues) → c ≤ n → Put x q (send_to buffer_size c x q)
  send_to-Put buffer_size c x q hc = elim (Bool-cases (ltb (length (q c)) buffer_size)) [
    | inl room ↦
        let moved = total-update (weigh w) (suc n) q c (q c ++ x ∷ []) (omega arith) in
        rw room (omega (arith, moved, weigh-append w x (q c)))
    | inr full ↦ rw full refl
  ]

  take_oldest-Got :
      (c : ℕ) (q : Queues) (xs : List Pointer) → c ≤ n → q c ≡ xs → Got q (take_oldest c q xs)
  take_oldest-Got c q [] hc e = refl
  take_oldest-Got c q (x ∷ xs) hc e =
      let moved = total-update (weigh w) (suc n) q c xs (omega arith) in
      let before : weigh w (q c) ≡ w x + weigh w xs = rw e refl in omega (arith, moved, before)

  pub receive_from-Got : (c : ℕ) (q : Queues) → c ≤ n → Got q (receive_from c q)
  receive_from-Got c q hc = take_oldest-Got c q (q c) hc refl

  -- A statement of a worker keeps what the queues and the worker hold together.
  abbrev pub Kept : ℕ → Option (Worker × Queues) → Type 0
  Kept before none = n ≡ n
  Kept before (some (p, q)) = total (weigh w) (suc n) q + carried w p ≡ before

  -- NULL is no message.
  carried-received : (start : Bool) (x : Pointer) → w 0 ≡ 0 → carried w (received start x) ≡ w x
  carried-received true x null = elim (Bool-cases (x == 0)) [
    | inl e ↦ let is : x ≡ 0 = ground arith in rw (is, null) refl
    | inr e ↦ rw e refl
  ]
  carried-received false x null = elim (Bool-cases (x == 0)) [
    | inl e ↦ let is : x ≡ 0 = ground arith in rw (is, null) refl
    | inr e ↦ rw e refl
  ]

  after_receive-Kept :
      (start : Bool) (q : Queues) (o : Option (Pointer × Queues))
      → w 0 ≡ 0
      → Got q o
      → Kept (total (weigh w) (suc n) q) (after_receive start o)
  after_receive-Kept start q none null got = refl
  after_receive-Kept start q (some (x, q')) null got =
      omega (arith, carried-received start x null, got)

  after_send-Kept :
      (start : Bool) (x : Pointer) (q : Queues) (o : Option Queues)
      → Put x q o
      → Kept (total (weigh w) (suc n) q + w x) (after_send start o)
  after_send-Kept start x q none put = refl
  after_send-Kept start x q (some q') put = omega (arith, put)

  next_index-le : (i : ℕ) → i < n → next_index n i ≤ n
  next_index-le i h = elim (Bool-cases (leb n (add_size i 1))) [
    | inl last ↦ rw last (omega arith)
    | inr inside ↦ rw inside (ground arith)
  ]

  pub worker_thread-Kept :
      (buffer_size i : ℕ) (done : Bool) (p : Worker) (q : Queues)
      → w 0 ≡ 0
      → i < n
      → Kept (total (weigh w) (suc n) q + carried w p) (worker_thread n buffer_size i done p q)
  unfolding worker_thread
  worker_thread-Kept buffer_size i done (receiving true) q null hi =
      let none_held : total (weigh w) (suc n) q + 0 ≡ total (weigh w) (suc n) q = omega arith in
      rw none_held (after_receive-Kept true q _ null (receive_from-Got n q (omega arith)))
  worker_thread-Kept buffer_size i done (receiving false) q null hi =
      let none_held : total (weigh w) (suc n) q + 0 ≡ total (weigh w) (suc n) q = omega arith in
      rw none_held (after_receive-Kept false q _ null (receive_from-Got i q (omega arith)))
  worker_thread-Kept buffer_size i done (testing start x) q null hi = refl
  worker_thread-Kept buffer_size i done (passing start true x) q null hi =
      after_send-Kept start x q _ (send_to-Put buffer_size n x q (omega arith))
  worker_thread-Kept buffer_size i done (passing start false x) q null hi =
      after_send-Kept start x q _
        (send_to-Put buffer_size (next_index n i) x q (next_index-le i hi))
  worker_thread-Kept buffer_size i done ended q null hi = refl
