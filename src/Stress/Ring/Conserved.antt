-- ===== src/Stress/Ring/Conserved.antt =====
-- The statements of the main thread, and what holds in all states of a run.
use concurrencylab.Common.{
  ℕ, zero, suc, ◌+◌, ◌<◌, ◌≡◌, inl, inr, ◌∙◌, arith, Option, none, some, List, [], length, get_or,
  set, replicate, length-set, get_or-set_self, get_or-set_ne, Bool, true, false, ltb, leb, ◌&&◌,
  if◌then◌else◌, Bool-cases, Pointer, total, total-update, total-eq-zero, refl, sym, subst,
  length-replicate, ℕ_discrete,
}
use concurrencylab.Stress.Ring.{
  Queues, receiving, Main, feeding, priming, collecting, stopping, joining, pausing, finished,
  not_a_message, duplicated, Run, after_collect, after_main_send, has_ended, run_stress_send_recv,
  start_run, Turn, main_turn, worker_turn, Reached, set_up, turn,
}
use concurrencylab.Stress.Ring.Balance.{
  same, count, held, pending, collected, places, Put, Got, Kept, send_to-Put, receive_from-Got,
  worker_thread-Kept,
}

module _ (v : Pointer) (n num_msgs : ℕ) where
  -- `before` copies of `v`, and a block of flags of its size
  abbrev RunKept : ℕ → Option Run → Type 0
  RunKept before none = v ≡ v
  RunKept before (some t) = (places n num_msgs v t ≡ before) × (length t.msg_check ≡ suc num_msgs)

  after_main_send-RunKept :
      (m next : Main) (x : Pointer) (s : Run) (o : Option Queues)
      → length s.msg_check ≡ suc num_msgs
      → pending num_msgs v m ≡ pending num_msgs v next + same v x
      → Put (same v) n x s.queues o
      → RunKept (places n num_msgs v (record s { main = m })) (after_main_send next s o)
  after_main_send-RunKept m next x s none len move put = refl
  after_main_send-RunKept m next x s (some q) len move put = (omega (arith, move, put), len)

  collected-set :
      (flags : List Bool) (x : Pointer)
      → x < length flags
      → get_or flags x false ≡ false
      → collected v (set flags x true) ≡ collected v flags + same v x
  collected-set flags x inside unset = elim (ℕ_discrete v x) [
    | yes is ↦ let now = get_or-set_self flags x true false inside in rw is (ground (arith, now))
    | no other ↦
        let as_before = get_or-set_ne flags {i = x} {j = v} true false (λ e. other (sym e)) in
        ground (arith, as_before)
  ]

  after_collect-RunKept :
      (msg : ℕ) (s : Run) (o : Option (Pointer × Queues))
      → length s.msg_check ≡ suc num_msgs
      → Got (same v) n s.queues o
      → RunKept
          (places n num_msgs v (record s { main = collecting msg }))
          (after_collect num_msgs msg s o)
  after_collect-RunKept msg s none len got = refl
  after_collect-RunKept msg s (some (x, q)) len got =
      elim (Bool-cases (leb 1 x && leb x num_msgs)) [
        | inr bad ↦ rw bad (omega (arith, got), len)
        | inl good ↦ elim (Bool-cases (get_or s.msg_check x false)) [
          | inl set_before ↦ rw (good, set_before) (omega (arith, got), len)
          | inr unset ↦
              let inside : x < length s.msg_check = ground arith in
              let flag = collected-set s.msg_check x inside unset in
              rw (good, unset)
                (omega (arith, got, flag), omega (arith, len, length-set s.msg_check x true))
        ]
      ]

  run-RunKept :
      (buffer_size : ℕ) (m : Main) (s : Run)
      → 0 < v
      → length s.msg_check ≡ suc num_msgs
      → RunKept
          (places n num_msgs v (record s { main = m }))
          (run_stress_send_recv n buffer_size num_msgs m s)
  unfolding run_stress_send_recv
  run-RunKept buffer_size (feeding msg) s hv len = elim (Bool-cases (leb msg num_msgs)) [
    | inl more ↦ rw more (
        after_main_send-RunKept (feeding msg) (feeding (suc msg)) msg s _ len (ground arith)
          (send_to-Put (same v) n buffer_size n msg s.queues (omega arith)))
    | inr all ↦
        let sent : (leb msg v && leb v num_msgs) ≡ false = ground arith in
        rw (all, sent) (refl, len)
  ]
  run-RunKept buffer_size (priming i) s hv len = elim (Bool-cases (ltb i n)) [
    | inl more ↦ rw more (
        after_main_send-RunKept (priming i) (priming (suc i)) 0 s _ len (ground arith)
          (send_to-Put (same v) n buffer_size n 0 s.queues (omega arith)))
    | inr all ↦ rw all (refl, len)
  ]
  run-RunKept buffer_size pausing s hv len = (refl, len)
  run-RunKept buffer_size (collecting msg) s hv len = elim (Bool-cases (leb msg num_msgs)) [
    | inl more ↦
        rw more
          (after_collect-RunKept msg s _ len (receive_from-Got (same v) n n s.queues (omega arith)))
    | inr all ↦ rw all (refl, len)
  ]
  run-RunKept buffer_size (stopping i) s hv len = elim (Bool-cases (ltb i n)) [
    | inl more ↦ rw more (
        after_main_send-RunKept (stopping i) (stopping (suc i)) 0 s _ len (ground arith)
          (send_to-Put (same v) n buffer_size i 0 s.queues (ground arith)))
    | inr all ↦ rw all (refl, len)
  ]
  run-RunKept buffer_size (joining i) s hv len = elim (Bool-cases (ltb i n)) [
    | inl more ↦ elim (Bool-cases (has_ended (s.workers i))) [
      | inl over ↦ rw (more, over) (refl, len)
      | inr busy ↦ rw (more, busy) refl
    ]
    | inr all ↦ rw all (refl, len)
  ]
  run-RunKept buffer_size finished s hv len = refl
  run-RunKept buffer_size (not_a_message x) s hv len = refl
  run-RunKept buffer_size (duplicated x) s hv len = refl

  Turn-kept :
      {buffer_size : ℕ} {s t : Run}
      → 0 < v
      → length s.msg_check ≡ suc num_msgs
      → Turn n buffer_size num_msgs s t
      → (places n num_msgs v t ≡ places n num_msgs v s) × (length t.msg_check ≡ suc num_msgs)
  Turn-kept {buffer_size} {s} {t} hv len (main_turn e) =
      subst (RunKept (places n num_msgs v s)) e (run-RunKept buffer_size s.main s hv len)
  Turn-kept {buffer_size} {s} hv len (worker_turn i w hi e) =
      let kept =
        subst (Kept (same v) n (total (count v) (suc n) s.queues + held v (s.workers i))) e (
          worker_thread-Kept (same v) n buffer_size i s.done (s.workers i) s.queues (ground arith)
            hi) in
      let moved = total-update (held v) n s.workers i w hi in (omega (arith, kept, moved), len)

pub get_or-replicate : (k i : ℕ) → get_or (replicate k false) i false ≡ false
get_or-replicate zero i = refl
get_or-replicate (suc k) zero = refl
get_or-replicate (suc k) (suc i) = get_or-replicate k i

start_run-places :
    (n num_msgs : ℕ) (v : Pointer)
    → 0 < v
    → places n num_msgs v (start_run num_msgs) ≡ (if leb v num_msgs then 1 else 0)
start_run-places n num_msgs v hv =
    let queues = total-eq-zero (count v) (suc n) (λ _. []) (λ i lt. refl) in
    let workers = total-eq-zero (held v) n (λ _. receiving true) (λ i lt. refl) in
    let flags = get_or-replicate (suc num_msgs) v in ground (arith, queues, workers, flags)

-- In every state that a run reaches, a value v above 0 is in exactly one place if it is at most
-- num_msgs, and nowhere otherwise: still to be sent by the main thread, in a channel, held by a
-- worker, collected, or at the assertion where the main thread stopped; and there are num_msgs + 1
-- flags.
pub conserved :
    {n buffer_size num_msgs : ℕ} {s : Run}
    → Reached n buffer_size num_msgs s
    → (v : Pointer) → 0 < v
    → (places n num_msgs v s ≡ (if leb v num_msgs then 1 else 0))
      × (length s.msg_check ≡ suc num_msgs)
conserved {n} {buffer_size} {num_msgs} set_up v hv =
    (start_run-places n num_msgs v hv, omega (arith, length-replicate (suc num_msgs) false))
conserved {n} {buffer_size} {num_msgs} (turn r step) v hv =
    let (same_places, len) = conserved r v hv in
    let (kept, len') = Turn-kept v n num_msgs hv len step in (kept ∙ same_places, len')
