-- ===== src/Stress/Ring/Collection.antt =====
-- What the place of the main thread says about the flags, and what it has done when it stops.
use concurrencylab.Common.{
  ℕ, suc, ◌+◌, ◌≤◌, ◌<◌, ◌≡◌, ◌≢◌, inl, inr, ◌∙◌, arith, Option, none, some, List, length, get_or,
  get_or-set_ne, Bool, true, false, ltb, leb, ◌&&◌, Bool-cases, Pointer, total, total-ge, refl,
  subst, ℕ_discrete,
}
use concurrencylab.Stress.Ring.{
  Queues, Main, feeding, priming, collecting, stopping, joining, pausing, finished, not_a_message,
  duplicated, Run, after_collect, after_main_send, has_ended, run_stress_send_recv, main_turn,
  worker_turn, Reached, set_up, turn,
}
use concurrencylab.Stress.Ring.Balance.{count, held}
use concurrencylab.Stress.Ring.Flags.{flags_set, flags_set-replicate, flags_set-set, others_set}
use concurrencylab.Stress.Ring.Conserved.{conserved, get_or-replicate}

-- What the place of the main thread says about the flags.
abbrev pub Explained : ℕ → Main → List Bool → Type 0
Explained num_msgs (collecting msg) flags = (suc (flags_set flags) ≡ msg) × (msg ≤ suc num_msgs)
Explained num_msgs (stopping i) flags = flags_set flags ≡ num_msgs
Explained num_msgs (joining i) flags = flags_set flags ≡ num_msgs
Explained num_msgs finished flags = flags_set flags ≡ num_msgs
Explained num_msgs (not_a_message x) flags = (leb 1 x && leb x num_msgs) ≡ false
Explained num_msgs (duplicated x) flags = (0 < x) × (x ≤ num_msgs) × (get_or flags x false ≡ true)
Explained num_msgs _ flags = flags_set flags ≡ 0

module _ (num_msgs : ℕ) where
  abbrev RunExplained : Option Run → Type 0
  RunExplained none = num_msgs ≡ num_msgs
  RunExplained (some t) =
      Explained num_msgs t.main t.msg_check × (get_or t.msg_check 0 false ≡ false)

  after_main_send-RunExplained :
      (next : Main) (s : Run) (o : Option Queues)
      → Explained num_msgs next s.msg_check
      → get_or s.msg_check 0 false ≡ false
      → RunExplained (after_main_send next s o)
  after_main_send-RunExplained next s none why unset = refl
  after_main_send-RunExplained next s (some q) why unset = (why, unset)

  after_collect-RunExplained :
      (msg : ℕ) (s : Run) (o : Option (Pointer × Queues))
      → msg ≤ num_msgs
      → length s.msg_check ≡ suc num_msgs
      → suc (flags_set s.msg_check) ≡ msg
      → get_or s.msg_check 0 false ≡ false
      → RunExplained (after_collect num_msgs msg s o)
  after_collect-RunExplained msg s none le len counted unset = refl
  after_collect-RunExplained msg s (some (x, q)) le len counted unset =
      elim (Bool-cases (leb 1 x && leb x num_msgs)) [
        | inr bad ↦ rw bad (bad, unset)
        | inl good ↦
            let positive : 0 < x = ground arith in
            let bounded : x ≤ num_msgs = ground arith in
            elim (Bool-cases (get_or s.msg_check x false)) [
              | inl set_before ↦ rw (good, set_before) ((positive, bounded, set_before), unset)
              | inr fresh ↦
                  let one_more = flags_set-set s.msg_check x (omega arith) fresh in
                  let zero_kept =
                    get_or-set_ne s.msg_check {i = x} {j = 0} true false
                      (λ e. absurd (omega arith)) in
                  rw (good, fresh) ((omega arith, omega arith), zero_kept ∙ unset)
            ]
      ]

  run-RunExplained :
      (n buffer_size : ℕ) (m : Main) (s : Run)
      → length s.msg_check ≡ suc num_msgs
      → Explained num_msgs m s.msg_check
      → get_or s.msg_check 0 false ≡ false
      → RunExplained (run_stress_send_recv n buffer_size num_msgs m s)
  unfolding run_stress_send_recv
  run-RunExplained n buffer_size (feeding msg) s len why unset =
      elim (Bool-cases (leb msg num_msgs)) [
        | inl more ↦ rw more (after_main_send-RunExplained (feeding (suc msg)) s _ why unset)
        | inr all ↦ rw all (why, unset)
      ]
  run-RunExplained n buffer_size (priming i) s len why unset = elim (Bool-cases (ltb i n)) [
    | inl more ↦ rw more (after_main_send-RunExplained (priming (suc i)) s _ why unset)
    | inr all ↦ rw all (why, unset)
  ]
  run-RunExplained n buffer_size pausing s len why unset = ((omega arith, omega arith), unset)
  run-RunExplained n buffer_size (collecting msg) s len (counted, le) unset =
      elim (Bool-cases (leb msg num_msgs)) [
        | inl more ↦ rw more (after_collect-RunExplained msg s _ (ground arith) len counted unset)
        | inr all ↦ let past : num_msgs < msg = ground arith in rw all (omega arith, unset)
      ]
  run-RunExplained n buffer_size (stopping i) s len why unset = elim (Bool-cases (ltb i n)) [
    | inl more ↦ rw more (after_main_send-RunExplained (stopping (suc i)) s _ why unset)
    | inr all ↦ rw all (why, unset)
  ]
  run-RunExplained n buffer_size (joining i) s len why unset = elim (Bool-cases (ltb i n)) [
    | inl more ↦ elim (Bool-cases (has_ended (s.workers i))) [
      | inl over ↦ rw (more, over) (why, unset)
      | inr busy ↦ rw (more, busy) refl
    ]
    | inr all ↦ rw all (why, unset)
  ]
  run-RunExplained n buffer_size finished s len why unset = refl
  run-RunExplained n buffer_size (not_a_message x) s len why unset = refl
  run-RunExplained n buffer_size (duplicated x) s len why unset = refl

pub Reached-Explained :
    {n buffer_size num_msgs : ℕ} {s : Run}
    → Reached n buffer_size num_msgs s
    → Explained num_msgs s.main s.msg_check × (get_or s.msg_check 0 false ≡ false)
Reached-Explained {num_msgs = num_msgs} set_up =
    (flags_set-replicate (suc num_msgs), get_or-replicate (suc num_msgs) 0)
Reached-Explained {n} {buffer_size} {num_msgs} (turn {s = s} r (main_turn e)) =
    let (why, unset) = Reached-Explained r in
    let (kept, len) = conserved r 1 (omega arith) in
    subst (RunExplained num_msgs) e (run-RunExplained num_msgs n buffer_size s.main s len why unset)
Reached-Explained (turn r (worker_turn i w hi e)) = Reached-Explained r

-- The main thread is past its loop that collects the messages.
abbrev pub has_collected : Main → Bool
has_collected (stopping i) = true
has_collected (joining i) = true
has_collected finished = true
has_collected _ = false

past-flags :
    (num_msgs : ℕ) (m : Main) (flags : List Bool)
    → has_collected m ≡ true
    → Explained num_msgs m flags
    → flags_set flags ≡ num_msgs
past-flags num_msgs (stopping i) flags past why = why
past-flags num_msgs (joining i) flags past why = why
past-flags num_msgs finished flags past why = why
past-flags num_msgs (feeding i) flags past why = absurd (ground arith)
past-flags num_msgs (priming i) flags past why = absurd (ground arith)
past-flags num_msgs (collecting i) flags past why = absurd (ground arith)
past-flags num_msgs pausing flags past why = absurd (ground arith)
past-flags num_msgs (not_a_message x) flags past why = absurd (ground arith)
past-flags num_msgs (duplicated x) flags past why = absurd (ground arith)

-- In every state that a run reaches in which the main thread is past the loop that collects the
-- messages, the flag of every message from 1 to num_msgs is set, and no value above 0 is in any
-- channel or held by any worker.
pub all_collected :
    {n buffer_size num_msgs : ℕ} {s : Run}
    → Reached n buffer_size num_msgs s
    → has_collected s.main ≡ true
    → (v : Pointer) → 0 < v
    → (v ≤ num_msgs → get_or s.msg_check v false ≡ true)
      × ((c : ℕ) → c ≤ n → count v (s.queues c) ≡ 0)
      × ((i : ℕ) → i < n → held v (s.workers i) ≡ 0)
all_collected {n} {buffer_size} {num_msgs} {s} r past v hv =
    let (why, unset) = Reached-Explained r in
    let (here, len) = conserved r v hv in
    let full = past-flags num_msgs s.main s.msg_check past why in
    let flag : v ≤ num_msgs → get_or s.msg_check v false ≡ true =
      λ le. others_set s.msg_check v (omega arith) unset hv (omega arith) in
    let nowhere : total (count v) (suc n) s.queues + total (held v) n s.workers ≡ 0 =
      elim (Bool-cases (leb v num_msgs)) [
        | inl is ↦ let set_there = flag (ground arith) in ground arith
        | inr is_not ↦ ground arith
      ] in
    (
      flag,
      λ c hc. omega (arith, nowhere, total-ge (count v) (suc n) s.queues c (omega arith)),
      λ i hi. omega (arith, nowhere, total-ge (held v) n s.workers i hi),
    )

-- In every state that a run reaches, the main thread has not stopped at the assertion that a
-- message is no duplicate, and if it has stopped at the assertion on the range of a message, then
-- what it received was NULL.
pub only_null_fails :
    {n buffer_size num_msgs : ℕ} {s : Run}
    → Reached n buffer_size num_msgs s
    → (x : Pointer) → (s.main ≢ duplicated x) × (s.main ≡ not_a_message x → x ≡ 0)
only_null_fails {n} {buffer_size} {num_msgs} {s} r x =
    let (why, unset) = Reached-Explained r in
    (
      λ at.
          let (positive, bounded, flag) = subst (λ m. Explained num_msgs m s.msg_check) at why in
          let (here, len) = conserved r x positive in absurd (ground arith),
      λ at.
          let bad = subst (λ m. Explained num_msgs m s.msg_check) at why in
          elim (ℕ_discrete x 0) [
            | yes is ↦ is
            | no other ↦ let (here, len) = conserved r x (omega arith) in absurd (ground arith)
          ],
    )
