-- ===== src/Stress/Ring/Tests.antt =====
-- Runs of the ring by evaluation, and the concrete uses of the theorems about it.
use concurrencylab.Common.{
  ℕ, ◌≤◌, ◌<◌, ◌≡◌, ◌≢◌, arith, Option, none, some, List, ◌∷◌, [], length, get_or, Bool, true,
  false, leb, if◌then◌else◌, update, refl, Pointer,
}
use concurrencylab.Stress.Ring.{
  Queues, Worker, Main, not_a_message, duplicated, finished, Run, run_stress_send_recv,
  worker_thread, start_run, Turn, Reached, set_up, turn, main_turn, worker_turn,
}
use concurrencylab.Stress.Ring.Balance.{count, held, places}
use concurrencylab.Stress.Ring.Conserved.{conserved}
use concurrencylab.Stress.Ring.Early.{is_early}
use concurrencylab.Stress.Ring.Progress.{never_blocks}
use concurrencylab.Stress.Ring.Collection.{has_collected, all_collected, only_null_fails}

-- One worker and channels of size 1. A schedule says whether the worker is next, or the main thread.
abbrev worker_result : Run → Option (Worker × Queues) → Option Run
worker_result s none = none
worker_result s (some (w, q)) = some (record s { queues = q; workers = update s.workers 0 w })

abbrev one_turn : ℕ → Bool → Run → Option Run
one_turn num_msgs true s = worker_result s (worker_thread 1 1 0 s.done (s.workers 0) s.queues)
one_turn num_msgs false s = run_stress_send_recv 1 1 num_msgs s.main s

abbrev perform : ℕ → List Bool → Option Run → Option Run
perform num_msgs [] o = o
perform num_msgs (who ∷ schedule) none = none
perform num_msgs (who ∷ schedule) (some s) = perform num_msgs schedule (one_turn num_msgs who s)

abbrev AllReached : ℕ → Option Run → Type 0
AllReached num_msgs none = num_msgs ≡ num_msgs
AllReached num_msgs (some s) = Reached 1 1 num_msgs s

worker_result-AllReached :
    (num_msgs : ℕ) (s : Run) (o : Option (Worker × Queues))
    → worker_thread 1 1 0 s.done (s.workers 0) s.queues ≡ o
    → Reached 1 1 num_msgs s
    → AllReached num_msgs (worker_result s o)
worker_result-AllReached num_msgs s none e r = refl
worker_result-AllReached num_msgs s (some (w, q)) e r = turn r (worker_turn 0 w (omega arith) e)

main_result-AllReached :
    (num_msgs : ℕ) (s : Run) (o : Option Run)
    → run_stress_send_recv 1 1 num_msgs s.main s ≡ o
    → Reached 1 1 num_msgs s
    → AllReached num_msgs o
main_result-AllReached num_msgs s none e r = refl
main_result-AllReached num_msgs s (some t) e r = turn r (main_turn e)

perform-AllReached :
    (num_msgs : ℕ) (schedule : List Bool) (o : Option Run)
    → AllReached num_msgs o
    → AllReached num_msgs (perform num_msgs schedule o)
perform-AllReached num_msgs [] o r = r
perform-AllReached num_msgs (who ∷ schedule) none r = refl
perform-AllReached num_msgs (true ∷ schedule) (some s) r =
    perform-AllReached num_msgs schedule _ (worker_result-AllReached num_msgs s _ refl r)
perform-AllReached num_msgs (false ∷ schedule) (some s) r =
    perform-AllReached num_msgs schedule _ (main_result-AllReached num_msgs s _ refl r)

abbrev main_of : Option Run → Option Main
main_of none = none
main_of (some s) = some s.main

-- The worker passes the one message to itself, and later to the main thread.
abbrev good_schedule : List Bool
good_schedule =
    false ∷ true ∷ false ∷ false ∷ true ∷ true ∷ true ∷ false ∷ false ∷ true ∷ true ∷ true ∷ false
    ∷ false ∷ false ∷ false ∷ true ∷ false ∷ false ∷ []

good_run_test : main_of (perform 1 good_schedule (some (start_run 1))) ≡ some finished
unfolding run_stress_send_recv worker_thread
good_run_test = refl

-- The worker is late, and the main thread takes the start message that was meant for it.
abbrev late_schedule : List Bool
late_schedule = false ∷ true ∷ false ∷ true ∷ true ∷ false ∷ false ∷ false ∷ false ∷ []

late_worker_test : main_of (perform 1 late_schedule (some (start_run 1))) ≡ some (not_a_message 0)
unfolding run_stress_send_recv worker_thread
late_worker_test = refl

abbrev end_of : Option Run → Run
end_of none = start_run 0
end_of (some s) = s

good_run : Run
unfolding run_stress_send_recv worker_thread
good_run = end_of (perform 1 good_schedule (some (start_run 1)))

good_run-Reached : Reached 1 1 1 good_run
unfolding good_run run_stress_send_recv worker_thread
good_run-Reached = perform-AllReached 1 good_schedule (some (start_run 1)) set_up

good_run-has_collected : has_collected good_run.main ≡ true
unfolding good_run run_stress_send_recv worker_thread
good_run-has_collected = refl

late_run : Run
unfolding run_stress_send_recv worker_thread
late_run = end_of (perform 1 late_schedule (some (start_run 1)))

late_run-Reached : Reached 1 1 1 late_run
unfolding late_run run_stress_send_recv worker_thread
late_run-Reached = perform-AllReached 1 late_schedule (some (start_run 1)) set_up

conserved_example :
    (places 1 1 1 late_run ≡ (if leb 1 1 then 1 else 0)) × (length late_run.msg_check ≡ 2)
conserved_example = conserved late_run-Reached 1 (omega arith)

all_collected_example :
    (1 ≤ 1 → get_or good_run.msg_check 1 false ≡ true)
    × ((c : ℕ) → c ≤ 1 → count 1 (good_run.queues c) ≡ 0)
    × ((i : ℕ) → i < 1 → held 1 (good_run.workers i) ≡ 0)
all_collected_example = all_collected good_run-Reached good_run-has_collected 1 (omega arith)

abbrev one : Pointer
one = 1

only_null_fails_example :
    (late_run.main ≢ duplicated one) × (late_run.main ≡ not_a_message one → one ≡ 0)
only_null_fails_example = only_null_fails late_run-Reached one

-- The worker has passed the message to itself.
half_run : Run
unfolding run_stress_send_recv worker_thread
half_run = end_of (perform 1 (false ∷ true ∷ false ∷ false ∷ true ∷ true ∷ []) (some (start_run 1)))

half_run-Reached : Reached 1 1 1 half_run
unfolding half_run run_stress_send_recv worker_thread
half_run-Reached =
    perform-AllReached 1 (false ∷ true ∷ false ∷ false ∷ true ∷ true ∷ []) (some (start_run 1))
      set_up

half_run-is_early : is_early half_run.main ≡ true
unfolding half_run run_stress_send_recv worker_thread
half_run-is_early = refl

never_blocks_example : (t : Run) × Turn 1 1 1 half_run t
never_blocks_example =
    never_blocks (omega arith) (omega arith) (omega arith) half_run-Reached half_run-is_early
