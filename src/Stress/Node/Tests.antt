-- ===== src/Stress/Node/Tests.antt =====
-- Runs of one of two routers by evaluation, and the concrete uses of the theorems about them.
use concurrencylab.Common.{
  ℕ, zero, suc, ◌+◌, ◌*◌, ◌≤◌, ◌<◌, ◌≡◌, ◌≢◌, inl, inr, refl, arith, Option, none, some, List, [],
  ◌∷◌, ◌++◌, get_or, Bool, true, false,
}
use concurrencylab.Channel.{success}
use concurrencylab.Channel.Select.{channel_select}
use concurrencylab.Stress.Graph.{Distance, inf_distance, get_solution_distance, floyd_warshall}
use concurrencylab.Stress.Graph.Round.{IsMatrix}
use concurrencylab.Stress.Router.{DistanceVector, take_in, relax_entries, relax_entry}
use concurrencylab.Stress.Router.Vectors.{IsVector}
use concurrencylab.Stress.Router.Lowered.{sum}
use concurrencylab.Stress.Node.{
  Router, failed, address, router, first_vector, link_distances, first_list, count_selects,
  on_message, on_send, on_read, on_test, on_success, on_return, cycle_buffers, reset_messages,
}
use concurrencylab.Stress.Node.Run.{
  RouterRun, RouterStep, begun, next, returned, dealt, took, tested, with_message,
}
use concurrencylab.Stress.Node.FirstVectors.{first_vector-IsVector}
use concurrencylab.Stress.Node.Buffers.{KeepsInUse, InUse-unwritten}
use concurrencylab.Stress.Node.Rounds.{sum_of_links, rounds_bounded}
use concurrencylab.Stress.Node.Distances.{IsGiven, distances_bounded}
use concurrencylab.Stress.Node.Stub.{
  StubRun, at_loop, then_step, selected, checked, select_and_go, is_mute, nothing_arrives,
}

-- Three nodes; the links 0 to 1 and 1 to 2 have length 1, the link 0 to 2 has length 5.
abbrev three : List Distance
three = 0 ∷ 1 ∷ 5 ∷ 1 ∷ 0 ∷ 1 ∷ 5 ∷ 1 ∷ 0 ∷ []

below_three {ℓ} : (P : ℕ → Type ℓ) → P 0 → P 1 → P 2 → (i : ℕ) → i < 3 → P i
below_three P p q r zero h = p
below_three P p q r (suc zero) h = q
below_three P p q r (suc (suc zero)) h = r
below_three P p q r (suc (suc (suc i))) h = absurd (omega arith)

three-IsMatrix : IsMatrix 3 three
three-IsMatrix = record {
  size = refl;
  bounded = λ a b ha hb.
      below_three (λ a. get_or three (a * 3 + b) 0 ≤ inf_distance)
        (below_three (λ b. get_or three (0 * 3 + b) 0 ≤ inf_distance) (omega arith) (omega arith)
          (omega arith) b hb)
        (below_three (λ b. get_or three (1 * 3 + b) 0 ≤ inf_distance) (omega arith) (omega arith)
          (omega arith) b hb)
        (below_three (λ b. get_or three (2 * 3 + b) 0 ≤ inf_distance) (omega arith) (omega arith)
          (omega arith) b hb)
        a ha;
}

-- The vector of node 1 that router 0 reads.
abbrev of_one : DistanceVector
of_one = first_vector 3 three 1 2

abbrev Inside : ℕ → ℕ → Type 0
Inside k count = k < count

abbrev Step : Router → Router → Type 0
Step r r' = RouterStep 3 three 0 Inside (IsGiven 3 three) r r'

-- Router 0 sends to both, takes in the vector of node 1, and goes on to its next round.
sent_once : Router
sent_once = on_return success 2 (with_message none (router 3 three 0))

sent_twice : Router
sent_twice = on_return success 2 (with_message none (on_test 0 sent_once))

got_vector : Router
got_vector = on_return success 1 (with_message (some (address 1 2)) (on_test 0 sent_twice))

is_reading : Router
is_reading = on_message 0 (some (address 1 2)) got_vector

has_read : Router
has_read =
    on_read
      (take_in 3 three 0 of_one (is_reading.changed, is_reading.vectors is_reading.next_state))
      is_reading

round_begun : Router
round_begun = on_test 0 has_read

of_one-IsGiven : IsGiven 3 three of_one
unfolding first_vector
of_one-IsGiven = (omega arith, first_vector-IsVector 3 three 1 2)

has_read-RouterRun : RouterRun 3 three 0 Inside (IsGiven 3 three) has_read
unfolding router first_vector link_distances first_list count_selects on_return on_success on_send
    on_message on_read on_test cycle_buffers reset_messages take_in relax_entries relax_entry
    concurrencylab.Common.for_from sent_once sent_twice got_vector is_reading has_read
has_read-RouterRun =
    let one = next begun (returned success 2 none refl (omega arith)) in
    let two = next (next one (tested refl)) (returned success 2 none refl (omega arith)) in
    let three =
      next (next two (tested refl)) (returned success 1 (some (address 1 2)) refl (omega arith)) in
    next (next three (dealt (some (address 1 2)) refl))
      (took (address 1 2) of_one refl of_one-IsGiven)

last_test : Step has_read round_begun
unfolding router first_vector link_distances first_list count_selects on_return on_success on_send
    on_message on_read on_test cycle_buffers reset_messages take_in relax_entries relax_entry
    concurrencylab.Common.for_from sent_once sent_twice got_vector is_reading has_read round_begun
last_test = tested refl

round_begun-RouterRun : RouterRun 3 three 0 Inside (IsGiven 3 three) round_begun
round_begun-RouterRun = next has_read-RouterRun last_test

-- The round has changed the buffers, and both sends are to be done again.
round_test :
    (round_begun.curr_state ≡ 3)
    × ((round_begun.vectors 3).dist ≡ 0 ∷ 1 ∷ 2 ∷ [])
    × ((round_begun.vectors 3).epoch ≡ 3)
    × (round_begun.select_count ≡ 4)
unfolding router first_vector link_distances first_list count_selects on_return on_success on_send
    on_message on_read on_test cycle_buffers reset_messages take_in relax_entries relax_entry
    concurrencylab.Common.for_from sent_once sent_twice got_vector is_reading has_read round_begun
round_test = (refl, refl, refl, refl)

InUse-unwritten_example : KeepsInUse has_read round_begun
InUse-unwritten_example =
    InUse-unwritten 3 three 0 Inside (IsGiven 3 three) has_read-RouterRun last_test

rounds_bounded_example :
    ((round_begun.vectors round_begun.curr_state).epoch
        + sum (round_begun.vectors round_begun.curr_state).dist
      ≤ 2 + sum_of_links 3 three 0)
    × ((round_begun.vectors round_begun.next_state).epoch
        ≡ (round_begun.vectors round_begun.curr_state).epoch + 1)
    × (round_begun.changed ≡ true
        → sum (round_begun.vectors round_begun.next_state).dist
          < sum (round_begun.vectors round_begun.curr_state).dist)
rounds_bounded_example =
    rounds_bounded three-IsMatrix (omega arith) 0 Inside (IsGiven 3 three) round_begun-RouterRun
      (omega arith)

distances_bounded_example :
    IsVector 3 three 0 (round_begun.vectors round_begun.curr_state)
    × ((b : ℕ)
        → b < 3
        → get_solution_distance 3 (floyd_warshall 3 three) 0 b
          ≤ get_or (round_begun.vectors round_begun.curr_state).dist b 0)
distances_bounded_example =
    distances_bounded three-IsMatrix 0 Inside round_begun-RouterRun (omega arith)

-- With the stub and 2 in the variable, router 0 gets through its list and then leaves it.
stub_once : Router
stub_once = select_and_go 2 (router 3 three 0)

stub_twice : Router
stub_twice = select_and_go 2 (on_test 0 stub_once)

stub_twice-StubRun : StubRun 3 three 0 2 stub_twice
unfolding router first_vector link_distances first_list count_selects select_and_go channel_select
    on_return on_success on_send on_test stub_once stub_twice concurrencylab.Common.for_from
stub_twice-StubRun =
    then_step (then_step (then_step at_loop (selected refl)) (checked refl)) (selected refl)

-- With 0 in the variable, it fails its first assertion.
stub_fails_test : (select_and_go 0 (router 3 three 0)).at ≡ failed
unfolding router select_and_go channel_select on_return on_success
stub_fails_test = refl

nothing_arrives_example :
    (stub_twice.vectors ≡ (router 3 three 0).vectors)
    × (stub_twice.curr_state ≡ 2)
    × (stub_twice.changed ≡ false)
    × (is_mute stub_twice.at ≡ true)
nothing_arrives_example = nothing_arrives 3 three 0 2 stub_twice-StubRun
