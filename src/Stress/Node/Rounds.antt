-- ===== src/Stress/Node/Rounds.antt =====
-- The rounds of a router and the sums of its vectors.
use concurrencylab.Common.{
  update_same, update_other, ℕ, ◌+◌, ◌≤◌, ◌<◌, ◌≡◌, ◌^◌, ◌∙◌, inl, inr, refl, sym, arith, Option,
  none, some, List, Bool, true, add_size,
}
use concurrencylab.Stress.Graph.{Distance, inf_distance}
use concurrencylab.Stress.Graph.Round.{IsMatrix}
use concurrencylab.Stress.Router.{DistanceVector}
use concurrencylab.Stress.Router.Vectors.{bounded}
use concurrencylab.Stress.Router.Lowered.{sum, sum-le, TookLess, take_in-TookLess}
use concurrencylab.Stress.Node.{Router, router, first_vector, on_send, on_read, cycle_buffers}
use concurrencylab.Stress.Node.FirstVectors.{first_vector-IsVector}
use concurrencylab.Stress.Node.Buffers.{AreApart, router-AreApart, cycle_buffers-AreApart}
use concurrencylab.Stress.Node.Run.{RouterRun, IsKept, RouterRun-Holds}

-- The epoch and the sum of the current vector stay within the budget.
record IsPaid (budget : ℕ) (r : Router) : Type 0 where
  apart : AreApart r.prev_prev_state r.prev_state r.curr_state r.next_state
  within : (r.vectors r.curr_state).epoch + sum (r.vectors r.curr_state).dist ≤ budget
  follows : (r.vectors r.next_state).epoch ≡ (r.vectors r.curr_state).epoch + 1
  no_more : sum (r.vectors r.next_state).dist ≤ sum (r.vectors r.curr_state).dist
  strict : r.changed ≡ true → sum (r.vectors r.next_state).dist < sum (r.vectors r.curr_state).dist

module _ {budget : ℕ} {r : Router} (is : IsPaid budget r) where
  -- Statements that leave the vectors alone.
  same-IsPaid :
      (r' : Router)
      → r'.vectors ≡ r.vectors
      → r'.prev_prev_state ≡ r.prev_prev_state
      → r'.prev_state ≡ r.prev_state
      → r'.curr_state ≡ r.curr_state
      → r'.next_state ≡ r.next_state
      → r'.changed ≡ r.changed
      → IsPaid budget r'
  same-IsPaid r' v pp p c n ch = record {
    apart = rw (pp, p, c, n) is.apart;
    within = rw (v, c) is.within;
    follows = rw (v, c, n) is.follows;
    no_more = rw (v, c, n) is.no_more;
    strict = rw (v, c, n, ch) is.strict;
  }

  on_read-IsPaid :
      (o : Option (Bool × DistanceVector))
      → TookLess r.changed (r.vectors r.next_state) o
      → IsPaid budget (on_read o r)
  unfolding on_read
  on_read-IsPaid none took = same-IsPaid _ refl refl refl refl refl refl
  on_read-IsPaid (some (c, u)) (epoch, (le, lower)) =
      let as_before =
        update_other r.vectors r.next_state u r.curr_state (λ e. is.apart.six (sym e)) in
      let now = update_same r.vectors r.next_state u in
      record {
        apart = is.apart;
        within = rw as_before is.within;
        follows = rw (as_before, now) (epoch ∙ is.follows);
        no_more = rw (as_before, now) (omega (arith, is.no_more));
        strict =
            rw (as_before, now)
              (λ e. elim (lower e) [
                | inl before ↦ omega (arith, is.strict before)
                | inr less ↦ omega (arith, is.no_more)
              ]);
      }

  cycle_buffers-IsPaid :
      (i : ℕ) → budget + 1 < 2 ^ 64 → r.changed ≡ true → IsPaid budget (cycle_buffers i r)
  unfolding cycle_buffers
  cycle_buffers-IsPaid i small ch =
      let copy = record (r.vectors r.prev_prev_state) {
        epoch = add_size (r.vectors r.next_state).epoch 1;
        dist = (r.vectors r.next_state).dist;
      } in
      let keeps = update_other r.vectors r.prev_prev_state copy r.next_state is.apart.three in
      let now = update_same r.vectors r.prev_prev_state copy in
      let less = is.strict ch in
      let epoch = is.follows in
      let before = is.within in
      record {
        apart = cycle_buffers-AreApart i r is.apart;
        within = rw keeps (omega arith);
        follows = rw (keeps, now) (omega arith);
        no_more = rw (keeps, now) (omega arith);
        strict = λ e. cc;
      }

-- the sum of the links of a router
abbrev pub sum_of_links : ℕ → List Distance → ℕ → ℕ
sum_of_links n topology i = sum (first_vector n topology i 2).dist

router-IsPaid :
    (n : ℕ) (topology : List Distance) (i : ℕ)
    → IsPaid (2 + sum_of_links n topology i) (router n topology i)
unfolding router first_vector
router-IsPaid n topology i = record {
  apart = router-AreApart n topology i;
  within = omega arith;
  follows = refl;
  no_more = omega arith;
  strict = λ e. cc;
}

module _ {n : ℕ} {topology : List Distance} (mat : IsMatrix n topology) (nodes : n ≤ 2 ^ 32) where
  sum_of_links-lt : (i : ℕ) → i < n → 3 + sum_of_links n topology i < 2 ^ 64
  sum_of_links-lt i hi =
      let is = first_vector-IsVector n topology i 2 in
      let le =
        sum-le (first_vector n topology i 2).dist inf_distance
          (λ b hb. bounded mat i (first_vector n topology i 2) hi is b (omega (arith, is.size))) in
      omega (arith, is.size)

  kept :
      (i : ℕ) (Chosen : ℕ → ℕ → Type 0) (Given : DistanceVector → Type 0)
      → i < n
      → IsKept n topology i Chosen Given (IsPaid (2 + sum_of_links n topology i))
  unfolding on_send
  kept i Chosen Given hi = record {
    start = router-IsPaid n topology i;
    move = λ r x is. same-IsPaid is _ refl refl refl refl refl refl;
    get = λ r m is. same-IsPaid is _ refl refl refl refl refl refl;
    put = λ r k low chosen is. same-IsPaid is _ refl refl refl refl refl refl;
    read = λ r v given is.
        on_read-IsPaid is _ (take_in-TookLess n topology i v r.changed (r.vectors r.next_state));
    cycle = λ r over ch is. cycle_buffers-IsPaid is i (omega (arith, sum_of_links-lt i hi)) ch;
  }

  -- On a matrix of distances up to inf_distance with n at most 2^32, in every state that a router
  -- i below n reaches in a run, whatever channel_select gives (status, index and message) and
  -- whatever the sends of its answers give, and whatever vectors it reads, the epoch of its
  -- current vector plus the sum of that vector is at most 2 plus the sum of its links; the vector
  -- that it writes has the next epoch, without a wrap; and if it has changed, its sum is below
  -- that of the current vector.
  pub rounds_bounded :
      (i : ℕ) (Chosen : ℕ → ℕ → Type 0) (Given : DistanceVector → Type 0) {r : Router}
      → RouterRun n topology i Chosen Given r
      → i < n
      → ((r.vectors r.curr_state).epoch + sum (r.vectors r.curr_state).dist
          ≤ 2 + sum_of_links n topology i)
        × ((r.vectors r.next_state).epoch ≡ (r.vectors r.curr_state).epoch + 1)
        × (r.changed ≡ true → sum (r.vectors r.next_state).dist < sum (r.vectors r.curr_state).dist)
  rounds_bounded i Chosen Given run hi =
      let is = RouterRun-Holds n topology i Chosen Given (kept i Chosen Given hi) run in
      (is.within, is.follows, is.strict)
