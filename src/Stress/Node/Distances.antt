-- ===== src/Stress/Node/Distances.antt =====
-- The vectors of a router in its runs: lengths of walks at any time.
use concurrencylab.Common.{
  update_same, update_other, ℕ, ◌≤◌, ◌<◌, ◌≡◌, inl, inr, refl, sym, arith, Option, none, some, List,
  Bool, ◌==◌, Bool-cases, get_or, add_size,
}
use concurrencylab.Stress.Graph.{
  Distance, inf_distance, get_link_distance, get_solution_distance, floyd_warshall,
}
use concurrencylab.Stress.Graph.Round.{IsMatrix}
use concurrencylab.Stress.Graph.Shortest.{floyd_warshall_shortest}
use concurrencylab.Stress.Router.{DistanceVector, take_in}
use concurrencylab.Stress.Router.Vectors.{IsVector, take_in-TookIn}
use concurrencylab.Stress.Node.{Router, router, on_send, on_read, cycle_buffers}
use concurrencylab.Stress.Node.FirstVectors.{first_vector-IsVector}
use concurrencylab.Stress.Node.Buffers.{AreApart, router-AreApart, cycle_buffers-AreApart}
use concurrencylab.Stress.Node.Run.{RouterRun, IsKept, RouterRun-Holds}

-- A vector of some node, whose entries are lengths of walks from that node, at most its links.
abbrev pub IsGiven : ℕ → List Distance → DistanceVector → Type 0
IsGiven n topology v = (v.src < n) × IsVector n topology v.src v

-- The vectors that the router still uses.
record HasVectors (n : ℕ) (topology : List Distance) (i : ℕ) (r : Router) : Type 0 where
  apart : AreApart r.prev_prev_state r.prev_state r.curr_state r.next_state
  spare : IsVector n topology i (r.vectors r.prev_prev_state)
  prev : IsVector n topology i (r.vectors r.prev_state)
  curr : IsVector n topology i (r.vectors r.curr_state)
  next : IsVector n topology i (r.vectors r.next_state)

-- What `take_in` may give: nothing, or a vector of the router.
abbrev IsTaken : ℕ → List Distance → ℕ → Option (Bool × DistanceVector) → Type 0
IsTaken n topology i none = i ≡ i
IsTaken n topology i (some (c, u)) = IsVector n topology i u

module _ {n : ℕ} {topology : List Distance} {i : ℕ} where
  on_read-HasVectors :
      (r : Router) (o : Option (Bool × DistanceVector))
      → IsTaken n topology i o
      → HasVectors n topology i r
      → HasVectors n topology i (on_read o r)
  unfolding on_read
  on_read-HasVectors r none taken is = record {
    apart = is.apart;
    spare = is.spare;
    prev = is.prev;
    curr = is.curr;
    next = is.next;
  }
  on_read-HasVectors r (some (c, u)) taken is =
      let keeps = update_other r.vectors r.next_state u in
      record {
        apart = is.apart;
        spare = rw (keeps r.prev_prev_state (λ e. is.apart.three (sym e))) is.spare;
        prev = rw (keeps r.prev_state (λ e. is.apart.five (sym e))) is.prev;
        curr = rw (keeps r.curr_state (λ e. is.apart.six (sym e))) is.curr;
        next = rw (update_same r.vectors r.next_state u) taken;
      }

  cycle_buffers-HasVectors :
      (r : Router) → HasVectors n topology i r → HasVectors n topology i (cycle_buffers i r)
  unfolding cycle_buffers
  cycle_buffers-HasVectors r is =
      let copy = record (r.vectors r.prev_prev_state) {
        epoch = add_size (r.vectors r.next_state).epoch 1;
        dist = (r.vectors r.next_state).dist;
      } in
      let keeps = update_other r.vectors r.prev_prev_state copy in
      record {
        apart = cycle_buffers-AreApart i r is.apart;
        spare = rw (keeps r.prev_state is.apart.one) is.prev;
        prev = rw (keeps r.curr_state is.apart.two) is.curr;
        curr = rw (keeps r.next_state is.apart.three) is.next;
        next = rw (update_same r.vectors r.prev_prev_state copy) (record {
          node = is.spare.node;
          size = is.next.size;
          walks = is.next.walks;
          direct = is.next.direct;
        });
      }

router-HasVectors :
    (n : ℕ) (topology : List Distance) (i : ℕ) → HasVectors n topology i (router n topology i)
unfolding router
router-HasVectors n topology i = record {
  apart = router-AreApart n topology i;
  spare = first_vector-IsVector n topology i 0;
  prev = first_vector-IsVector n topology i 1;
  curr = first_vector-IsVector n topology i 2;
  next = first_vector-IsVector n topology i 3;
}

module _ {n : ℕ} {topology : List Distance} (mat : IsMatrix n topology) where
  take_in-IsTaken :
      (i : ℕ) (v w : DistanceVector) (changed : Bool)
      → i < n
      → IsGiven n topology v
      → IsVector n topology i w
      → IsTaken n topology i (take_in n topology i v (changed, w))
  unfolding take_in
  take_in-IsTaken i v w changed hi (hv, given) is =
      elim (Bool-cases (get_link_distance n topology i v.src == inf_distance)) [
        | inl e ↦ rw e refl
        | inr e ↦
            let (c, u, result, new, cells, quiet) =
              take_in-TookIn mat i v.src v w changed hi hv given is (ground arith) in
            rw result new
      ]

  kept :
      (i : ℕ) (Chosen : ℕ → ℕ → Type 0)
      → i < n
      → IsKept n topology i Chosen (IsGiven n topology) (HasVectors n topology i)
  unfolding on_send
  kept i Chosen hi = record {
    start = router-HasVectors n topology i;
    move = λ r x is. record {
      apart = is.apart;
      spare = is.spare;
      prev = is.prev;
      curr = is.curr;
      next = is.next;
    };
    get = λ r m is. record {
      apart = is.apart;
      spare = is.spare;
      prev = is.prev;
      curr = is.curr;
      next = is.next;
    };
    put = λ r k low chosen is. record {
      apart = is.apart;
      spare = is.spare;
      prev = is.prev;
      curr = is.curr;
      next = is.next;
    };
    read = λ r v given is.
        on_read-HasVectors r _
          (take_in-IsTaken i v (r.vectors r.next_state) r.changed hi given is.next) is;
    cycle = λ r over ch is. cycle_buffers-HasVectors r is;
  }

  -- On a matrix of distances up to inf_distance, in every state that a router i below n reaches in
  -- a run, whatever channel_select gives (status, index and message) and whatever the sends of its
  -- answers give, if each vector that it reads consists of lengths of walks from the node that it
  -- names, which is below n, that are at most that node's links, then its current vector consists
  -- of lengths of walks from i that are at most its links, and no entry is below what
  -- floyd_warshall finds.
  pub distances_bounded :
      (i : ℕ) (Chosen : ℕ → ℕ → Type 0) {r : Router}
      → RouterRun n topology i Chosen (IsGiven n topology) r
      → i < n
      → IsVector n topology i (r.vectors r.curr_state)
        × ((b : ℕ)
            → b < n
            → get_solution_distance n (floyd_warshall n topology) i b
              ≤ get_or (r.vectors r.curr_state).dist b 0)
  distances_bounded i Chosen {r = r} run hi =
      let is = RouterRun-Holds n topology i Chosen (IsGiven n topology) (kept i Chosen hi) run in
      (
        is.curr,
        λ b hb.
            let (walk, least) = floyd_warshall_shortest mat i b hi hb in
            least (get_or (r.vectors r.curr_state).dist b 0) (is.curr.walks b hb),
      )
