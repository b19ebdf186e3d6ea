-- ===== src/Stress/Node/Lists.antt =====
-- The list of operations of a router in its runs.
use concurrencylab.Common.{ℕ, ◌≤◌, some, List}
use concurrencylab.Stress.Graph.{Distance}
use concurrencylab.Stress.Node.{address, Router}
use concurrencylab.Stress.Node.Listed.{IsListed}

record IsSending (n : ℕ) (topology : List Distance) (i : ℕ) (r : Router) : Type 0 where
  listed : IsListed n topology i (some (address i r.curr_state)) r.select_list r.total_select_count
  some_left : 2 ≤ r.select_count
  no_more : r.select_count ≤ r.total_select_count
