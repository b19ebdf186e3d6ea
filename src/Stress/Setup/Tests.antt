-- ===== src/Stress/Setup/Tests.antt =====
-- A set-up and a clean-up by evaluation, and the concrete use of the theorem about them.
use concurrencylab.Common.{
  ℕ, zero, suc, ◌/◌, ◌≡◌, refl, none, some, Option, List, [], ◌∷◌, replicate,
}
use concurrencylab.Buffer.Samples.{generous}
use concurrencylab.Channel.{Channel}
use concurrencylab.Stress.Topology.{MallocDistances, create_topology}
use concurrencylab.Stress.Setup.{Stress, failed, BlockMalloc, set_up_stress}

-- Channel 2, which is `done_channel`, has been closed.
abbrev after_run : ℕ → Channel
after_run (suc (suc zero)) = record {
  buffer = record { size = 0; next = 0; capacity = 1; slots = [] };
  closed = 0;
}
after_run _ = record {
  buffer = record { size = 0; next = 0; capacity = 1; slots = [] };
  closed = 1;
}

abbrev distances : MallocDistances
distances k bytes = some (replicate (bytes / 4) 99)

abbrev pointers : BlockMalloc
pointers bytes = some (replicate (bytes / 8) 0)

-- Two nodes with a link of length 5.
abbrev file : Option (List ℕ)
file = some (2 ∷ 0 ∷ 5 ∷ 5 ∷ 0 ∷ [])

abbrev two : List ℕ
two = 0 ∷ 5 ∷ 5 ∷ 0 ∷ []

-- Without a file the first assertion fails.
no_file_test : set_up_stress (λ i. generous) distances pointers pointers 1 1 none ≡ failed
unfolding set_up_stress create_topology
no_file_test = refl
