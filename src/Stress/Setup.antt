-- ===== src/Stress/Setup.antt =====
-- The set-up and the clean-up of concurrencylab-edit/stress.c: what `run_stress` does before the
-- threads and behind the join. No thread is then in a channel, so the calls on it are those of a
-- thread that nobody disturbs. `channels[i]` has number `i`, `done_channel` number `num_channel` and
-- `completed_channel` number `num_channel + 1`. The calls of `malloc` are parameters.
pub mod Opened
pub mod Closed
pub mod Laws
mod Tests
use concurrencylab.Common.{
  ℕ, suc, ◌*◌, ◌%◌, Option, none, some, List, length, Bool, true, false, leb, ltb, ◌&&◌,
  if◌then◌else◌, update, for_from, size_mod, Pointer,
}
use concurrencylab.Buffer.{Malloc, pointer_bytes}
use concurrencylab.Channel.{Channel, ChannelStatus, success, entry, close}
use concurrencylab.Channel.Life.{
  Life, unset, live, ended, Parts, free_life, channel_create_parts, channel_destroy,
}
use concurrencylab.Channel.Alone.{Outcome, returns, alone}
use concurrencylab.Stress.Graph.{Distance}
use concurrencylab.Stress.Topology.{
  MallocDistances, Creation, no_file, failed_assertion, created, create_topology,
}

-- The four blocks of the program.
pub record Blocks : Type 0 where
  pub topology_memory : Life
  pub solution_memory : Life
  pub channels_memory : Life
  pub pid_memory : Life

abbrev pub blocks_live : Blocks
blocks_live = record {
  topology_memory = live;
  solution_memory = live;
  channels_memory = live;
  pid_memory = live;
}

abbrev pub blocks_ended : Blocks
blocks_ended = record {
  topology_memory = ended;
  solution_memory = ended;
  channels_memory = ended;
  pid_memory = ended;
}

-- The channels by number, each with what exists of it; `none` is one not yet created.
abbrev pub Channels : Type 0
Channels = ℕ → Option (Channel × Parts)

-- The global variables.
pub record Stress : Type 0 where
  pub num_channel : ℕ
  pub topology : List Distance
  pub solution : List Distance
  pub channels : Channels
  pub blocks : Blocks

-- The end of some statements: a failed assertion; undefined behaviour; or a state.
pub data Attempt (A : Type 0) : Type 0 where
  failed undefined : Attempt A
  fine : A → Attempt A

-- What `channel_create` gives is stored; it does not return NULL.
abbrev pub store_channel : ℕ → Channels → Option (Channel × Parts) → Attempt Channels
store_channel i channels none = undefined
store_channel i channels (some made) = fine (update channels i (some made))

abbrev pub create_channel : Malloc → ℕ → ℕ → Attempt Channels → Attempt Channels
create_channel malloc size i failed = failed
create_channel malloc size i undefined = undefined
create_channel malloc size i (fine channels) =
    store_channel i channels (channel_create_parts malloc size)

-- A write to `channels[i]` is inside the block.
abbrev pub if_inside : Bool → Attempt Channels → Attempt Channels
if_inside true attempt = attempt
if_inside false attempt = undefined

-- The loop over the channels, whose block has `cells` cells.
unfoldable pub create_channels : (ℕ → Malloc) → ℕ → ℕ → ℕ → Attempt Channels → Attempt Channels
create_channels malloc num_channel size cells =
    for_from num_channel 0
      (λ i attempt. if_inside (ltb i cells) (create_channel (malloc i) size i attempt))

-- The assertion on `pid`, and the state that the threads begin with.
abbrev pub add_pid :
    ℕ → List Distance → List Distance → Option (List Pointer) → Attempt Channels → Attempt Stress
add_pid n topology solution pid failed = failed
add_pid n topology solution pid undefined = undefined
add_pid n topology solution none (fine channels) = failed
add_pid n topology solution (some _) (fine channels) = fine (record {
  num_channel = n;
  topology = topology;
  solution = solution;
  channels = channels;
  blocks = blocks_live;
})

abbrev pub no_channels : Channels
no_channels i = none

-- From the assertion on `channels` on. `malloc i` serves channel `i`.
abbrev pub from_channels :
    (ℕ → Malloc)
    → ℕ
    → ℕ
    → ℕ
    → List Distance
    → List Distance
    → Option (List Pointer)
    → Option (List Pointer)
    → Attempt Stress
from_channels malloc main_size secondary_size n topology solution pid none = failed
from_channels malloc main_size secondary_size n topology solution pid (some cells) =
    add_pid n topology solution pid (
      create_channel (malloc (suc n)) secondary_size (suc n) (
        create_channel (malloc n) secondary_size n
          (create_channels malloc n main_size (length cells) (fine no_channels))))

-- `malloc` for the two blocks of the program that hold pointers: the channels and the threads.
abbrev pub BlockMalloc : Type 0
BlockMalloc = ℕ → Option (List Pointer)

-- From `assert(initialized)` on.
abbrev pub from_topology :
    (ℕ → Malloc) → BlockMalloc → BlockMalloc → ℕ → ℕ → Creation → Attempt Stress
from_topology malloc channels_malloc pid_malloc main_size secondary_size no_file = failed
from_topology malloc channels_malloc pid_malloc main_size secondary_size failed_assertion = failed
from_topology malloc channels_malloc pid_malloc main_size secondary_size
      concurrencylab.Stress.Topology.undefined =
    undefined
from_topology malloc channels_malloc pid_malloc main_size secondary_size
      (created n topology solution) =
    from_channels malloc main_size secondary_size n topology solution
      (pid_malloc (pointer_bytes * n % size_mod)) (channels_malloc (pointer_bytes * n % size_mod))

-- `run_stress` up to the creation of the threads.
unfoldable pub set_up_stress :
    (ℕ → Malloc)
    → MallocDistances
    → BlockMalloc
    → BlockMalloc
    → ℕ
    → ℕ
    → Option (List ℕ)
    → Attempt Stress
set_up_stress malloc topology_malloc channels_malloc pid_malloc main_size secondary_size file =
    if leb main_size 1 && leb secondary_size 1
    then from_topology malloc channels_malloc pid_malloc main_size secondary_size
        (create_topology topology_malloc file)
    else failed

-- Behind `channel_destroy`: the assertion on the status.
abbrev pub after_destroy : ℕ → Stress → Channel → Option (ChannelStatus × Parts) → Attempt Stress
after_destroy i s ch none = undefined
after_destroy i s ch (some (success, p)) =
    fine (record s { channels = update s.channels i (some (ch, p)) })
after_destroy i s ch (some (_, p)) = failed

abbrev pub destroy_existing : ℕ → Stress → Option (Channel × Parts) → Attempt Stress
destroy_existing i s none = undefined
destroy_existing i s (some (ch, p)) = after_destroy i s ch (channel_destroy ch p)

unfoldable pub destroy_channel : ℕ → Attempt Stress → Attempt Stress
destroy_channel i failed = failed
destroy_channel i undefined = undefined
destroy_channel i (fine s) = destroy_existing i s (s.channels i)

-- Behind `channel_close`: the assertion on the status.
abbrev pub after_close : ℕ → Stress → Parts → Outcome → Attempt Stress
after_close i s p (returns success out ch) =
    fine (record s { channels = update s.channels i (some (ch, p)) })
after_close i s p (returns _ out ch) = failed
after_close i s p _ = undefined

-- `channel_close` uses `*channel`.
abbrev pub close_existing : ℕ → Stress → Option (Channel × Parts) → Attempt Stress
close_existing i s none = undefined
close_existing i s (some (ch, p)) = elim p.channel_memory [
  | unset ↦ undefined
  | live ↦ after_close i s p (alone 8 close entry ch)
  | ended ↦ undefined
]

unfoldable pub close_channel : ℕ → Attempt Stress → Attempt Stress
close_channel i failed = failed
close_channel i undefined = undefined
close_channel i (fine s) = close_existing i s (s.channels i)

-- The loop over the channels.
unfoldable pub destroy_channels : ℕ → Attempt Stress → Attempt Stress
destroy_channels num_channel =
    for_from num_channel 0 (λ i attempt. destroy_channel i (close_channel i attempt))

-- `free` of one block of the program, as the change of its field; `none` is a block freed before.
abbrev pub free_field : (Blocks → Life) → (Life → Blocks → Blocks) → Option Blocks → Option Blocks
free_field field change none = none
free_field field change (some b) = change_to (free_life (field b))
  where
    change_to : Option Life → Option Blocks
    change_to none = none
    change_to (some x) = some (change x b)

unfoldable pub destroy_topology : Option Blocks → Option Blocks
destroy_topology b =
    free_field (λ b. b.solution_memory) (λ x b. record b { solution_memory = x })
      (free_field (λ b. b.topology_memory) (λ x b. record b { topology_memory = x }) b)

-- The last three calls of `run_stress`.
unfoldable pub free_rest : Option Blocks → Option Blocks
free_rest b = destroy_topology (
    free_field (λ b. b.channels_memory) (λ x b. record b { channels_memory = x })
      (free_field (λ b. b.pid_memory) (λ x b. record b { pid_memory = x }) b))

abbrev pub with_blocks : Stress → Option Blocks → Attempt Stress
with_blocks s none = undefined
with_blocks s (some b) = fine (record s { blocks = b })

abbrev pub end_run : Attempt Stress → Attempt Stress
end_run failed = failed
end_run undefined = undefined
end_run (fine s) = with_blocks s (free_rest (some s.blocks))

-- `run_stress` behind the join.
unfoldable pub clean_up_stress : Stress → Attempt Stress
clean_up_stress s =
    let n = s.num_channel in
    let done = destroy_channel n (fine s) in
    let completed = destroy_channel (suc n) (close_channel (suc n) done) in
    end_run (destroy_channels n completed)
