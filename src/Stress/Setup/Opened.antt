-- ===== src/Stress/Setup/Opened.antt =====
-- The set-up gives open channels with empty buffers.
use concurrencylab.Common.{
  update_same, update_other, ℕ_discrete, ℕ, suc, ◌+◌, ◌*◌, ◌%◌, ◌≤◌, ◌<◌, ◌≡◌, refl, subst, arith,
  Option, some, List, length, leb, ltb, true, ◌&&◌, if◌then◌else◌, update, for_from_keeps, size_mod,
  Pointer,
}
use concurrencylab.Buffer.{Malloc, pointer_bytes}
use concurrencylab.Buffer.Invariant.{IsValid, Allocates, max_capacity}
use concurrencylab.Channel.{Channel}
use concurrencylab.Channel.Life.{Parts, all_live}
use concurrencylab.Channel.Life.Laws.{create_parts}
use concurrencylab.Stress.Graph.{Distance}
use concurrencylab.Stress.Topology.{MallocDistances, created, create_topology}
use concurrencylab.Stress.Setup.{
  Channels, Attempt, fine, BlockMalloc, blocks_live, no_channels, create_channel, create_channels,
  set_up_stress,
}

-- An open channel with an empty buffer of the size, and all its parts.
abbrev pub IsFresh : ℕ → Option (Channel × Parts) → Type 0
IsFresh size o =
    (ch : Channel) × (o ≡ some (ch, all_live))
    × IsValid ch.buffer
    × (ch.buffer.size ≡ 0)
    × (ch.buffer.capacity ≡ size)
    × (ch.closed ≡ 1)

-- The channels below a bound have been created, with a size each.
abbrev Opened : (ℕ → ℕ) → ℕ → Attempt Channels → Type 0
Opened size k attempt =
    (c : Channels) × (attempt ≡ fine c) × ((i : ℕ) → i < k → IsFresh (size i) (c i))

create_channel-Opened :
    (malloc : Malloc) (size : ℕ → ℕ) (k : ℕ) (attempt : Attempt Channels)
    → Allocates malloc
    → size k < max_capacity
    → Opened size k attempt
    → Opened size (suc k) (create_channel malloc (size k) k attempt)
create_channel-Opened malloc size k attempt allocates small (c, e, below) =
    let (ch, made, valid, empty, capacity, opened) = create_parts malloc (size k) allocates small in
    (
      update c k (some (ch, all_live)),
      rw (e, made) refl,
      λ i hi. elim (ℕ_discrete k i) [
        | yes same ↦
            subst (λ j. IsFresh (size j) (update c k (some (ch, all_live)) j)) same
              (rw (update_same c k (some (ch, all_live)))
                (ch, refl, valid, empty, capacity, opened))
        | no other ↦ rw (update_other c k (some (ch, all_live)) i other) (below i (omega arith))
      ],
    )

-- the size of each channel
abbrev pub size_of : ℕ → ℕ → ℕ → ℕ → ℕ
size_of n main_size secondary_size i = if ltb i n then main_size else secondary_size

module _ (malloc : ℕ → Malloc) (n main_size secondary_size : ℕ)
    (allocates : (i : ℕ) → Allocates (malloc i)) (main_small : main_size ≤ 1)
    (secondary_small : secondary_size ≤ 1) where
  next-Opened :
      (size k : ℕ) (attempt : Attempt Channels)
      → size ≡ size_of n main_size secondary_size k
      → size ≤ 1
      → Opened (size_of n main_size secondary_size) k attempt
      → Opened
          (size_of n main_size secondary_size)
          (suc k)
          (create_channel (malloc k) size k attempt)
  next-Opened size k attempt e small opened = rw e (
      create_channel-Opened (malloc k) (size_of n main_size secondary_size) k attempt (allocates k)
        (omega arith) opened)

  create_channels-Opened :
      (cells : ℕ)
      → n ≤ cells
      → Opened
          (size_of n main_size secondary_size)
          n
          (create_channels malloc n main_size cells (fine no_channels))
  unfolding create_channels
  create_channels-Opened cells enough =
      for_from_keeps (λ k attempt. Opened (size_of n main_size secondary_size) k attempt) _ n
        (λ k attempt hk opened.
          let inside : ltb k cells ≡ true = ground arith in
          rw inside (next-Opened main_size k attempt (ground arith) main_small opened))
        n 0 (fine no_channels) (omega arith) (no_channels, refl, λ i hi. absurd (omega arith))

  pub set_up_stress-Opened :
      (topology_malloc : MallocDistances) (channels_malloc pid_malloc : BlockMalloc)
      (file : Option (List ℕ)) {topology solution : List Distance}
      {channel_cells pid_cells : List Pointer}
      → create_topology topology_malloc file ≡ created n topology solution
      → channels_malloc (pointer_bytes * n % size_mod) ≡ some channel_cells
      → n ≤ length channel_cells
      → pid_malloc (pointer_bytes * n % size_mod) ≡ some pid_cells
      → (c : Channels) × (set_up_stress malloc topology_malloc channels_malloc pid_malloc main_size
            secondary_size file
          ≡ fine (record {
            num_channel = n;
            topology = topology;
            solution = solution;
            channels = c;
            blocks = blocks_live;
          }))
        × ((i : ℕ) → i < n + 2 → IsFresh (size_of n main_size secondary_size i) (c i))
  unfolding set_up_stress
  set_up_stress-Opened topology_malloc channels_malloc pid_malloc file {channel_cells = cells} read
        got_channels enough got_pid =
      let done =
        next-Opened secondary_size n _ (ground arith) secondary_small
          (create_channels-Opened (length cells) enough) in
      let (c, e, fresh) =
        next-Opened secondary_size (suc n) _ (ground arith) secondary_small done in
      let allowed : (leb main_size 1 && leb secondary_size 1) ≡ true = ground arith in
      (c, rw (allowed, read, got_channels, got_pid, e) refl, λ i hi. fresh i (omega arith))
