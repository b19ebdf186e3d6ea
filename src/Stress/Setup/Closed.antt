-- ===== src/Stress/Setup/Closed.antt =====
-- The clean-up takes down all channels and blocks.
use concurrencylab.Common.{
  update_same, update_other, ℕ_discrete, ℕ, suc, ◌+◌, ◌<◌, ◌≡◌, ◌≢◌, ◌∙◌, refl, sym, subst, arith,
  some, List, Bool, true, false, ltb, ◌==◌, if◌then◌else◌, update, for_from_keeps,
}
use concurrencylab.Channel.{Channel}
use concurrencylab.Channel.Life.{all_live, all_ended}
use concurrencylab.Channel.Life.Laws.{destroy_of_closed}
use concurrencylab.Channel.Alone.Send.{close_of_open}
use concurrencylab.Stress.Graph.{Distance}
use concurrencylab.Stress.Setup.{
  Stress, Attempt, fine, blocks_live, blocks_ended, destroy_channel, close_channel,
  destroy_channels, destroy_topology, free_rest, end_run, clean_up_stress,
}

-- All parts of channel `i` are taken down.
abbrev pub IsGone : Stress → ℕ → Type 0
IsGone s i = (ch : Channel) × (s.channels i ≡ some (ch, all_ended))

-- The clean-up gets to its end, behind which nothing is left.
abbrev pub IsEnded : ℕ → Attempt Stress → Type 0
IsEnded n attempt =
    (s : Stress) × (attempt ≡ fine s)
    × ((i : ℕ) → i < n + 2 → IsGone s i)
    × (s.blocks ≡ blocks_ended)

-- The state behind the join, with the channels as they are then.
abbrev pub joined : ℕ → List Distance → List Distance → (ℕ → Channel) → Stress
joined n topology solution later = record {
  num_channel = n;
  topology = topology;
  solution = solution;
  channels = λ i. some (later i, all_live);
  blocks = blocks_live;
}

-- Each channel is gone, or stands as it did at the join, with all its parts.
abbrev Halfway : (ℕ → Channel) → (ℕ → Bool) → Attempt Stress → Type 0
Halfway later gone attempt =
    (s : Stress) × (attempt ≡ fine s)
    × ((i : ℕ)
        → (gone i ≡ true → IsGone s i) × (gone i ≡ false → s.channels i ≡ some (later i, all_live)))
    × (s.blocks ≡ blocks_live)

destroy_channel-eq :
    (k : ℕ) (s : Stress) (ch : Channel)
    → s.channels k ≡ some (ch, all_live)
    → ch.closed ≢ 1
    → destroy_channel k (fine s)
      ≡ fine (record s { channels = update s.channels k (some (ch, all_ended)) })
unfolding destroy_channel
destroy_channel-eq k s ch here shut = rw (here, destroy_of_closed ch shut) refl

close_channel-eq :
    (k : ℕ) (s : Stress) (ch : Channel)
    → s.channels k ≡ some (ch, all_live)
    → ch.closed ≢ 0
    → close_channel k (fine s)
      ≡ fine
          (record s { channels = update s.channels k (some (record ch { closed = 0 }, all_live)) })
unfolding close_channel
close_channel-eq k s ch here opened = rw (here, close_of_open ch opened) refl

-- From one stage to the next: channel `k` goes.
module _ (later : ℕ → Channel) (k : ℕ) (gone gone' : ℕ → Bool) (before : gone k ≡ false)
    (now : gone' k ≡ true) (same : (i : ℕ) → k ≢ i → gone' i ≡ gone i) where
  goes :
      (attempt : Attempt Stress) (s s' : Stress)
      → attempt ≡ fine s'
      → ((i : ℕ)
          → (gone i ≡ true → IsGone s i)
            × (gone i ≡ false → s.channels i ≡ some (later i, all_live)))
      → s'.blocks ≡ blocks_live
      → IsGone s' k
      → ((i : ℕ) → k ≢ i → s'.channels i ≡ s.channels i)
      → Halfway later gone' attempt
  goes attempt s s' e stage live there others = (
    s',
    e,
    (λ i. elim (ℕ_discrete k i) [
      | yes here ↦ (
        (λ is. subst (IsGone s') here there),
        λ is. let contrary = subst (λ j. gone' j ≡ true) here now in absurd (cc),
      )
      | no other ↦
          let (is_gone, stands) = stage i in
          let as_before = others i other in
          (
            (λ is. rw as_before (is_gone (sym (same i other) ∙ is))),
            λ is. rw as_before (stands (sym (same i other) ∙ is)),
          )
    ]),
    live,
  )

  destroy_channel-Halfway :
      (attempt : Attempt Stress)
      → (later k).closed ≢ 1
      → Halfway later gone attempt
      → Halfway later gone' (destroy_channel k attempt)
  destroy_channel-Halfway attempt shut (s, e, stage, live) =
      let (is_gone, stands) = stage k in
      let here = stands before in
      rw e (
        goes _ s _ (destroy_channel-eq k s (later k) here shut) stage live
          (later k, update_same s.channels k (some (later k, all_ended)))
          (λ i other. update_other s.channels k (some (later k, all_ended)) i other))

  close_and_destroy-Halfway :
      (attempt : Attempt Stress)
      → (later k).closed ≢ 0
      → Halfway later gone attempt
      → Halfway later gone' (destroy_channel k (close_channel k attempt))
  close_and_destroy-Halfway attempt opened (s, e, stage, live) =
      let (is_gone, stands) = stage k in
      let here = stands before in
      let shut = record (later k) { closed = 0 } in
      let closing = update s.channels k (some (shut, all_live)) in
      rw (e, close_channel-eq k s (later k) here opened)
        (goes _ s _
          (destroy_channel-eq k (record s { channels = closing }) shut
            (update_same s.channels k (some (shut, all_live))) (omega arith))
          stage live (shut, update_same closing k (some (shut, all_ended)))
          (λ i other.
            update_other closing k (some (shut, all_ended)) i other
            ∙ update_other s.channels k (some (shut, all_live)) i other))

-- The channels that are gone, at the stages of the clean-up.
abbrev none_gone : ℕ → Bool
none_gone i = false

abbrev done_gone : ℕ → ℕ → Bool
done_gone n i = i == n

abbrev gone_up_to : ℕ → ℕ → ℕ → Bool
gone_up_to n k i = if ltb i k then true else if i == n then true else i == suc n

module _ (n : ℕ) (later : ℕ → Channel) (opened : (i : ℕ) → i < n → (later i).closed ≢ 0)
    (done : (later n).closed ≢ 1) (completed : (later (suc n)).closed ≢ 0) where
  destroy_channels-Halfway :
      (attempt : Attempt Stress)
      → Halfway later (gone_up_to n 0) attempt
      → Halfway later (gone_up_to n n) (destroy_channels n attempt)
  unfolding destroy_channels
  destroy_channels-Halfway attempt half =
      for_from_keeps (λ k attempt. Halfway later (gone_up_to n k) attempt) _ n
        (λ k attempt hk half.
          close_and_destroy-Halfway later k (gone_up_to n k) (gone_up_to n (suc k)) (ground arith)
            (ground arith) (λ i other. ground arith) attempt (opened k (omega arith)) half)
        n 0 attempt (omega arith) half

  end_run-ends :
      (attempt : Attempt Stress)
      → Halfway later (gone_up_to n n) attempt
      → IsEnded n (end_run attempt)
  unfolding free_rest destroy_topology
  end_run-ends attempt (last, e, stage, live) = (
    record last { blocks = blocks_ended },
    rw (e, live) refl,
    (λ i hi. let (is_gone, stands) = stage i in is_gone (ground arith)),
    refl,
  )

  pub clean_up_stress-ends :
      (topology solution : List Distance)
      → IsEnded n (clean_up_stress (joined n topology solution later))
  unfolding clean_up_stress
  clean_up_stress-ends topology solution =
      let s = joined n topology solution later in
      let first =
        destroy_channel-Halfway later n none_gone (done_gone n) refl (ground arith)
          (λ i other. ground arith) (fine s) done
          (s, refl, (λ i. ((λ is. absurd (cc)), λ is. refl)), refl) in
      let second =
        close_and_destroy-Halfway later (suc n) (done_gone n) (gone_up_to n 0) (ground arith)
          (ground arith) (λ i other. ground arith) _ completed first in
      end_run-ends _ (destroy_channels-Halfway _ second)
