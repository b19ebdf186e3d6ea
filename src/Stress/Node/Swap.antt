-- ===== src/Stress/Node/Swap.antt =====
-- The swap of two entries behind a send: it only changes the order of the channels.
use concurrencylab.Common.{
  ℕ, ◌≤◌, ◌<◌, ◌≡◌, ◌∙◌, inl, inr, refl, sym, ap, arith, List, length, length-set, ◌==◌,
  if◌then◌else◌, Bool-cases,
}
use concurrencylab.Stress.Graph.{Distance}
use concurrencylab.Stress.Node.{
  Message, Selection, selection, channel_at, set_channel, swap_channels,
}
use concurrencylab.Stress.Node.Selections.{channel_at-set_channel, message-set_channel}
use concurrencylab.Stress.Node.Listed.{IsListed}

module _ (list : List Selection) (last selected : ℕ) (hl : last < length list)
    (hs : selected < length list) where
  inner : length (set_channel list last (channel_at list selected)) ≡ length list
  inner = length-set list last (record (selection list last) { channel = channel_at list selected })

  pub length-swap_channels : length (swap_channels list last selected) ≡ length list
  length-swap_channels =
      let mid = set_channel list last (channel_at list selected) in
      length-set mid selected (record (selection mid selected) { channel = channel_at list last })
      ∙ inner

  pub channel_at-swap_channels :
      (j : ℕ)
      → channel_at (swap_channels list last selected) j ≡ (
          if selected == j
          then channel_at list last
          else if last == j
          then channel_at list selected
          else channel_at list j)
  channel_at-swap_channels j =
      let mid = set_channel list last (channel_at list selected) in
      let first = channel_at-set_channel list last (channel_at list selected) j hl in
      channel_at-set_channel mid selected (channel_at list last) j (omega (arith, inner))
      ∙ ap (λ x. if selected == j then channel_at list last else x) first

  pub message-swap_channels :
      (j : ℕ)
      → (selection (swap_channels list last selected) j).message ≡ (selection list j).message
  message-swap_channels j =
      let mid = set_channel list last (channel_at list selected) in
      message-set_channel mid selected (channel_at list last) j (omega (arith, inner))
      ∙ message-set_channel list last (channel_at list selected) j hl

-- The position of what the swap puts at `j`.
abbrev pub swapped : ℕ → ℕ → ℕ → ℕ
swapped last selected j = if selected == j then last else if last == j then selected else j

module _ {n : ℕ} {topology : List Distance} {i : ℕ} {m : Message} {list : List Selection}
    {total : ℕ} (is : IsListed n topology i m list total) {last selected : ℕ} (low : 2 ≤ selected)
    (le : selected ≤ last) (lt : last < total) where
  at_swapped :
      (j : ℕ)
      → channel_at (swap_channels list last selected) j ≡ channel_at list (swapped last selected j)
  at_swapped j =
      channel_at-swap_channels list last selected (omega (arith, is.size)) (omega (arith, is.size))
        j
      ∙ split
    where
      split :
          (if selected == j
            then channel_at list last
            else if last == j
            then channel_at list selected
            else channel_at list j)
          ≡ channel_at list (swapped last selected j)
      split = elim (Bool-cases (selected == j)) [
        | inl e ↦ rw e refl
        | inr e ↦ elim (Bool-cases (last == j)) [
          | inl e' ↦ rw (e, e') refl
          | inr e' ↦ rw (e, e') refl
        ]
      ]

  swapped_bounds :
      (j : ℕ)
      → 2 ≤ j
      → j < total
      → (2 ≤ swapped last selected j)
        × (swapped last selected j < total)
        × (swapped last selected (swapped last selected j) ≡ j)
  swapped_bounds j lj hj = ground arith

  pub swap_channels-IsListed : IsListed n topology i m (swap_channels list last selected) total
  swap_channels-IsListed = record {
    size =
        length-swap_channels list last selected (omega (arith, is.size)) (omega (arith, is.size))
        ∙ is.size;
    at_least = is.at_least;
    distinct = λ j k lj hj lk hk e.
        let (low_j, lt_j, back_j) = swapped_bounds j lj hj in
        let (low_k, lt_k, back_k) = swapped_bounds k lk hk in
        let same =
          is.distinct (swapped last selected j) (swapped last selected k) low_j lt_j low_k lt_k
            (sym (at_swapped j) ∙ e ∙ at_swapped k) in
        sym back_j ∙ ap (swapped last selected) same ∙ back_k;
    neighbors = λ j lj hj.
        let (low_j, lt_j, back_j) = swapped_bounds j lj hj in
        rw (at_swapped j) (is.neighbors (swapped last selected j) low_j lt_j);
    complete = λ c hc e.
        let (j, lj, hj, here) = is.complete c hc e in
        let (low_j, lt_j, back_j) = swapped_bounds j lj hj in
        (
          swapped last selected j,
          low_j,
          lt_j,
          at_swapped (swapped last selected j) ∙ ap (channel_at list) back_j ∙ here,
        );
    messages = λ j lj hj.
        message-swap_channels list last selected (omega (arith, is.size)) (omega (arith, is.size)) j
        ∙ is.messages j lj hj;
  }
