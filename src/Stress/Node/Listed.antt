-- ===== src/Stress/Node/Listed.antt =====
-- The sends of a router's list go to its neighbours, each once, and carry one vector.
use concurrencylab.Common.{
  ℕ, ◌-◌, ◌≤◌, ◌<◌, ◌≡◌, ◌∙◌, inl, inr, refl, sym, arith, List, length, length-set, true, false,
  ◌==◌, Bool-cases, for_from_keeps,
}
use concurrencylab.Stress.Graph.{Distance}
use concurrencylab.Stress.Node.{
  Message, Selection, is_neighbor, selection, channel_at, set_message, reset_messages,
}
use concurrencylab.Stress.Node.Selections.{channel_at-set_message, message-set_message}

-- A list of `total` entries of router `i`, whose sends carry `m`.
pub record IsListed (n : ℕ) (topology : List Distance) (i : ℕ) (m : Message) (list : List Selection)
    (total : ℕ) : Type 0 where
  pub size : length list ≡ total
  pub at_least : 2 ≤ total
  pub distinct :
      (j k : ℕ)
      → 2 ≤ j
      → j < total
      → 2 ≤ k
      → k < total
      → channel_at list j ≡ channel_at list k
      → j ≡ k
  pub neighbors :
      (j : ℕ)
      → 2 ≤ j
      → j < total
      → (is_neighbor n topology i (channel_at list j) ≡ true) × (channel_at list j < n)
  pub complete :
      (c : ℕ)
      → c < n
      → is_neighbor n topology i c ≡ true
      → (j : ℕ) × (2 ≤ j) × (j < total) × (channel_at list j ≡ c)
  pub messages : (j : ℕ) → 2 ≤ j → j < total → (selection list j).message ≡ m

-- What the loop over the messages does.
reset_messages_lem :
    (x : Message) (total : ℕ) (list : List Selection)
    → 2 ≤ total
    → length list ≡ total
    → (length (reset_messages total x list) ≡ total)
      × ((j : ℕ) → channel_at (reset_messages total x list) j ≡ channel_at list j)
      × ((j : ℕ) → 2 ≤ j → j < total → (selection (reset_messages total x list) j).message ≡ x)
unfolding reset_messages
reset_messages_lem x total list low size =
    for_from_keeps
      (λ k l.
        (length l ≡ total)
        × ((j : ℕ) → channel_at l j ≡ channel_at list j)
        × ((j : ℕ) → 2 ≤ j → j < k → (selection l j).message ≡ x))
      (λ k l. set_message l k x) total
      (λ k l hk (size, channels, stored).
        let inside : k < length l = omega arith in
        (
          omega (arith, length-set l k (record (selection l k) { message = x })),
          (λ j. channel_at-set_message l k x j inside ∙ channels j),
          λ j low lt.
              let now = message-set_message l k x j inside in
              elim (Bool-cases (k == j)) [
                | inl here ↦ now ∙ rw here refl
                | inr there ↦ now ∙ rw there (stored j low (ground arith))
              ],
        ))
      (total - 2) 2 list (omega arith) (size, (λ j. refl), λ j low lt. absurd (omega arith))

module _ {n : ℕ} {topology : List Distance} {i : ℕ} {m : Message} {list : List Selection}
    {total : ℕ} (is : IsListed n topology i m list total) where
  -- A receive stores its message outside of the sends.
  pub set_message-IsListed : (x : Message) → IsListed n topology i m (set_message list 1 x) total
  set_message-IsListed x =
      let inside : 1 < length list = omega (arith, is.size, is.at_least) in
      let channels : (j : ℕ) → channel_at (set_message list 1 x) j ≡ channel_at list j =
        λ j. channel_at-set_message list 1 x j inside in
      record {
        size =
            omega (arith, is.size, length-set list 1 (record (selection list 1) { message = x }));
        at_least = is.at_least;
        distinct =
            λ j k lj hj lk hk e. is.distinct j k lj hj lk hk (sym (channels j) ∙ e ∙ channels k);
        neighbors = λ j low hj. rw (channels j) (is.neighbors j low hj);
        complete = λ c hc e.
            let (j, low, lt, here) = is.complete c hc e in (j, low, lt, channels j ∙ here);
        messages = λ j low hj.
            let stored = message-set_message list 1 x j inside in
            let other : (1 == j) ≡ false = ground arith in stored ∙ rw other (is.messages j low hj);
      }

  -- The sends with another vector.
  pub reset_messages-IsListed :
      (x : Message) → IsListed n topology i x (reset_messages total x list) total
  reset_messages-IsListed x =
      let (size, channels, stored) = reset_messages_lem x total list is.at_least is.size in
      record {
        size = size;
        at_least = is.at_least;
        distinct =
            λ j k lj hj lk hk e. is.distinct j k lj hj lk hk (sym (channels j) ∙ e ∙ channels k);
        neighbors = λ j low hj. rw (channels j) (is.neighbors j low hj);
        complete = λ c hc e.
            let (j, low, lt, here) = is.complete c hc e in (j, low, lt, channels j ∙ here);
        messages = stored;
      }
