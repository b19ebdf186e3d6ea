-- ===== src/Stress/Node/FirstList.antt =====
-- The selection list of a router before its loop.
use concurrencylab.Common.{
  ℕ, suc, ◌-◌, ◌+◌, ◌*◌, ◌≤◌, ◌<◌, ◌≡◌, ◌≢◌, ◌⊎◌, ◌∙◌, inl, inr, refl, sym, ap, subst, arith,
  Option, none, some, List, [], ◌∷◌, ◌++◌, length, length-append, length-set, length-replicate,
  replicate, set, get_or, get_or-set, get_or-append_lt, get_or-append_length, Bool, true, false,
  ltb, ◌==◌, ◌&&◌, not, if◌then◌else◌, Bool-cases, ℕ_discrete, dec_lt, for_from, for_from_keeps,
}
use concurrencylab.Stress.Graph.{Distance}
use concurrencylab.Channel.Select.{send}
use concurrencylab.Stress.Node.{
  Message, Selection, is_neighbor, add_send, first_list, count_selects, no_selection, selection,
  channel_at,
}
use concurrencylab.Stress.Node.Listed.{IsListed}

module _ (n : ℕ) (topology : List Distance) (i : ℕ) where
  first_list-count :
      (m : Message) (rounds first : ℕ) (list : List Selection) (total : ℕ)
      → length list ≡ total
      → length (for_from rounds first (λ i'. add_send n topology i m i') list)
        ≡ for_from rounds first
            (λ i' total. if is_neighbor n topology i i' then suc total else total)
            total
  unfolding concurrencylab.Common.for_from
  first_list-count m ℕ.zero first list total e = e
  first_list-count m (suc rounds) first list total e =
      first_list-count m rounds (suc first) (add_send n topology i m first list)
        (if is_neighbor n topology i first then suc total else total)
        (elim (Bool-cases (is_neighbor n topology i first)) [
          | inl is ↦ rw is (
              length-append list (record { channel = first; dir = send; message = m } ∷ [])
              ∙ omega arith)
          | inr is ↦ rw is e
        ])

-- The sends to the neighbours below `k` are there.
pub record Filled (n : ℕ) (topology : List Distance) (i : ℕ) (m : Message) (k : ℕ)
    (list : List Selection) : Type 0 where
  pub at_least : 2 ≤ length list
  pub distinct :
      (a b : ℕ)
      → 2 ≤ a
      → a < length list
      → 2 ≤ b
      → b < length list
      → channel_at list a ≡ channel_at list b
      → a ≡ b
  pub neighbors :
      (a : ℕ)
      → 2 ≤ a
      → a < length list
      → (is_neighbor n topology i (channel_at list a) ≡ true) × (channel_at list a < k)
  pub complete :
      (c : ℕ)
      → c < k
      → is_neighbor n topology i c ≡ true
      → (a : ℕ) × (2 ≤ a) × (a < length list) × (channel_at list a ≡ c)
  pub messages : (a : ℕ) → 2 ≤ a → a < length list → (selection list a).message ≡ m

module _ {n : ℕ} {topology : List Distance} {i : ℕ} {m : Message} {k : ℕ} (list : List Selection)
    (filled : Filled n topology i m k list) where
  abbrev more : List Selection
  more = list ++ record { channel = k; dir = send; message = m } ∷ []

  length-more : length more ≡ suc (length list)
  length-more =
      length-append list (record { channel = k; dir = send; message = m } ∷ []) ∙ omega arith

  old_entry : (a : ℕ) → a < length list → selection more a ≡ selection list a
  old_entry a h =
      get_or-append_lt list (record { channel = k; dir = send; message = m } ∷ []) no_selection a h

  new_entry :
      (a : ℕ) → a ≡ length list → selection more a ≡ record { channel = k; dir = send; message = m }
  new_entry a e =
      rw e (
        get_or-append_length list (record { channel = k; dir = send; message = m }) [] no_selection)

  old_channel : (a : ℕ) → a < length list → channel_at more a ≡ channel_at list a
  old_channel a h = ap (λ (x : Selection). x.channel) (old_entry a h)

  new_channel : (a : ℕ) → a ≡ length list → channel_at more a ≡ k
  new_channel a e = ap (λ (x : Selection). x.channel) (new_entry a e)

  more-Filled : is_neighbor n topology i k ≡ true → Filled n topology i m (suc k) more
  more-Filled is = record {
    at_least = omega (arith, length-more, filled.at_least);
    distinct = λ a b la ha lb hb e. elim (dec_lt a (length list)) [
      | yes old_a ↦ elim (dec_lt b (length list)) [
        | yes old_b ↦
            filled.distinct a b la old_a lb old_b
              (sym (old_channel a old_a) ∙ e ∙ old_channel b old_b)
        | no new_b ↦
            let (neighbor, lt) = filled.neighbors a la old_a in
            let at_b = new_channel b (omega (arith, length-more)) in
            absurd (omega (arith, old_channel a old_a))
      ]
      | no new_a ↦ elim (dec_lt b (length list)) [
        | yes old_b ↦
            let (neighbor, lt) = filled.neighbors b lb old_b in
            let at_a = new_channel a (omega (arith, length-more)) in
            absurd (omega (arith, old_channel b old_b))
        | no new_b ↦ omega (arith, length-more)
      ]
    ];
    neighbors = λ a la ha. elim (dec_lt a (length list)) [
      | yes old_a ↦
          let (neighbor, lt) = filled.neighbors a la old_a in
          rw (old_channel a old_a) (neighbor, omega arith)
      | no new_a ↦ rw (new_channel a (omega (arith, length-more))) (is, omega arith)
    ];
    complete = λ c hc e. elim (ℕ_discrete c k) [
      | yes same ↦ (
        length list,
        filled.at_least,
        omega (arith, length-more),
        new_channel (length list) refl ∙ sym same,
      )
      | no other ↦
          let (a, la, ha, at) = filled.complete c (omega arith) e in
          (a, la, omega (arith, length-more), old_channel a ha ∙ at)
    ];
    messages = λ a la ha. elim (dec_lt a (length list)) [
      | yes old_a ↦
          ap (λ (x : Selection). x.message) (old_entry a old_a) ∙ filled.messages a la old_a
      | no new_a ↦ ap (λ (x : Selection). x.message) (new_entry a (omega (arith, length-more)))
    ];
  }

  same-Filled : is_neighbor n topology i k ≡ false → Filled n topology i m (suc k) list
  same-Filled is = record {
    at_least = filled.at_least;
    distinct = filled.distinct;
    neighbors = λ a la ha. let (neighbor, lt) = filled.neighbors a la ha in (neighbor, omega arith);
    complete = λ c hc e. elim (ℕ_discrete c k) [
      | yes same ↦ absurd (cc (subst (λ x. is_neighbor n topology i x ≡ true) same e))
      | no other ↦ filled.complete c (omega arith) e
    ];
    messages = filled.messages;
  }

pub first_list-Filled :
    (n : ℕ) (topology : List Distance) (i : ℕ) (m : Message)
    → Filled n topology i m n (first_list n topology i m)
unfolding first_list
first_list-Filled n topology i m =
    for_from_keeps (Filled n topology i m) (λ k. add_send n topology i m k) n
      (λ k l hk filled. elim (Bool-cases (is_neighbor n topology i k)) [
        | inl is ↦ rw is (more-Filled l filled is)
        | inr is ↦ rw is (same-Filled l filled is)
      ])
      n 0 _ (omega arith)
      (record {
        at_least = omega arith;
        distinct = λ a b la ha lb hb e. absurd (omega arith);
        neighbors = λ a la ha. absurd (omega arith);
        complete = λ c hc e. absurd (omega arith);
        messages = λ a la ha. absurd (omega arith);
      })

pub count_selects-length :
    (n : ℕ) (topology : List Distance) (i : ℕ) (m : Message)
    → length (first_list n topology i m) ≡ count_selects n topology i
unfolding first_list count_selects
count_selects-length n topology i m = first_list-count n topology i m n 0 _ 2 refl

pub first_list-IsListed :
    (n : ℕ) (topology : List Distance) (i : ℕ) (m : Message)
    → IsListed n topology i m (first_list n topology i m) (count_selects n topology i)
first_list-IsListed n topology i m =
    let filled = first_list-Filled n topology i m in
    let size = count_selects-length n topology i m in
    record {
      size = size;
      at_least = omega (arith, filled.at_least);
      distinct = λ a b la ha lb hb e. filled.distinct a b la (omega arith) lb (omega arith) e;
      neighbors = λ a la ha. filled.neighbors a la (omega arith);
      complete = λ c hc e. let (a, la, ha, at) = filled.complete c hc e in (a, la, omega arith, at);
      messages = λ a la ha. filled.messages a la (omega arith);
    }
