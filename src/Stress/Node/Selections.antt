-- ===== src/Stress/Node/Selections.antt =====
-- The list of a router's operations: what stands in it, and what its updates keep.
use concurrencylab.Common.{
  ℕ, ◌<◌, ◌≡◌, ◌∙◌, inl, inr, refl, ap, arith, List, length, get_or-set, ◌==◌, if◌then◌else◌,
  Bool-cases,
}
use concurrencylab.Stress.Node.{
  Message, Selection, no_selection, selection, channel_at, set_channel, set_message,
}

pub channel_at-set_channel :
    (list : List Selection) (i c j : ℕ)
    → i < length list
    → channel_at (set_channel list i c) j ≡ (if i == j then c else channel_at list j)
channel_at-set_channel list i c j h =
    ground (arith, get_or-set list i (record (selection list i) { channel = c }) no_selection j h)

pub message-set_channel :
    (list : List Selection) (i c j : ℕ)
    → i < length list
    → (selection (set_channel list i c) j).message ≡ (selection list j).message
message-set_channel list i c j h =
    let e = get_or-set list i (record (selection list i) { channel = c }) no_selection j h in
    elim (Bool-cases (i == j)) [
      | inl is ↦
          let same : i ≡ j = ground arith in
          ap (λ (x : Selection). x.message) e ∙ rw is (ap (λ k. (selection list k).message) same)
      | inr is ↦ ap (λ (x : Selection). x.message) e ∙ rw is refl
    ]

pub channel_at-set_message :
    (list : List Selection) (i : ℕ) (m : Message) (j : ℕ)
    → i < length list
    → channel_at (set_message list i m) j ≡ channel_at list j
channel_at-set_message list i m j h =
    let e = get_or-set list i (record (selection list i) { message = m }) no_selection j h in
    elim (Bool-cases (i == j)) [
      | inl is ↦
          let same : i ≡ j = ground arith in
          ap (λ (x : Selection). x.channel) e ∙ rw is (ap (λ k. (selection list k).channel) same)
      | inr is ↦ ap (λ (x : Selection). x.channel) e ∙ rw is refl
    ]

pub message-set_message :
    (list : List Selection) (i : ℕ) (m : Message) (j : ℕ)
    → i < length list
    → (selection (set_message list i m) j).message
      ≡ (if i == j then m else (selection list j).message)
message-set_message list i m j h =
    ground (arith, get_or-set list i (record (selection list i) { message = m }) no_selection j h)
