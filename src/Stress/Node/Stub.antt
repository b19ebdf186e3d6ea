-- ===== src/Stress/Node/Stub.antt =====
-- The loop of a router with `channel_select` as channel.c has it: a stub, which gives SUCCESS and
-- leaves the list and `selected_index` as they are. The variable is not set before the loop, so
-- its value is any `index`, and the same one in all rounds.
use concurrencylab.Common.{
  ℕ, ◌-◌, ◌≤◌, ◌≡◌, inl, inr, refl, ap, subst, ◌∙◌, arith, none, some, List, [], ◌∷◌, length, Bool,
  true, false, ◌==◌, ◌&&◌, Bool-cases, ◌++◌, length-append, get_or-append_lt, for_from_keeps,
}
use concurrencylab.Channel.{
  ChannelStatus, channel_empty, success, closed_error, gen_error, destroy_error,
}
use concurrencylab.Channel.Select.{channel_select}
use concurrencylab.Stress.Graph.{Distance}
use concurrencylab.Stress.Node.{
  Message, Selection, Router, RouterPoint, selecting, testing, stopped, no_link, changed_late,
  failed, outside, received, replying, reading, selection, no_selection, router, first_list,
  add_send, is_neighbor, address, on_message, on_send, on_test, in_list, on_success, on_return,
  on_answer,
}
use concurrencylab.Stress.Node.Swap.{message-swap_channels}

-- The call of `channel_select`, and what is behind it.
unfoldable pub select_and_go : ℕ → Router → Router
select_and_go index r =
    let (status, list, selected) = channel_select r.select_list r.select_count index in
    on_return status selected (record r { select_list = list })

module _ (n : ℕ) (topology : List Distance) (i index : ℕ) where
  -- A statement of router `i`. No vector arrives that it could read.
  pub data StubStep (r : Router) : Router → Type 0 where
    selected : r.at ≡ selecting → StubStep r (select_and_go index r)
    handled : (m : Message) → r.at ≡ received m → StubStep r (on_message i m r)
    replied :
        (status : ChannelStatus) (m : Message) → r.at ≡ replying m → StubStep r (on_answer status r)
    checked : r.at ≡ testing → StubStep r (on_test i r)

  pub data StubRun : Router → Type 0 where
    at_loop : StubRun (router n topology i)
    then_step : {r r' : Router} → StubRun r → StubStep r r' → StubRun r'

-- The points that are reached: those without a vector that has arrived, and not the end.
abbrev pub is_mute : RouterPoint → Bool
is_mute selecting = true
is_mute testing = true
is_mute stopped = false
is_mute no_link = false
is_mute changed_late = false
is_mute failed = true
is_mute outside = true
is_mute (received none) = true
is_mute (received (some a)) = false
is_mute (replying m) = true
is_mute (reading a) = false

record IsMute (n : ℕ) (topology : List Distance) (i : ℕ) (r : Router) : Type 0 where
  vectors : r.vectors ≡ (router n topology i).vectors
  curr : r.curr_state ≡ 2
  unchanged : r.changed ≡ false
  no_vector : (selection r.select_list 1).message ≡ none
  here : is_mute r.at ≡ true

module _ {n : ℕ} {topology : List Distance} {i : ℕ} where
  move :
      (r : Router) (x : RouterPoint)
      → is_mute x ≡ true
      → IsMute n topology i r
      → IsMute n topology i (record r { at = x })
  move r x mute is = record {
    vectors = is.vectors;
    curr = is.curr;
    unchanged = is.unchanged;
    no_vector = is.no_vector;
    here = mute;
  }

  on_send-IsMute :
      (k : ℕ) (r : Router)
      → in_list k r ≡ true
      → IsMute n topology i r
      → IsMute n topology i (on_send k r)
  unfolding on_send
  on_send-IsMute k r inside is = record {
    vectors = is.vectors;
    curr = is.curr;
    unchanged = is.unchanged;
    no_vector =
        message-swap_channels r.select_list (r.select_count - 1) k (ground arith) (ground arith) 1
        ∙ is.no_vector;
    here = refl;
  }

  on_success-IsMute :
      (k : ℕ) (r : Router) → IsMute n topology i r → IsMute n topology i (on_success k r)
  unfolding on_success
  on_success-IsMute k r is = elim (Bool-cases (k == 0)) [
    | inl zeroth ↦ rw zeroth (move r failed refl is)
    | inr not_zero ↦ elim (Bool-cases (k == 1)) [
      | inl first ↦ rw (not_zero, first) (move r _ (rw is.no_vector refl) is)
      | inr other ↦ elim (Bool-cases (in_list k r)) [
        | inl inside ↦ rw (not_zero, other, inside) (on_send-IsMute k r inside is)
        | inr not_inside ↦ rw (not_zero, other, not_inside) (move r outside refl is)
      ]
    ]
  ]

  select_and_go-IsMute :
      (index : ℕ) (r : Router) → IsMute n topology i r → IsMute n topology i (select_and_go index r)
  unfolding select_and_go channel_select on_return
  select_and_go-IsMute index r is = on_success-IsMute index r is

  on_test-IsMute : (r : Router) → IsMute n topology i r → IsMute n topology i (on_test i r)
  unfolding on_test
  on_test-IsMute r is =
      let no_round : ((r.select_count == 2) && r.changed) ≡ false =
        let same = is.unchanged in ground arith in
      rw no_round (move r selecting refl is)

  on_message-IsMute :
      (m : Message) (r : Router)
      → r.at ≡ received m
      → IsMute n topology i r
      → IsMute n topology i (on_message i m r)
  unfolding on_message
  on_message-IsMute none r at is = move r _ refl is
  on_message-IsMute (some a) r at is =
      let mute : is_mute (received (some a)) ≡ true = subst (λ x. is_mute x ≡ true) at is.here in
      absurd (ground arith)

  on_answer-IsMute :
      (status : ChannelStatus) (r : Router)
      → IsMute n topology i r
      → IsMute n topology i (on_answer status r)
  unfolding on_answer
  on_answer-IsMute success r is = move r testing refl is
  on_answer-IsMute closed_error r is = move r failed refl is
  on_answer-IsMute channel_empty r is = move r failed refl is
  on_answer-IsMute gen_error r is = move r failed refl is
  on_answer-IsMute destroy_error r is = move r failed refl is

-- Entry 1, without a vector.
abbrev NoVector : List Selection → Type 0
NoVector list = (2 ≤ length list) × ((selection list 1).message ≡ none)

append-NoVector :
    (list : List Selection) (s : Selection) → NoVector list → NoVector (list ++ s ∷ [])
append-NoVector list s (two, none_there) = (
  omega (arith, length-append list (s ∷ [])),
  ap (λ x. x.message) (get_or-append_lt list (s ∷ []) no_selection 1 (omega arith)) ∙ none_there,
)

no_first_vector :
    (n : ℕ) (topology : List Distance) (i : ℕ) (m : Message)
    → (selection (first_list n topology i m) 1).message ≡ none
unfolding first_list
no_first_vector n topology i m =
    let (two, none_there) =
      for_from_keeps (λ k. NoVector) (λ k. add_send n topology i m k) n
        (λ k list hk has. elim (Bool-cases (is_neighbor n topology i k)) [
          | inl is ↦ rw is (append-NoVector list _ has)
          | inr is ↦ rw is has
        ])
        n 0 _ (omega arith) (omega arith, refl) in
    none_there

router-IsMute :
    (n : ℕ) (topology : List Distance) (i : ℕ) → IsMute n topology i (router n topology i)
unfolding router
router-IsMute n topology i = record {
  vectors = refl;
  curr = refl;
  unchanged = refl;
  no_vector = no_first_vector n topology i (some (address i 2));
  here = refl;
}

module _ (n : ℕ) (topology : List Distance) (i index : ℕ) where
  StubStep-IsMute :
      {r r' : Router}
      → StubStep n topology i index r r'
      → IsMute n topology i r
      → IsMute n topology i r'
  StubStep-IsMute {r} (selected here) is = select_and_go-IsMute index r is
  StubStep-IsMute {r} (handled m here) is = on_message-IsMute m r here is
  StubStep-IsMute {r} (replied status m here) is = on_answer-IsMute status r is
  StubStep-IsMute {r} (checked here) is = on_test-IsMute r is

  StubRun-IsMute : {r : Router} → StubRun n topology i index r → IsMute n topology i r
  StubRun-IsMute at_loop = router-IsMute n topology i
  StubRun-IsMute (then_step run step) = StubStep-IsMute step (StubRun-IsMute run)

  -- With channel_select as the stub that it is, and any value in selected_index, in every state
  -- that a router reaches its vectors are those before the loop, curr_state is the first one,
  -- changed is false, and it is at no vector to read, at no message but NULL, not at its end, and
  -- not at a failed assertion on a link or on changed.
  pub nothing_arrives :
      {r : Router}
      → StubRun n topology i index r
      → (r.vectors ≡ (router n topology i).vectors)
        × (r.curr_state ≡ 2)
        × (r.changed ≡ false)
        × (is_mute r.at ≡ true)
  nothing_arrives run = let is = StubRun-IsMute run in (is.vectors, is.curr, is.unchanged, is.here)
