-- ===== src/Stress/Node/Buffers.antt =====
-- The four vectors of a router: which of them a statement may write.
use concurrencylab.Common.{
  update_other, ℕ, ◌≡◌, ◌≢◌, ◌⊎◌, inl, inr, refl, sym, arith, Option, none, some, List, Bool, true,
  ◌==◌, ◌&&◌, Bool-cases,
}
use concurrencylab.Channel.{
  ChannelStatus, channel_empty, success, closed_error, gen_error, destroy_error,
}
use concurrencylab.Stress.Graph.{Distance}
use concurrencylab.Stress.Router.{DistanceVector}
use concurrencylab.Stress.Node.{
  Message, Router, router, on_message, on_send, on_read, on_test, on_closed, in_list, on_success,
  on_return, on_answer, cycle_buffers,
}
use concurrencylab.Stress.Node.Run.{
  RouterStep, returned, dealt, answered, took, tested, RouterRun, IsKept, RouterRun-Holds,
}

-- The four slots are four different ones.
pub record AreApart (a b c d : ℕ) : Type 0 where
  pub one : a ≢ b
  pub two : a ≢ c
  pub three : a ≢ d
  pub four : b ≢ c
  pub five : b ≢ d
  pub six : c ≢ d

abbrev IsApart : Router → Type 0
IsApart r = AreApart r.prev_prev_state r.prev_state r.curr_state r.next_state

pub router-AreApart : (n : ℕ) (topology : List Distance) (i : ℕ) → IsApart (router n topology i)
unfolding router
router-AreApart n topology i = record {
  one = λ e. absurd (omega arith);
  two = λ e. absurd (omega arith);
  three = λ e. absurd (omega arith);
  four = λ e. absurd (omega arith);
  five = λ e. absurd (omega arith);
  six = λ e. absurd (omega arith);
}

pub cycle_buffers-AreApart : (i : ℕ) (r : Router) → IsApart r → IsApart (cycle_buffers i r)
unfolding cycle_buffers
cycle_buffers-AreApart i r is = record {
  one = is.four;
  two = is.five;
  three = λ e. is.one (sym e);
  four = is.six;
  five = λ e. is.two (sym e);
  six = λ e. is.three (sym e);
}

on_read-AreApart :
    (r : Router) (o : Option (Bool × DistanceVector)) → IsApart r → IsApart (on_read o r)
unfolding on_read
on_read-AreApart r none is = is
on_read-AreApart r (some (c, v)) is = is

-- What a statement does to the vectors: those at `curr_state` and `prev_state` are as they were, and
-- both stay in use, unless the round ends, when they are the last two; and the one before them is
-- written at the end of a round only.
abbrev pub KeepsInUse : Router → Router → Type 0
KeepsInUse r r' =
    (r'.vectors r.curr_state ≡ r.vectors r.curr_state)
    × (r'.vectors r.prev_state ≡ r.vectors r.prev_state)
    × (((r'.curr_state ≡ r.curr_state)
          × (r'.prev_state ≡ r.prev_state)
          × (r'.prev_prev_state ≡ r.prev_prev_state)
          × (r'.vectors r.prev_prev_state ≡ r.vectors r.prev_prev_state))
        ⊎ ((r.select_count ≡ 2)
            × (r.changed ≡ true)
            × (r'.prev_state ≡ r.curr_state)
            × (r'.prev_prev_state ≡ r.prev_state)))

module _ (i : ℕ) (r : Router) where
  on_read-KeepsInUse : (o : Option (Bool × DistanceVector)) → IsApart r → KeepsInUse r (on_read o r)
  unfolding on_read
  on_read-KeepsInUse none is = (refl, refl, inl (refl, refl, refl, refl))
  on_read-KeepsInUse (some (c, v)) is =
      let keeps = update_other r.vectors r.next_state v in
      (
        keeps r.curr_state (λ e. is.six (sym e)),
        keeps r.prev_state (λ e. is.five (sym e)),
        inl (refl, refl, refl, keeps r.prev_prev_state (λ e. is.three (sym e))),
      )

  cycle_buffers-KeepsInUse :
      r.select_count ≡ 2 → r.changed ≡ true → IsApart r → KeepsInUse r (cycle_buffers i r)
  unfolding cycle_buffers
  cycle_buffers-KeepsInUse over ch is =
      let keeps = update_other r.vectors r.prev_prev_state _ in
      (keeps r.curr_state is.two, keeps r.prev_state is.one, inr (over, ch, refl, refl))

  on_test-KeepsInUse : IsApart r → KeepsInUse r (on_test i r)
  unfolding on_test
  on_test-KeepsInUse is = elim (Bool-cases ((r.select_count == 2) && r.changed)) [
    | inl again ↦ rw again (cycle_buffers-KeepsInUse (ground arith) (ground arith) is)
    | inr over ↦ rw over (refl, refl, inl (refl, refl, refl, refl))
  ]

  on_closed-KeepsInUse : KeepsInUse r (on_closed r)
  unfolding on_closed
  on_closed-KeepsInUse = elim (Bool-cases r.changed) [
    | inl e ↦ rw e (refl, refl, inl (refl, refl, refl, refl))
    | inr e ↦ rw e (refl, refl, inl (refl, refl, refl, refl))
  ]

  on_success-KeepsInUse : (k : ℕ) → KeepsInUse r (on_success k r)
  unfolding on_success on_send
  on_success-KeepsInUse k = elim (Bool-cases (k == 0)) [
    | inl zeroth ↦ rw zeroth (refl, refl, inl (refl, refl, refl, refl))
    | inr not_zero ↦ elim (Bool-cases (k == 1)) [
      | inl first ↦ rw (not_zero, first) (refl, refl, inl (refl, refl, refl, refl))
      | inr other ↦ elim (Bool-cases (in_list k r)) [
        | inl inside ↦ rw (not_zero, other, inside) (refl, refl, inl (refl, refl, refl, refl))
        | inr not_inside ↦
            rw (not_zero, other, not_inside) (refl, refl, inl (refl, refl, refl, refl))
      ]
    ]
  ]

  on_return-KeepsInUse : (status : ChannelStatus) (k : ℕ) → KeepsInUse r (on_return status k r)
  unfolding on_return
  on_return-KeepsInUse success k = on_success-KeepsInUse k
  on_return-KeepsInUse closed_error k = elim (Bool-cases (k == 0)) [
    | inl zeroth ↦ rw zeroth on_closed-KeepsInUse
    | inr other ↦ rw other (refl, refl, inl (refl, refl, refl, refl))
  ]
  on_return-KeepsInUse channel_empty k = (refl, refl, inl (refl, refl, refl, refl))
  on_return-KeepsInUse gen_error k = (refl, refl, inl (refl, refl, refl, refl))
  on_return-KeepsInUse destroy_error k = (refl, refl, inl (refl, refl, refl, refl))

  on_message-KeepsInUse : (m : Message) → KeepsInUse r (on_message i m r)
  unfolding on_message
  on_message-KeepsInUse none = (refl, refl, inl (refl, refl, refl, refl))
  on_message-KeepsInUse (some a) = (refl, refl, inl (refl, refl, refl, refl))

  on_answer-KeepsInUse : (status : ChannelStatus) → KeepsInUse r (on_answer status r)
  unfolding on_answer
  on_answer-KeepsInUse success = (refl, refl, inl (refl, refl, refl, refl))
  on_answer-KeepsInUse closed_error = (refl, refl, inl (refl, refl, refl, refl))
  on_answer-KeepsInUse channel_empty = (refl, refl, inl (refl, refl, refl, refl))
  on_answer-KeepsInUse gen_error = (refl, refl, inl (refl, refl, refl, refl))
  on_answer-KeepsInUse destroy_error = (refl, refl, inl (refl, refl, refl, refl))

module _ (n : ℕ) (topology : List Distance) (i : ℕ) (Chosen : ℕ → ℕ → Type 0)
    (Given : DistanceVector → Type 0) where
  kept : IsKept n topology i Chosen Given IsApart
  unfolding on_send
  kept = record {
    start = router-AreApart n topology i;
    move = λ r x is. is;
    get = λ r m is. is;
    put = λ r k low chosen is. is;
    read = λ r v given is. on_read-AreApart r _ is;
    cycle = λ r over ch is. cycle_buffers-AreApart i r is;
  }

  step-KeepsInUse :
      {r r' : Router} → RouterStep n topology i Chosen Given r r' → IsApart r → KeepsInUse r r'
  step-KeepsInUse {r} (returned status k m here chosen) is = on_return-KeepsInUse i _ status k
  step-KeepsInUse {r} (dealt m here) is = on_message-KeepsInUse i r m
  step-KeepsInUse {r} (answered status m here) is = on_answer-KeepsInUse i r status
  step-KeepsInUse {r} (took a v here given) is = on_read-KeepsInUse i r _ is
  step-KeepsInUse {r} (tested here) is = on_test-KeepsInUse i r is

  -- Whatever channel_select gives, whatever the sends of its answers give and whatever vectors it
  -- reads, a step of a router from a state of a run leaves the vectors at curr_state and
  -- prev_state as they are; and either these two and prev_prev_state stay where they are and the
  -- vector at prev_prev_state is as it was too, or select_count was 2 and the vector had changed,
  -- and the current vector has become the previous one, and the previous one the one before.
  pub InUse-unwritten :
      {r r' : Router}
      → RouterRun n topology i Chosen Given r
      → RouterStep n topology i Chosen Given r r'
      → KeepsInUse r r'
  InUse-unwritten run step =
      step-KeepsInUse step (RouterRun-Holds n topology i Chosen Given kept run)
