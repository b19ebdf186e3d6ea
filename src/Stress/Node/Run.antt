-- ===== src/Stress/Node/Run.antt =====
-- The runs of one router. What it meets is left open: the status and the index that `channel_select`
-- gives, within `Chosen`, the message that is then in entry 1, the status of the send of its answer,
-- and the vectors that it reads, within `Given`. Where `Chosen` and `Given` allow everything, the
-- runs with the stub of `channel_select` are among these.
use concurrencylab.Common.{
  ℕ, ◌<◌, ◌≤◌, ◌≡◌, inl, inr, arith, List, Bool, true, false, ltb, leb, length, ◌==◌, ◌&&◌,
  if◌then◌else◌, Bool-cases,
}
use concurrencylab.Channel.{
  ChannelStatus, channel_empty, success, closed_error, gen_error, destroy_error,
}
use concurrencylab.Stress.Graph.{Distance}
use concurrencylab.Stress.Router.{DistanceVector, take_in}
use concurrencylab.Stress.Node.{
  Address, Message, Router, RouterPoint, selecting, testing, stopped, changed_late, failed,
  received, replying, reading, set_message, router, on_send, on_read, on_message, on_test,
  on_closed, in_list, on_success, on_return, on_answer, cycle_buffers,
}

-- The list with another message in entry 1.
abbrev pub with_message : Message → Router → Router
with_message m r = record r { select_list = set_message r.select_list 1 m }

module _ (n : ℕ) (topology : List Distance) (i : ℕ) (Chosen : ℕ → ℕ → Type 0)
    (Given : DistanceVector → Type 0) where
  -- `Chosen selected select_count`: the index that is given for the list.
  -- A statement of router `i`.
  pub data RouterStep (r : Router) : Router → Type 0 where
    returned :
        (status : ChannelStatus) (selected : ℕ) (m : Message)
        → r.at ≡ selecting
        → Chosen selected r.select_count
        → RouterStep r (on_return status selected (with_message m r))
    dealt : (m : Message) → r.at ≡ received m → RouterStep r (on_message i m r)
    answered :
        (status : ChannelStatus) (m : Message)
        → r.at ≡ replying m
        → RouterStep r (on_answer status r)
    took :
        (a : Address) (v : DistanceVector)
        → r.at ≡ reading a
        → Given v
        → RouterStep r (on_read (take_in n topology i v (r.changed, r.vectors r.next_state)) r)
    tested : r.at ≡ testing → RouterStep r (on_test i r)

  pub data RouterRun : Router → Type 0 where
    begun : RouterRun (router n topology i)
    next : {r r' : Router} → RouterRun r → RouterStep r r' → RouterRun r'

  -- The statements keep `Holds`.
  pub record IsKept (Holds : Router → Type 0) : Type 0 where
    pub start : Holds (router n topology i)
    pub move : (r : Router) (x : RouterPoint) → Holds r → Holds (record r { at = x })
    pub get : (r : Router) (m : Message) → Holds r → Holds (with_message m r)
    pub put : (r : Router) (k : ℕ) → 2 ≤ k → Chosen k r.select_count → Holds r → Holds (on_send k r)
    pub read :
        (r : Router) (v : DistanceVector)
        → Given v
        → Holds r
        → Holds (on_read (take_in n topology i v (r.changed, r.vectors r.next_state)) r)
    pub cycle :
        (r : Router) → r.select_count ≡ 2 → r.changed ≡ true → Holds r → Holds (cycle_buffers i r)

  module _ {Holds : Router → Type 0} (kept : IsKept Holds) where
    on_success-Holds :
        (r : Router) (k : ℕ) → Chosen k r.select_count → Holds r → Holds (on_success k r)
    unfolding on_success
    on_success-Holds r k lt h = elim (Bool-cases (k == 0)) [
      | inl zeroth ↦ rw zeroth (kept.move r failed h)
      | inr not_zero ↦ elim (Bool-cases (k == 1)) [
        | inl first ↦ rw (not_zero, first) (kept.move r _ h)
        | inr other ↦ elim (Bool-cases (in_list k r)) [
          | inl inside ↦
              let low : 2 ≤ k = ground arith in rw (not_zero, other, inside) (kept.put r k low lt h)
          | inr not_inside ↦ rw (not_zero, other, not_inside) (kept.move r _ h)
        ]
      ]
    ]

    on_closed-Holds : (r : Router) → Holds r → Holds (on_closed r)
    unfolding on_closed
    on_closed-Holds r h =
        elim r.changed
          as (λ changed.
            Holds (if changed then record r { at = changed_late } else record r { at = stopped })) [
              | true ↦ kept.move r changed_late h
              | false ↦ kept.move r stopped h
            ]

    on_return-Holds :
        (status : ChannelStatus) (r : Router) (k : ℕ)
        → Chosen k r.select_count
        → Holds r
        → Holds (on_return status k r)
    unfolding on_return
    on_return-Holds success r k lt h = on_success-Holds r k lt h
    on_return-Holds closed_error r k lt h = elim (Bool-cases (k == 0)) [
      | inl zeroth ↦ rw zeroth (on_closed-Holds r h)
      | inr other ↦ rw other (kept.move r failed h)
    ]
    on_return-Holds channel_empty r k lt h = kept.move r failed h
    on_return-Holds gen_error r k lt h = kept.move r failed h
    on_return-Holds destroy_error r k lt h = kept.move r failed h

    on_message-Holds : (m : Message) (r : Router) → Holds r → Holds (on_message i m r)
    unfolding on_message
    on_message-Holds concurrencylab.Common.none r h = kept.move r _ h
    on_message-Holds (concurrencylab.Common.some a) r h = kept.move r _ h

    on_answer-Holds : (status : ChannelStatus) (r : Router) → Holds r → Holds (on_answer status r)
    unfolding on_answer
    on_answer-Holds success r h = kept.move r testing h
    on_answer-Holds closed_error r h = kept.move r failed h
    on_answer-Holds channel_empty r h = kept.move r failed h
    on_answer-Holds gen_error r h = kept.move r failed h
    on_answer-Holds destroy_error r h = kept.move r failed h

    on_test-Holds : (r : Router) → Holds r → Holds (on_test i r)
    unfolding on_test
    on_test-Holds r h = elim (Bool-cases ((r.select_count == 2) && r.changed)) [
      | inl again ↦ rw again (kept.cycle r (ground arith) (ground arith) h)
      | inr over ↦ rw over (kept.move r selecting h)
    ]

    pub RouterStep-Holds : {r r' : Router} → RouterStep r r' → Holds r → Holds r'
    RouterStep-Holds {r} (returned status k m here lt) h =
        on_return-Holds status (with_message m r) k lt (kept.get r m h)
    RouterStep-Holds {r} (dealt m here) h = on_message-Holds m r h
    RouterStep-Holds {r} (answered status m here) h = on_answer-Holds status r h
    RouterStep-Holds {r} (took a v here given) h = kept.read r v given h
    RouterStep-Holds {r} (tested here) h = on_test-Holds r h

    pub RouterRun-Holds : {r : Router} → RouterRun r → Holds r
    RouterRun-Holds begun = kept.start
    RouterRun-Holds (next run step) = RouterStep-Holds step (RouterRun-Holds run)
