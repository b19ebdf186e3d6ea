-- ===== src/System/Safety/Unbuffered.antt =====
-- A channel of size 0: channel.h calls it unbuffered, and the code never moves a message through it.
use concurrencylab.Common.{
  ℕ, ◌≤◌, ◌≡◌, ◌⊎◌, inl, inr, refl, subst, ap, some, [], ◌∷◌, ◌++◌, arith, length, length-append,
  Pointer,
}
use concurrencylab.Buffer.{Malloc}
use concurrencylab.Buffer.Invariant.{Allocates}
use concurrencylab.Buffer.Refine.{contents, length-contents}
use concurrencylab.Channel.{
  Channel, Point, notify, Call, send, receive, non_blocking_send, non_blocking_receive,
}
use concurrencylab.Channel.Life.{channel_create}
use concurrencylab.System.{
  System, Reach, start, later, Step, put, got, puts, gots, events, run, call,
}
use concurrencylab.System.Local.{Moved}
use concurrencylab.System.Invariant.{Inv, good}
use concurrencylab.System.Safety.{reached-Inv}

events-cases :
    (c : Call) (q : Point)
    → (events c q ≡ [])
      ⊎ (((v : Pointer) × (events c q ≡ put v ∷ [])) ⊎ ((v : Pointer) × (events c q ≡ got v ∷ [])))
events-cases (send v) (notify out) = inr (inl (v, refl))
events-cases (non_blocking_send v) (notify out) = inr (inl (v, refl))
events-cases receive (notify (some v)) = inr (inr (v, refl))
events-cases non_blocking_receive (notify (some v)) = inr (inr (v, refl))
events-cases c q = inl refl

-- With no room in the buffer a statement moves nothing through it.
no_events :
    (c : Call) (p q : Point) (ch ch' : Channel)
    → Moved ch c p q ch'
    → ch.buffer.size ≤ ch.buffer.capacity
    → ch.buffer.capacity ≡ 0
    → events c q ≡ []
no_events c p q ch ch' m fits none_fit = elim (events-cases c q) [
  | inl nothing ↦ nothing
  | inr (inl (v, e)) ↦
      let queue =
        ap length
          (subst (λ l. contents ch.buffer ++ puts l ≡ gots l ++ contents ch'.buffer) e m.queue) in
      absurd (
        omega (
          arith,
          queue,
          m,
          length-append (contents ch.buffer) (v ∷ []),
          length-contents ch.buffer,
          length-contents ch'.buffer,
          m.fine,
          m.capacity,
        ))
  | inr (inr (v, e)) ↦
      let queue =
        ap length
          (subst (λ l. contents ch.buffer ++ puts l ≡ gots l ++ contents ch'.buffer) e m.queue) in
      absurd (
        omega (
          arith,
          queue,
          length-append (contents ch.buffer) [],
          length-contents ch.buffer,
          length-contents ch'.buffer,
        ))
]

Step-history : {n : ℕ} {s t : System} → Inv n 0 s → Step n s t → s.history ≡ [] → t.history ≡ []
Step-history inv (run i c p q ch lt here e) empty =
    rw (empty, no_events c p q _ ch (good inv i lt here e) (omega (arith, inv.fine)) inv.fixed)
Step-history inv (call i c lt here) empty = empty
Step-history inv st empty = empty

module _ (malloc : Malloc) {ch : Channel} (allocates : Allocates malloc)
    (created : channel_create malloc 0 ≡ some ch) where
  -- On a channel that channel_create has made with size 0, where malloc gives at least the bytes
  -- that it is asked for, in any state that n threads reach, no message has gone into the buffer
  -- or out of it, by blocking or non-blocking calls.
  pub size_zero_moves_nothing : {n : ℕ} {s : System} → Reach n ch s → s.history ≡ []
  size_zero_moves_nothing start = refl
  size_zero_moves_nothing (later r st) =
      Step-history (reached-Inv malloc 0 allocates (omega arith) created r) st
        (size_zero_moves_nothing r)
