-- ===== src/System/Safety/Waiting.antt =====
-- A thread that waits for the lock gets it, or the thread that holds it goes on.
use concurrencylab.Common.{ℕ, ◌<◌, ◌≡◌, ◌⊎◌, inl, inr, refl, subst, none, some, Option-cases}
use concurrencylab.Buffer.{Malloc}
use concurrencylab.Buffer.Invariant.{Allocates, max_capacity}
use concurrencylab.Channel.{
  Channel, Call, entry, test, send, receive, non_blocking_send, non_blocking_receive, close,
  acquire, code,
}
use concurrencylab.Channel.Life.{channel_create}
use concurrencylab.System.{
  System, Pc, running, woken, Step, call, lock, relock, run, sleep, signal_one, signal_none,
  wake_all, release, give_up, spurious, finish, Reach, start, later,
}
use concurrencylab.System.Safety.Release.{Nearer, holder_advances}

-- before `pthread_mutex_lock`, or woken up inside of `pthread_cond_wait`
abbrev pub WantsLock : Pc → Type 0
WantsLock (running c entry) = Unit
WantsLock (woken c p) = Unit
WantsLock x = ⊥

owner-lt : {n : ℕ} {ch : Channel} {s : System} → Reach n ch s → (j : ℕ) → s.owner ≡ some j → j < n
owner-lt start j e = absurd (cc)
owner-lt (later r (call i c lt here)) j e = owner-lt r j e
owner-lt {n} (later r (lock i c p q lt here is free)) j e = subst (λ k. k < n) (cc) lt
owner-lt {n} (later r (relock i c p lt here free)) j e = subst (λ k. k < n) (cc) lt
owner-lt (later r (run i c p q ch lt here is)) j e = owner-lt r j e
owner-lt (later r (sleep i c p q cond lt here is)) j e = absurd (cc)
owner-lt (later r (signal_one i k c d p q o cond lt lt' here is there)) j e = owner-lt r j e
owner-lt (later r (signal_none i c p q cond lt here is nobody)) j e = owner-lt r j e
owner-lt (later r (wake_all i c p q cond lt here is)) j e = owner-lt r j e
owner-lt (later r (release i c p status out lt here is)) j e = absurd (cc)
owner-lt (later r (give_up i c p status lt here is)) j e = owner-lt r j e
owner-lt (later r (spurious i c p cond lt here)) j e = owner-lt r j e
owner-lt (later r (finish i c status out lt here)) j e = owner-lt r j e

entry-acquires : (ch : Channel) (c : Call) → code c entry (some ch) ≡ acquire test
unfolding code
entry-acquires ch (send v) = refl
entry-acquires ch receive = refl
entry-acquires ch (non_blocking_send v) = refl
entry-acquires ch non_blocking_receive = refl
entry-acquires ch close = refl

take_free :
    {n : ℕ} {s : System} (i : ℕ) (x : Pc)
    → i < n
    → s.pc i ≡ x
    → WantsLock x
    → s.owner ≡ none
    → (t : System) × Step n s t × (t.owner ≡ some i)
take_free {s = s} i (running c entry) lt here wants free =
    (_, lock i c entry test lt here (entry-acquires s.channel c) free, refl)
take_free i (woken c p) lt here wants free = (_, relock i c p lt here free, refl)
take_free i x lt here wants free = absurd wants

module _ (malloc : Malloc) (size : ℕ) {ch : Channel} (allocates : Allocates malloc)
    (small : size < max_capacity) (created : channel_create malloc size ≡ some ch) {n : ℕ}
    {s : System} (reached : Reach n ch s) where
  -- On a channel that channel_create has made with a size below 2^61, where malloc gives at least
  -- the bytes that it is asked for, in any state that n threads reach, for a thread below n at the
  -- start of a call, or woken up, there is a step behind which it holds the lock; or some thread
  -- holds the lock, and there is a step behind which that one has fewer statements left before it
  -- gives the lock back, and still holds it if it has any left.
  pub waiting_advances :
      (i : ℕ)
      → i < n
      → WantsLock (s.pc i)
      → ((t : System) × Step n s t × (t.owner ≡ some i))
        ⊎ ((j : ℕ) × (s.owner ≡ some j) × Nearer n s j)
  waiting_advances i lt wants = elim (Option-cases s.owner) [
    | inl free ↦ inl (take_free i (s.pc i) lt refl wants free)
    | inr (j, mine) ↦
        let (few, nearer) =
          holder_advances malloc size allocates small created reached j (owner-lt reached j mine)
            mine in
        inr (j, mine, nearer)
  ]
