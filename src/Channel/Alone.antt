-- ===== src/Channel/Alone.antt =====
-- A call of a channel function by a thread that nobody disturbs, from the first statement to the
-- return or to `pthread_cond_wait`.
mod Steps
pub mod Send
mod Receive
pub mod Refine
use concurrencylab.Common.{
  ℕ, zero, suc, Option, none, some, List, [], ◌∷◌, ◌++◌, Bool, true, false, not, ltb, ◌==◌,
  if◌then◌else◌, length, Pointer,
}
use concurrencylab.Buffer.Refine.{contents}
use concurrencylab.Channel.{
  ChannelStatus, channel_empty, channel_full, success, closed_error, Channel, Point, Action, crash,
  acquire, goto, wait_on, signal, broadcast, unlock, quit, Call, send, receive, non_blocking_send,
  non_blocking_receive, close, code,
}

pub data Outcome : Type 0 where
  returns : ChannelStatus → Option Pointer → Channel → Outcome
  waits : Channel → Outcome
  fault : Outcome
  out_of_fuel : Outcome

-- At most `fuel` statements. With nobody else, the lock is free and signals wake nobody.
unfoldable pub alone : ℕ → Call → Point → Channel → Outcome
alone zero c p ch = out_of_fuel
alone (suc fuel) c p ch = elim (code c p (some ch)) [
  | crash ↦ fault
  | acquire q ↦ alone fuel c q ch
  | goto q ch' ↦ alone fuel c q ch'
  | wait_on cond q ↦ waits ch
  | signal cond q ↦ alone fuel c q ch
  | broadcast cond q ↦ alone fuel c q ch
  | unlock status out ↦ returns status out ch
  | quit status ↦ returns status none ch
]

-- What channel.h promises: a FIFO of at most `limit` messages, open or closed.
pub record Fifo : Type 0 where
  pub items : List Pointer
  pub limit : ℕ
  pub is_open : Bool

pub data Reply : Type 0 where
  answers : ChannelStatus → Option Pointer → Fifo → Reply
  blocks : Reply

abbrev pub put_reply : Fifo → Pointer → Reply → Reply
put_reply f v full =
    if ltb (length f.items) f.limit
    then answers success none (record f { items = f.items ++ (v ∷ []) })
    else full

abbrev pub take_reply : List Pointer → Fifo → Reply → Reply
take_reply [] f empty = empty
take_reply (v ∷ q) f empty = answers success (some v) (record f { items = q })

abbrev pub open_reply : Call → Fifo → Reply
open_reply (send v) f = put_reply f v blocks
open_reply receive f = take_reply f.items f blocks
open_reply (non_blocking_send v) f = put_reply f v (answers channel_full none f)
open_reply non_blocking_receive f = take_reply f.items f (answers channel_empty none f)
open_reply close f = answers success none (record f { is_open = false })

abbrev pub reply : Call → Fifo → Reply
reply c f = if f.is_open then open_reply c f else answers closed_error none f

-- The FIFO that a channel stands for, and the reply that an outcome stands for.
abbrev pub view : Channel → Fifo
view ch = record {
  items = contents ch.buffer;
  limit = ch.buffer.capacity;
  is_open = not (ch.closed == 0);
}

abbrev pub seen : Outcome → Option Reply
seen (returns status out ch) = some (answers status out (view ch))
seen (waits ch) = some blocks
seen _ = none
