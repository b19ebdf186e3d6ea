-- ===== src/Stress/Node.antt =====
-- The thread function `router` of concurrencylab-edit/stress.c: its four vectors, the list of
-- operations to select from, and what it does behind each return of `channel_select`.
pub mod Selections
pub mod Listed
pub mod Swap
pub mod FirstVectors
pub mod FirstList
pub mod Run
pub mod Lists
pub mod Buffers
pub mod Rounds
pub mod Distances
pub mod Stub
mod Tests
use concurrencylab.Common.{
  ℕ, suc, ◌-◌, Option, none, some, List, [], ◌∷◌, ◌++◌, length, get_or, set, replicate, Bool, true,
  false, ◌==◌, ◌&&◌, not, ltb, leb, if◌then◌else◌, update, for_from, add_size,
}
use concurrencylab.Channel.{ChannelStatus, success, closed_error}
use concurrencylab.Channel.Select.{Direction, send, recv}
use concurrencylab.Stress.Graph.{Distance, inf_distance, get_link_distance}
use concurrencylab.Stress.Router.{DistanceVector, take_in}

-- A pointer to a `distance_vector_t`: one of the four that router `owner` has allocated.
pub record Address : Type 0 where
  pub owner : ℕ
  pub slot : ℕ

abbrev pub address : ℕ → ℕ → Address
address owner slot = record { owner = owner; slot = slot }

-- The messages of the program; `none` is NULL.
abbrev pub Message : Type 0
Message = Option Address

-- `select_t` for such messages. Channel `i` below `num_channel` is `channels[i]`, and channel
-- `num_channel` is `done_channel`.
pub record Selection : Type 0 where
  pub channel : ℕ
  pub dir : Direction
  pub message : Message

-- Where a router stands: at `channel_select`; with a message received; before it reads a vector;
-- at the send to `completed_channel`; at the test whether it has sent to everyone; at its end; at
-- the failed assertion on the link, on `changed`, or on a status or an index; or at an access
-- outside its list.
pub data RouterPoint : Type 0 where
  selecting testing stopped no_link changed_late failed outside : RouterPoint
  received replying : Message → RouterPoint
  reading : Address → RouterPoint

pub record Router : Type 0 where
  pub vectors : ℕ → DistanceVector
  pub prev_prev_state : ℕ
  pub prev_state : ℕ
  pub curr_state : ℕ
  pub next_state : ℕ
  pub changed : Bool
  pub select_list : List Selection
  pub select_count : ℕ
  pub total_select_count : ℕ
  pub at : RouterPoint

-- `(i != index) && get_link_distance(index, i) != inf_distance`
abbrev pub is_neighbor : ℕ → List Distance → ℕ → ℕ → Bool
is_neighbor num_channel topology index i =
    not (i == index) && not (get_link_distance num_channel topology index i == inf_distance)

-- The loop that fills the vectors, for one of them.
unfoldable pub link_distances : ℕ → List Distance → ℕ → List Distance → List Distance
link_distances num_channel topology index =
    for_from num_channel 0 (λ i dist. set dist i (get_link_distance num_channel topology index i))

unfoldable pub first_vector : ℕ → List Distance → ℕ → ℕ → DistanceVector
first_vector num_channel topology index epoch = record {
  src = index;
  epoch = epoch;
  dist = link_distances num_channel topology index (replicate num_channel 0);
}

-- One round of the loop that adds the sends to the neighbours.
abbrev pub add_send : ℕ → List Distance → ℕ → Message → ℕ → List Selection → List Selection
add_send num_channel topology index message i list =
    if is_neighbor num_channel topology index i
    then list ++ record { channel = i; dir = send; message = message } ∷ []
    else list

-- The entries written to the block; their number is `select_count`, and `total_select_count` too.
unfoldable pub first_list : ℕ → List Distance → ℕ → Message → List Selection
first_list num_channel topology index message =
    for_from num_channel 0 (λ i. add_send num_channel topology index message i)
      (record { channel = num_channel; dir = recv; message = none }
        ∷ record { channel = index; dir = recv; message = none }
        ∷ [])

-- The loop that counts the neighbours.
unfoldable pub count_selects : ℕ → List Distance → ℕ → ℕ
count_selects num_channel topology index =
    for_from num_channel 0
      (λ i total. if is_neighbor num_channel topology index i then suc total else total) 2

-- The state before the loop. Vector `k` is the one with the first epoch `k`.
unfoldable pub router : ℕ → List Distance → ℕ → Router
router num_channel topology index = record {
  vectors = λ k. first_vector num_channel topology index k;
  prev_prev_state = 0;
  prev_state = 1;
  curr_state = 2;
  next_state = 3;
  changed = false;
  select_list = first_list num_channel topology index (some (address index 2));
  select_count = length (first_list num_channel topology index (some (address index 2)));
  total_select_count = count_selects num_channel topology index;
  at = selecting;
}

-- An entry outside the list does not occur.
abbrev pub no_selection : Selection
no_selection = record { channel = 0; dir = recv; message = none }

abbrev pub selection : List Selection → ℕ → Selection
selection list i = get_or list i no_selection

abbrev pub channel_at : List Selection → ℕ → ℕ
channel_at list i = (selection list i).channel

abbrev pub set_channel : List Selection → ℕ → ℕ → List Selection
set_channel list i c = set list i (record (selection list i) { channel = c })

abbrev pub set_message : List Selection → ℕ → Message → List Selection
set_message list i m = set list i (record (selection list i) { message = m })

-- The answer to the special message.
abbrev pub answer : ℕ → Router → Message
answer index r =
    if (r.select_count == 2) && not r.changed then some (address index r.curr_state) else none

unfoldable pub on_message : ℕ → Message → Router → Router
on_message index none r = record r { at = replying (answer index r) }
on_message index (some a) r = record r { at = reading a }

-- swap last element and selected element
abbrev pub swap_channels : List Selection → ℕ → ℕ → List Selection
swap_channels list last selected =
    let temp = channel_at list last in
    set_channel (set_channel list last (channel_at list selected)) selected temp

-- Behind a send by entry `selected`.
unfoldable pub on_send : ℕ → Router → Router
on_send selected r =
    let last = r.select_count - 1 in
    record r {
      select_list = swap_channels r.select_list last selected;
      select_count = last;
      at = testing;
    }

-- What becomes of the result of `take_in`.
unfoldable pub on_read : Option (Bool × DistanceVector) → Router → Router
on_read none r = record r { at = no_link }
on_read (some (changed, v)) r = record r {
  vectors = update r.vectors r.next_state v;
  changed = changed;
  at = testing;
}

-- The loop that makes the sends carry the current vector.
unfoldable pub reset_messages : ℕ → Message → List Selection → List Selection
reset_messages select_count m = for_from (select_count - 2) 2 (λ i list. set_message list i m)

-- Behind the sends of a round, if the vector has changed: the buffers are cycled.
unfoldable pub cycle_buffers : ℕ → Router → Router
cycle_buffers index r =
    let curr = r.next_state in
    let next = r.prev_prev_state in
    record r {
      curr_state = curr;
      next_state = next;
      prev_prev_state = r.prev_state;
      prev_state = r.curr_state;
      vectors = update r.vectors next (record (r.vectors next) {
        epoch = add_size (r.vectors curr).epoch 1;
        dist = (r.vectors curr).dist;
      });
      select_count = r.total_select_count;
      select_list = reset_messages r.total_select_count (some (address index curr)) r.select_list;
      changed = false;
      at = selecting;
    }

-- `check if we've sent to everyone`
unfoldable pub on_test : ℕ → Router → Router
on_test index r =
    if (r.select_count == 2) && r.changed
    then cycle_buffers index r
    else record r { at = selecting }

-- Behind a `CLOSED_ERROR` with index 0.
unfoldable pub on_closed : Router → Router
on_closed r = if r.changed then record r { at = changed_late } else record r { at = stopped }

-- Both entries of the swap are in the list.
abbrev pub in_list : ℕ → Router → Bool
in_list selected r =
    ltb 0 r.select_count
    && leb r.select_count (length r.select_list)
    && ltb selected (length r.select_list)

-- Behind a `SUCCESS` with some index.
unfoldable pub on_success : ℕ → Router → Router
on_success selected r =
    if selected == 0
    then record r { at = failed }
    else if selected == 1
    then record r { at = received (selection r.select_list 1).message }
    else if in_list selected r
    then on_send selected r
    else record r { at = outside }

-- Behind `channel_select`.
unfoldable pub on_return : ChannelStatus → ℕ → Router → Router
on_return success selected r = on_success selected r
on_return closed_error selected r = if selected == 0 then on_closed r else record r { at = failed }
on_return _ selected r = record r { at = failed }

-- Behind the send to `completed_channel`.
unfoldable pub on_answer : ChannelStatus → Router → Router
on_answer success r = record r { at = testing }
on_answer _ r = record r { at = failed }
