-- ===== src/Channel/Select.antt =====
-- `select_t` and `channel_select` of concurrencylab-edit/channel.h and channel.c.
use concurrencylab.Common.{ℕ, List, Pointer}
use concurrencylab.Channel.{ChannelStatus, success}

pub data Direction : Type 0 where
  send recv : Direction

-- `select_t`, with a channel's address
pub record Select : Type 0 where
  pub channel : Pointer
  pub dir : Direction
  pub message : Pointer

-- The status, the list and `*selected_index` behind the call. The body is a
-- stub, and does not look at the entries.
unfoldable pub channel_select {ℓ} :
    {Entry : Type ℓ} → List Entry → ℕ → ℕ → ChannelStatus × List Entry × ℕ
channel_select channel_list channel_count selected_index = (success, channel_list, selected_index)
