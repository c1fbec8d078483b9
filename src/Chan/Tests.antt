-- ===== src/Chan/Tests.antt =====
-- A message of two bytes through a channel, and the theorems at it.
use treasure_house.Base.{ℕ, ◌+◌, ◌≡◌, refl, [], ◌∷◌, ◌++◌}
use treasure_house.Base.Run.{ok}
use treasure_house.Chan.{Waiters, goes_back, channel_open, channel_write}
use treasure_house.Chan.Delivered.{
  SameAll, State, Reach, writes, here, next, held, filled, write-empty,
}
use treasure_house.Chan.Kept.{start, OnePasses, delivered_in_order, one_side_passes}

-- How often someone was woken.
abbrev woken : Waiters → ℕ → ℕ
woken who count = count + 1

abbrev zeros : ℕ → ℕ
zeros k = 0

abbrev message : ℕ → ℕ
message k = k + 7

abbrev full_state : State ℕ
full_state = record {
  chan = record {
    data_buf = filled woken 2 zeros 0 message;
    block = 2;
    data_cap = 1;
    elem_num = 1;
    elem_size = 2;
    send_idx = 0;
    recv_idx = 0;
    closed = 0;
    world = 1;
  };
  sent = message ∷ [];
  got = [];
}

one_written : Reach woken (start woken 2 zeros 0) full_state
unfolding channel_open
one_written = next here (writes message full_state.chan (write-empty woken 2 zeros 0 message))

delivered_in_order_example :
    SameAll 2 full_state.sent (full_state.got ++ held full_state.chan.elem_num full_state.chan)
delivered_in_order_example = delivered_in_order woken 2 zeros 0 full_state one_written

one_side_passes_example : OnePasses woken 2 full_state zeros
one_side_passes_example = one_side_passes woken 2 zeros 0 full_state one_written zeros

full_waits : channel_write woken zeros full_state.chan ≡ ok goes_back
unfolding channel_write
full_waits = refl
