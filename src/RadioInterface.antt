-- ===== src/RadioInterface.antt =====
-- The state of `class RadioInterface` (nerfnet/net/radio_interface.h) that its methods change:
-- the queue that the tunnel thread fills, the fragment in flight, and the reassembly of what the
-- other node sends. The children hold the methods and what they keep.
pub mod Sequence
pub mod Transmit
pub mod Assembly
pub mod Valid
pub mod Fragment
use n_rf24_module.Prelude.{ℕ, Bool, false, List, [], Option, none, All}

abbrev pub max_seq : ℕ
max_seq = 31

abbrev pub no_seq : ℕ
no_seq = 0

-- `tunnel_written` is no member: it lists the packets handed to `write(tunnel_fd_, ...)`, oldest
-- first. `frame_buffer` holds bytes, `read_buffer` whole packets, the front one less what the other
-- node has acknowledged.
pub record RadioInterface : Type 0 where
  pub read_buffer : List (List ℕ)
  pub frame_buffer : List ℕ
  pub next_tx_seq : ℕ
  pub tx_in_flight : Bool
  pub tx_inflight_seq : ℕ
  pub tx_inflight_bytes_left : ℕ
  pub tx_inflight_payload : List ℕ
  pub last_rx_seq : Option ℕ
  pub tunnel_written : List (List ℕ)

-- What the constructor leaves.
abbrev pub initial : RadioInterface
initial = record {
  read_buffer = [];
  frame_buffer = [];
  next_tx_seq = 1;
  tx_in_flight = false;
  tx_inflight_seq = 0;
  tx_inflight_bytes_left = 0;
  tx_inflight_payload = [];
  last_rx_seq = none;
  tunnel_written = [];
}

-- The first locked region of `PrimaryRadioInterface::ConnectionReset` and of
-- `SecondaryRadioInterface::HandleReset`, the same statements in both.
abbrev pub reset_link : RadioInterface → RadioInterface
reset_link r = record r {
  next_tx_seq = 1;
  tx_in_flight = false;
  tx_inflight_seq = 0;
  tx_inflight_bytes_left = 0;
  tx_inflight_payload = [];
  last_rx_seq = none;
  frame_buffer = [];
}
