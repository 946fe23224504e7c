-- ===== src/Peer.antt =====
-- The state of `class SecondaryRadioInterface` (nerfnet/net/secondary_radio_interface.h). The
-- children hold its methods (nerfnet/net/secondary_radio_interface.cc) and what they keep.
pub mod Request
pub mod Loop
pub mod Valid
pub mod Budget
pub mod Returns
use n_rf24_module.Prelude.{ℕ, Bool, false}
use n_rf24_module.RadioInterface.{RadioInterface, initial}

-- The `uint64_t` counters that are only printed.
pub record PeerCounters : Type 0 where
  pub idle_log_counter : ℕ
  pub tx_pending_count : ℕ
  pub tx_data_count : ℕ
  pub tx_ack_count : ℕ
  pub tx_reset_count : ℕ
  pub rx_pending_count : ℕ
  pub rx_grant_count : ℕ
  pub rx_ack_count : ℕ
  pub rx_data_count : ℕ
  pub rx_reset_count : ℕ
  pub tx_send_fail_count : ℕ
  pub tx_send_fail_pending_count : ℕ
  pub tx_send_fail_grant_count : ℕ
  pub tx_send_fail_data_count : ℕ
  pub tx_send_fail_ack_count : ℕ
  pub tx_send_fail_reset_count : ℕ

abbrev pub no_peer_counts : PeerCounters
no_peer_counts = record {
  idle_log_counter = 0;
  tx_pending_count = 0;
  tx_data_count = 0;
  tx_ack_count = 0;
  tx_reset_count = 0;
  rx_pending_count = 0;
  rx_grant_count = 0;
  rx_ack_count = 0;
  rx_data_count = 0;
  rx_reset_count = 0;
  tx_send_fail_count = 0;
  tx_send_fail_pending_count = 0;
  tx_send_fail_grant_count = 0;
  tx_send_fail_data_count = 0;
  tx_send_fail_ack_count = 0;
  tx_send_fail_reset_count = 0;
}

pub record Peer : Type 0 where
  pub radio : RadioInterface
  pub counters : PeerCounters
  pub grant_budget : ℕ
  pub granted_to_send : Bool
  pub last_stat_print_us : ℕ

-- What the constructor leaves.
abbrev pub new_peer : Peer
new_peer = record {
  radio = initial;
  counters = no_peer_counts;
  grant_budget = 0;
  granted_to_send = false;
  last_stat_print_us = 0;
}
