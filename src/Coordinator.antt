-- ===== src/Coordinator.antt =====
-- The state of `class PrimaryRadioInterface` (nerfnet/net/primary_radio_interface.h). The children
-- hold its methods (nerfnet/net/primary_radio_interface.cc) and what they keep. Members of type
-- `int` stand as numbers: the loop keeps them small.
pub mod Choose
pub mod Apply
pub mod Failure
pub mod Exchange
pub mod Loop
pub mod Valid
pub mod Frames
pub mod Steps
pub mod Kept
pub mod Returns
pub mod Resets
pub mod Iteration
pub mod Disconnect
use n_rf24_module.Prelude.{ℕ, Bool, true, false, List, [], ◌∷◌, ◌++◌}
use n_rf24_module.RadioInterface.{RadioInterface, initial}
use n_rf24_module.RadioInterface.Transmit.{push_back}

pub data CoordinatorState : Type 0 where
  reset_sync idle issue_grant active_rx : CoordinatorState

pub data FailureType : Type 0 where
  send timeout protocol : FailureType

pub data ExchangeResult : Type 0 where
  success send_failure timeout_failure protocol_failure : ExchangeResult

abbrev pub default_burst_grant : ℕ
default_burst_grant = 3

abbrev pub idle_poll_interval_us : ℕ
idle_poll_interval_us = 20000

abbrev pub active_poll_interval_us : ℕ
active_poll_interval_us = 1000

abbrev pub post_data_exchange_gap_us : ℕ
post_data_exchange_gap_us = 250

abbrev pub fair_data_burst_limit : ℕ
fair_data_burst_limit = 2

abbrev pub disconnect_failure_threshold : ℕ
disconnect_failure_threshold = 5

abbrev pub initial_disconnect_backoff_us : ℕ
initial_disconnect_backoff_us = 100000

abbrev pub max_disconnect_backoff_us : ℕ
max_disconnect_backoff_us = 1000000

-- The `uint64_t` counters that are only printed.
pub record Counters : Type 0 where
  pub tx_pending_count : ℕ
  pub tx_grant_count : ℕ
  pub tx_data_count : ℕ
  pub rx_ack_count : ℕ
  pub rx_pending_count : ℕ
  pub rx_data_count : ℕ
  pub tx_send_fail_count : ℕ
  pub tx_send_fail_pending_count : ℕ
  pub tx_send_fail_grant_count : ℕ
  pub tx_send_fail_data_count : ℕ
  pub tx_send_fail_ack_count : ℕ
  pub tx_send_fail_reset_count : ℕ
  pub rx_timeout_count : ℕ
  pub idle_log_counter : ℕ
  pub fail_log_counter : ℕ
  pub reset_fail_log_counter : ℕ

abbrev pub no_counts : Counters
no_counts = record {
  tx_pending_count = 0;
  tx_grant_count = 0;
  tx_data_count = 0;
  rx_ack_count = 0;
  rx_pending_count = 0;
  rx_data_count = 0;
  tx_send_fail_count = 0;
  tx_send_fail_pending_count = 0;
  tx_send_fail_grant_count = 0;
  tx_send_fail_data_count = 0;
  tx_send_fail_ack_count = 0;
  tx_send_fail_reset_count = 0;
  rx_timeout_count = 0;
  idle_log_counter = 0;
  fail_log_counter = 0;
  reset_fail_log_counter = 0;
}

pub record Coordinator : Type 0 where
  pub radio : RadioInterface
  pub counters : Counters
  pub peer_grant_budget : ℕ
  pub poll_interval_us : ℕ
  pub current_poll_interval_us : ℕ
  pub poll_fail_count : ℕ
  pub send_fail_streak : ℕ
  pub timeout_fail_streak : ℕ
  pub disconnected : Bool
  pub disconnect_backoff_us : ℕ
  pub next_retry_time_us : ℕ
  pub state : CoordinatorState
  pub connection_reset_required : Bool
  pub peer_has_pending : Bool
  pub last_tx_was_data : Bool
  pub consecutive_local_data_frames : ℕ
  pub last_stat_print_us : ℕ

-- What the constructor leaves.
unfoldable pub new_coordinator : ℕ → Coordinator
new_coordinator poll_interval_us = record {
  radio = initial;
  counters = no_counts;
  peer_grant_budget = 0;
  poll_interval_us = poll_interval_us;
  current_poll_interval_us = poll_interval_us;
  poll_fail_count = 0;
  send_fail_streak = 0;
  timeout_fail_streak = 0;
  disconnected = false;
  disconnect_backoff_us = initial_disconnect_backoff_us;
  next_retry_time_us = 0;
  state = reset_sync;
  connection_reset_required = true;
  peer_has_pending = false;
  last_tx_was_data = false;
  consecutive_local_data_frames = 0;
  last_stat_print_us = 0;
}

-- The packets that the tunnel thread queues while read_buffer_mutex_ is free.
abbrev pub arrive : List (List ℕ) → RadioInterface → RadioInterface
arrive [] r = r
arrive (p ∷ ps) r = arrive ps (push_back p r)
