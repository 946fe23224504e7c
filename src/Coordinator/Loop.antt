-- ===== src/Coordinator/Loop.antt =====
-- Run of nerfnet/net/primary_radio_interface.cc: one iteration of its loop.
use n_rf24_module.Prelude.{
  ℕ, ◌+◌, ◌-◌, ◌*◌, ◌^◌, Bool, true, false, not, ◌&&◌, List, Option, none, some, ltb, leb, ◌==◌,
  if◌then◌else◌, u64, bump,
}
use n_rf24_module.Driver.{Device}
use n_rf24_module.Coordinator.{
  CoordinatorState, idle, FailureType, ExchangeResult, success, send_failure, timeout_failure,
  protocol_failure, Coordinator, arrive, idle_poll_interval_us, active_poll_interval_us,
  initial_disconnect_backoff_us, max_disconnect_backoff_us,
}
use n_rf24_module.Coordinator.Failure.{handle_transaction_failure}
use n_rf24_module.Coordinator.Exchange.{connection_reset, perform_exchange}

-- What a success resets.
abbrev pub recovered : Coordinator → Coordinator
recovered c = record c {
  poll_fail_count = 0;
  send_fail_streak = 0;
  timeout_fail_streak = 0;
  disconnected = false;
  disconnect_backoff_us = initial_disconnect_backoff_us;
  next_retry_time_us = 0;
}

abbrev pub reconnected : Coordinator → Coordinator
reconnected c = record (recovered c) { connection_reset_required = false; state = idle }

abbrev pub count_reset_failure : Coordinator → Coordinator
count_reset_failure c = record c {
  counters = record (c.counters) {
    reset_fail_log_counter = bump c.counters.reset_fail_log_counter;
  };
}

abbrev pub is_idle : CoordinatorState → Bool
is_idle idle = true
is_idle _ = false

-- `current_poll_interval_us_` as it is set before the sleep.
abbrev pub poll_interval : Coordinator → ℕ
poll_interval c =
    if is_idle c.state && not c.peer_has_pending
    then idle_poll_interval_us
    else active_poll_interval_us

-- The backoff doubles up to one second.
abbrev pub back_off : ℕ → Coordinator → Coordinator
back_off now_us c =
    let doubled = u64 (c.disconnect_backoff_us * 2) in
    record c {
      next_retry_time_us = u64 (now_us + c.disconnect_backoff_us);
      disconnect_backoff_us =
          if ltb max_disconnect_backoff_us doubled then max_disconnect_backoff_us else doubled;
    }

-- The statistics are printed once a second.
abbrev pub stat_time : ℕ → ℕ → ℕ
stat_time now_us last =
    let since = if last == 0 then now_us else last in
    if leb 1000000 (u64 (now_us + 2 ^ 64 - since)) then now_us else since

module _ {W : Type 0} (dev : Device W) where
  -- `if (disconnected_)`, once the retry time has come.
  unfoldable pub retry_connection : ℕ → List (List ℕ) → Coordinator → W → Option (Coordinator × W)
  retry_connection fuel on_air c w = elim (connection_reset dev fuel on_air c w) [
    | none ↦ none
    | some (true, c1, w1) ↦ some (reconnected c1, w1)
    | some (false, c1, w1) ↦
        let (now_us, w2) = dev.time_now_us w1 in some (back_off now_us (count_reset_failure c1), w2)
  ]

  -- `if (connection_reset_required_)`
  unfoldable pub require_connection : ℕ → List (List ℕ) → Coordinator → W → Option (Coordinator × W)
  require_connection fuel on_air c w = elim (connection_reset dev fuel on_air c w) [
    | none ↦ none
    | some (true, c1, w1) ↦ some (reconnected c1, w1)
    | some (false, c1, w1) ↦
        some (handle_transaction_failure dev FailureType.protocol (count_reset_failure c1) w1)
  ]

  -- The switch on the result of PerformExchange.
  unfoldable pub settle : ExchangeResult → Coordinator → W → Coordinator × W
  settle success c w = (recovered c, w)
  settle send_failure c w = handle_transaction_failure dev FailureType.send c w
  settle timeout_failure c w = handle_transaction_failure dev FailureType.timeout c w
  settle protocol_failure c w = handle_transaction_failure dev FailureType.protocol c w

  -- The exchange and the statistics.
  unfoldable pub exchange_and_settle :
      ℕ → List (List ℕ) → List (List ℕ) → Coordinator → W → Option (Coordinator × W)
  exchange_and_settle fuel arrivals on_air c w =
      elim (perform_exchange dev fuel arrivals on_air c w) [
        | none ↦ none
        | some (result, c1, w1) ↦
            let (c2, w2) = settle result c1 w1 in
            let (now_us, w3) = dev.time_now_us w2 in
            some (record c2 { last_stat_print_us = stat_time now_us c2.last_stat_print_us }, w3)
      ]

  -- `on_air` are the packets that the tunnel thread queues while frames are on the air, or while the
  -- node sleeps until its next retry.
  unfoldable pub run_iteration :
      ℕ → List (List ℕ) → List (List ℕ) → Coordinator → W → Option (Coordinator × W)
  run_iteration fuel arrivals on_air c w0 =
      let (now_us, w) = dev.time_now_us w0 in
      if c.disconnected
      then (if ltb now_us c.next_retry_time_us
          then some (record c { radio = arrive on_air c.radio }, dev.sleep_us 1000 w)
          else retry_connection fuel on_air c w)
      else (let c1 = record c { current_poll_interval_us = poll_interval c } in
          let w1 = dev.sleep_us c1.current_poll_interval_us w in
          if c1.connection_reset_required
          then require_connection fuel on_air c1 w1
          else exchange_and_settle fuel arrivals on_air c1 w1)
