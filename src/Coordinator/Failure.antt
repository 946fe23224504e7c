-- ===== src/Coordinator/Failure.antt =====
-- HandleTransactionFailure of nerfnet/net/primary_radio_interface.cc.
use n_rf24_module.Prelude.{◌+◌, ◌*◌, Bool, true, ◌||◌, ltb, leb, if◌then◌else◌, u64}
use n_rf24_module.Driver.{Device}
use n_rf24_module.Coordinator.{
  reset_sync, FailureType, send, timeout, protocol, Coordinator, disconnect_failure_threshold,
}

-- The switch on `failure_type`.
unfoldable pub count_failure : FailureType → Coordinator → Coordinator
count_failure send c = record c {
  send_fail_streak = c.send_fail_streak + 1;
  timeout_fail_streak = 0;
}
count_failure timeout c = record c {
  timeout_fail_streak = c.timeout_fail_streak + 1;
  send_fail_streak = 0;
}
count_failure protocol c = record c {
  send_fail_streak = c.send_fail_streak + 1;
  timeout_fail_streak = c.timeout_fail_streak + 1;
}

abbrev pub disconnect_now : Coordinator → Bool
disconnect_now c =
    leb disconnect_failure_threshold c.send_fail_streak
    || leb (disconnect_failure_threshold + 2) c.timeout_fail_streak
    || leb (disconnect_failure_threshold + 3) (c.send_fail_streak + c.timeout_fail_streak)

-- The clock is read only where the node disconnects.
module _ {W : Type 0} (dev : Device W) where
  unfoldable pub handle_transaction_failure : FailureType → Coordinator → W → Coordinator × W
  unfolding count_failure
  handle_transaction_failure failure_type c0 w =
      let c1 = count_failure failure_type c0 in
      let c = record c1 { poll_fail_count = c1.send_fail_streak + c1.timeout_fail_streak } in
      if disconnect_now c
      then (let (now_us, w1) = dev.time_now_us w in
          (
            record c {
              disconnected = true;
              connection_reset_required = true;
              state = reset_sync;
              next_retry_time_us = u64 (now_us + c.disconnect_backoff_us);
            },
            w1,
          ))
      else (let doubled = u64 (c.current_poll_interval_us * 2) in
          (
            record c {
              current_poll_interval_us = if ltb 1000000 doubled then 1000000 else doubled;
            },
            w,
          ))
