-- ===== src/Driver/Send.antt =====
-- RecoverAfterTransmitFailure and Send of nerfnet/net/radio_interface.cc.
use n_rf24_module.Prelude.{
  ℕ, zero, suc, ◌+◌, not, List, none, some, ltb, leb, if◌then◌else◌, u64, length,
}
use n_rf24_module.Frame.{max_packet_size}
use n_rf24_module.Driver.{
  RequestResult, success, malformed, transmit_error, Device, Io, tx_standby_timeout_us,
  tx_failure_recovery_gap_us,
}

module _ {W : Type 0} (dev : Device W) where
  unfoldable pub recover_after_transmit_failure : W → W
  recover_after_transmit_failure w = dev.sleep_us tx_failure_recovery_gap_us (dev.flush_tx w)

  -- The loop `while (!radio_.txStandBy())`, one unit of fuel a round.
  unfoldable pub stand_by_loop : ℕ → ℕ → Io W RequestResult
  unfolding recover_after_transmit_failure
  stand_by_loop zero deadline w = none
  stand_by_loop (suc fuel) deadline w =
      let (ready, w1) = dev.tx_stand_by w in
      let (now, w2) = dev.time_now_us w1 in
      let again = stand_by_loop fuel deadline (dev.sleep_us 50 w2) in
      if ready
      then some (success, w1)
      else if leb deadline now
      then some (transmit_error, recover_after_transmit_failure w2)
      else again

  unfoldable pub send : ℕ → List ℕ → Io W RequestResult
  unfolding recover_after_transmit_failure
  send fuel request w =
      let w0 = dev.stop_listening w in
      if ltb max_packet_size (length request)
      then some (malformed, w0)
      else (let (written, w1) = dev.write request w0 in
          if not written
          then some (transmit_error, recover_after_transmit_failure w1)
          else (let (now, w2) = dev.time_now_us w1 in
              stand_by_loop fuel (u64 (now + tx_standby_timeout_us)) w2))
