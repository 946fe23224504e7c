-- ===== src/Coordinator/Apply.antt =====
-- ApplyPeerResponse and RecordSendFailure of nerfnet/net/primary_radio_interface.cc.
use n_rf24_module.Prelude.{Bool, true, false, not, ◌&&◌, if◌then◌else◌, ◌==◌, bump}
use n_rf24_module.Frame.{
  FrameType, invalid, pending, grant, data_frame, ack, reset, other, MacFrame,
}
use n_rf24_module.Frame.Codec.{is_data}
use n_rf24_module.RadioInterface.Transmit.{commit_ack_locked}
use n_rf24_module.RadioInterface.Assembly.{consume_data_frame_locked}
use n_rf24_module.Coordinator.{idle, issue_grant, active_rx, Counters, Coordinator}

-- The switch on `rx.type`, after the locked region.
unfoldable pub apply_type : FrameType → Coordinator → Bool × Coordinator
apply_type ack c = (
  true,
  record c {
    counters = record (c.counters) { rx_ack_count = bump c.counters.rx_ack_count };
    state = if c.peer_has_pending then issue_grant else idle;
  },
)
apply_type pending c = (
  true,
  record c {
    counters = record (c.counters) { rx_pending_count = bump c.counters.rx_pending_count };
    state = issue_grant;
  },
)
apply_type data_frame c = (
  true,
  record c {
    counters = record (c.counters) { rx_data_count = bump c.counters.rx_data_count };
    state = if c.peer_has_pending then active_rx else idle;
  },
)
apply_type reset c = (false, c)
apply_type grant c = (false, c)
apply_type invalid c = (false, c)
apply_type (other n) c = (false, c)

-- The flag that is returned, and the new state.
unfoldable pub apply_peer_response : MacFrame → Coordinator → Bool × Coordinator
unfolding apply_type
apply_peer_response rx c =
    let committed = commit_ack_locked rx.ack c.radio in
    let (consumed, r) = consume_data_frame_locked rx committed in
    if is_data rx.type && not consumed
    then (false, record c { radio = r })
    else apply_type rx.type (record c {
      radio = if is_data rx.type then r else committed;
      peer_has_pending = not (rx.pending == 0);
    })

-- The counter of the frame's type.
unfoldable pub record_send_failure : FrameType → Counters → Counters
record_send_failure pending k = record k {
  tx_send_fail_pending_count = bump k.tx_send_fail_pending_count;
}
record_send_failure grant k = record k {
  tx_send_fail_grant_count = bump k.tx_send_fail_grant_count;
}
record_send_failure data_frame k = record k {
  tx_send_fail_data_count = bump k.tx_send_fail_data_count;
}
record_send_failure ack k = record k { tx_send_fail_ack_count = bump k.tx_send_fail_ack_count }
record_send_failure reset k = record k {
  tx_send_fail_reset_count = bump k.tx_send_fail_reset_count;
}
record_send_failure invalid k = k
record_send_failure (other n) k = k
