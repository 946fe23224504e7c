-- ===== src/Peer/Request.antt =====
-- ApplyCoordinatorRequest, ChoosePeerResponse, RecordRx, RecordTx and RecordSendFailure of
-- nerfnet/net/secondary_radio_interface.cc.
use n_rf24_module.Prelude.{
  ℕ, ◌-◌, Bool, true, false, not, ◌&&◌, List, ltb, ◌==◌, if◌then◌else◌, value_or, bump,
}
use n_rf24_module.Frame.{
  FrameType, invalid, pending, grant, data_frame, ack, reset, other, MacFrame, empty_frame,
}
use n_rf24_module.RadioInterface.{no_seq}
use n_rf24_module.RadioInterface.Transmit.{build_next_data_frame_locked, commit_ack_locked}
use n_rf24_module.RadioInterface.Assembly.{consume_data_frame_locked}
use n_rf24_module.Coordinator.{arrive}
use n_rf24_module.Coordinator.Choose.{local_has_data, flag}
use n_rf24_module.Peer.{PeerCounters, Peer}

abbrev pub revoked : Peer → Peer
revoked p = record p { granted_to_send = false; grant_budget = 0 }

-- The switch on `request.type`, after CommitAckLocked.
unfoldable pub apply_request_type : FrameType → MacFrame → Peer → Bool × Peer
apply_request_type data_frame request p =
    let (consumed, r) = consume_data_frame_locked request p.radio in
    if not consumed
    then (false, record p { radio = r })
    else (true, revoked (record p { radio = r }))
apply_request_type grant request p =
    (true, record p { grant_budget = request.arg; granted_to_send = ltb 0 request.arg })
apply_request_type pending request p = (true, revoked p)
apply_request_type ack request p = (true, revoked p)
apply_request_type reset request p = (false, p)
apply_request_type invalid request p = (false, p)
apply_request_type (other n) request p = (false, p)

-- The flag that is returned, and the new state.
unfoldable pub apply_coordinator_request : MacFrame → Peer → Bool × Peer
apply_coordinator_request request p =
    apply_request_type request.type request
      (record p { radio = commit_ack_locked request.ack p.radio })

-- The budget after a DATA frame.
abbrev pub spend : Peer → Peer
spend p = record p {
  grant_budget = p.grant_budget - 1;
  granted_to_send = if p.grant_budget - 1 == 0 then false else p.granted_to_send;
}

-- The second locked region, and the statements behind it.
abbrev pub answer_data : Peer → Bool × MacFrame × Peer
answer_data p =
    let (built, tx, r) = build_next_data_frame_locked p.radio in
    if not built
    then (false, tx, record p { radio = r })
    else (true, record tx { pending = 1 }, spend (record p { radio = r }))

-- The flag that is returned, what is left in `tx`, and the new state. `arrivals` are the packets that
-- the tunnel thread queues between the two locked regions.
unfoldable pub choose_peer_response : List (List ℕ) → Peer → Bool × MacFrame × Peer
choose_peer_response arrivals p0 =
    let has_data = local_has_data p0.radio in
    let p = record p0 { radio = arrive arrivals p0.radio } in
    let tx = record empty_frame {
      ack = value_or p0.radio.last_rx_seq no_seq;
      pending = flag has_data;
    } in
    if p.granted_to_send && ltb 0 p.grant_budget && has_data
    then answer_data p
    else if has_data
    then (true, record tx { type = FrameType.pending; seq = 0; arg = 0 }, p)
    else (true, record tx { type = FrameType.ack; seq = 0; arg = 0 }, p)

unfoldable pub record_rx : FrameType → PeerCounters → PeerCounters
record_rx pending k = record k { rx_pending_count = bump k.rx_pending_count }
record_rx grant k = record k { rx_grant_count = bump k.rx_grant_count }
record_rx data_frame k = record k { rx_data_count = bump k.rx_data_count }
record_rx ack k = record k { rx_ack_count = bump k.rx_ack_count }
record_rx reset k = record k { rx_reset_count = bump k.rx_reset_count }
record_rx invalid k = k
record_rx (other n) k = k

unfoldable pub record_tx : FrameType → PeerCounters → PeerCounters
record_tx pending k = record k { tx_pending_count = bump k.tx_pending_count }
record_tx data_frame k = record k { tx_data_count = bump k.tx_data_count }
record_tx ack k = record k { tx_ack_count = bump k.tx_ack_count }
record_tx reset k = record k { tx_reset_count = bump k.tx_reset_count }
record_tx grant k = k
record_tx invalid k = k
record_tx (other n) k = k

unfoldable pub count_peer_send_failure : FrameType → PeerCounters → PeerCounters
count_peer_send_failure pending k = record k {
  tx_send_fail_pending_count = bump k.tx_send_fail_pending_count;
}
count_peer_send_failure grant k = record k {
  tx_send_fail_grant_count = bump k.tx_send_fail_grant_count;
}
count_peer_send_failure data_frame k = record k {
  tx_send_fail_data_count = bump k.tx_send_fail_data_count;
}
count_peer_send_failure ack k = record k { tx_send_fail_ack_count = bump k.tx_send_fail_ack_count }
count_peer_send_failure reset k = record k {
  tx_send_fail_reset_count = bump k.tx_send_fail_reset_count;
}
count_peer_send_failure invalid k = k
count_peer_send_failure (other n) k = k
