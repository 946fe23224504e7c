-- ===== src/Examples/Systems.antt =====
-- The coordinator and the peer against each other, at a concrete history.
use n_rf24_module.Prelude.{◌≡◌, refl, List, [], ◌∷◌, All}
use n_rf24_module.Frame.Codec.{encode_mac_frame, decode_mac_frame, from_byte, to_byte}
use n_rf24_module.Packet.{is_valid_ip_packet}
use n_rf24_module.RadioInterface.Sequence.{next_seq}
use n_rf24_module.RadioInterface.Transmit.{build_next_data_frame_locked, commit_ack_locked}
use n_rf24_module.RadioInterface.Assembly.{
  consume_data_frame_locked, accept_data_frame, write_tunnel,
}
use n_rf24_module.Session.{tunnel_read}
use n_rf24_module.Session.Delivery.{Delivers}
use n_rf24_module.Coordinator.{new_coordinator}
use n_rf24_module.Coordinator.Choose.{choose_in, choose_coordinator_tx_frame}
use n_rf24_module.Coordinator.Apply.{apply_type, apply_peer_response}
use n_rf24_module.Peer.Request.{apply_request_type, apply_coordinator_request, choose_peer_response}
use n_rf24_module.Coordinator.Exchange.{cleared}
use n_rf24_module.Coordinator.Loop.{reconnected}
use n_rf24_module.Peer.Loop.{peer_cleared}
use n_rf24_module.System.{
  System, fresh_system, here, there, request_lost, answer_lost, both_heard, Event,
  coordinator_reads, peer_reads, exchanges, exchange, system_step, system_run,
}
use n_rf24_module.System.Delivery.{EventIsBytes, system_run-Delivers}
use n_rf24_module.System.Accepted.{Succeeds, system_run-Succeeds}
use n_rf24_module.Examples.Packets.{ping, bare, ping_bytes, bare_bytes}

-- Both nodes have a packet; a request and an answer are lost, then all is heard: two fragments to
-- the peer, a Grant, and one fragment back.
abbrev history : List Event
history =
    coordinator_reads ping
    ∷ peer_reads bare
    ∷ exchanges request_lost
    ∷ exchanges answer_lost
    ∷ exchanges both_heard
    ∷ exchanges both_heard
    ∷ exchanges both_heard
    ∷ exchanges both_heard
    ∷ []

history-IsBytes : All EventIsBytes history
history-IsBytes = (ping_bytes, (bare_bytes, (tt, (tt, (tt, (tt, (tt, (tt, tt))))))))

system_run-Delivers_example :
    let s = system_run history fresh_system in
    Delivers (here s) (there s) × Delivers (there s) (here s)
system_run-Delivers_example = system_run-Delivers history history-IsBytes

system_run-Succeeds_example : Succeeds (system_run history fresh_system)
system_run-Succeeds_example = system_run-Succeeds history history-IsBytes

history_delivers :
    let s = system_run history fresh_system in
    (s.peer.radio.tunnel_written ≡ ping ∷ []) × (s.coordinator.radio.tunnel_written ≡ bare ∷ [])
unfolding system_run system_step exchange tunnel_read is_valid_ip_packet
    build_next_data_frame_locked commit_ack_locked consume_data_frame_locked encode_mac_frame
    decode_mac_frame from_byte to_byte accept_data_frame write_tunnel next_seq new_coordinator
    choose_in choose_coordinator_tx_frame apply_type apply_peer_response apply_request_type
    apply_coordinator_request choose_peer_response
history_delivers = (refl, refl)

-- Both nodes after a ConnectionReset that succeeds.
abbrev reset_both : System → System
reset_both s = record s {
  coordinator = reconnected (cleared s.coordinator);
  peer = peer_cleared s.peer;
}

-- The first fragment of a packet is acknowledged, then the connection is reset. The sender's queue
-- keeps only the rest of the packet, the receiver has cleared the front: the packet is sent to its
-- end and dropped.
reset_loses_packet :
    let s =
      reset_both (system_run (coordinator_reads ping ∷ exchanges both_heard ∷ []) fresh_system) in
    let t = system_run (exchanges both_heard ∷ []) s in
    (t.coordinator.radio.read_buffer ≡ []) × (t.peer.radio.tunnel_written ≡ [])
unfolding system_run system_step exchange tunnel_read is_valid_ip_packet
    build_next_data_frame_locked commit_ack_locked consume_data_frame_locked encode_mac_frame
    decode_mac_frame from_byte to_byte accept_data_frame write_tunnel next_seq new_coordinator
    choose_in choose_coordinator_tx_frame apply_type apply_peer_response apply_request_type
    apply_coordinator_request choose_peer_response
reset_loses_packet = (refl, refl)
