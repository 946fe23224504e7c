-- ===== src/Examples/Resets.antt =====
-- Connections that are lost and reset, and queues that are emptied, at concrete histories.
use n_rf24_module.Prelude.{◌≡◌, ◌⊎◌, refl, true, false, if◌then◌else◌, List, [], ◌∷◌, All, arith}
use n_rf24_module.Frame.Codec.{encode_mac_frame, decode_mac_frame, from_byte, to_byte}
use n_rf24_module.Packet.{is_valid_ip_packet}
use n_rf24_module.Packet.Keep.{IsIp, keep_ip}
use n_rf24_module.RadioInterface.Sequence.{next_seq}
use n_rf24_module.RadioInterface.Transmit.{build_next_data_frame_locked, commit_ack_locked}
use n_rf24_module.RadioInterface.Assembly.{
  consume_data_frame_locked, accept_data_frame, write_tunnel,
}
use n_rf24_module.Session.{tunnel_read}
use n_rf24_module.Frame.{pending, data_frame}
use n_rf24_module.Coordinator.{idle, new_coordinator}
use n_rf24_module.Coordinator.Choose.{choose_in, choose_coordinator_tx_frame, local_has_data}
use n_rf24_module.Coordinator.Apply.{apply_type, apply_peer_response}
use n_rf24_module.Peer.Request.{apply_request_type, apply_coordinator_request, choose_peer_response}
use n_rf24_module.System.{
  fresh_system, peer_reads, here, there, request_lost, answer_lost, both_heard, Event,
  coordinator_reads, exchanges, exchange, system_step, system_run,
}
use n_rf24_module.System.Reads.{coordinator_packets, peer_packets}
use n_rf24_module.System.Delivery.{EventIsBytes}
use n_rf24_module.System.Accepted.{Succeeds}
use n_rf24_module.System.Reset.{
  start_system, reset_connection, radio_turn, Turn, event, gives_up, take_turn, history,
}
use n_rf24_module.System.Reconnect.{TurnIsBytes}
use n_rf24_module.System.Epoch.{Resumes, history-Resumes, history-Succeeds}
use n_rf24_module.System.Written.{IsRest, coordinator_takes, peer_takes, history-Writes}
use n_rf24_module.System.Quiet.{history-quiet}
use n_rf24_module.System.Drain.{work}
use n_rf24_module.System.Drained.{heard_exchanges, system_run-Drains}
use n_rf24_module.Session.Progress.{fragments}
use n_rf24_module.Examples.Packets.{ping, bare, ping_bytes, bare_bytes}

-- The first reset is heard by the peer only, the second one by both; the coordinator's packet is sent
-- in part, then the connection is given up.
abbrev lossy : List Turn
lossy =
    event (coordinator_reads ping)
    ∷ event (exchanges answer_lost)
    ∷ event (exchanges both_heard)
    ∷ event (exchanges both_heard)
    ∷ gives_up
    ∷ []

lossy-IsBytes : All TurnIsBytes lossy
lossy-IsBytes = (ping_bytes, (tt, (tt, (tt, (tt, tt)))))

-- A packet that is sent after the next reset.
abbrev after : List Event
after =
    coordinator_reads bare
    ∷ exchanges both_heard
    ∷ exchanges request_lost
    ∷ exchanges both_heard
    ∷ exchanges both_heard
    ∷ []

after-IsBytes : All EventIsBytes after
after-IsBytes = (bare_bytes, (tt, (tt, (tt, (tt, tt)))))

lost : (history lossy start_system).coordinator.connection_reset_required ≡ true
unfolding history take_turn
lost = refl

history-Resumes_example :
    let s = history lossy start_system in
    let u = system_run after (radio_turn both_heard s) in
    Resumes (here s) (there s) (coordinator_packets after) (here u) (there u)
    × Resumes (there s) (here s) (peer_packets after) (there u) (here u)
history-Resumes_example = history-Resumes lossy after lossy-IsBytes after-IsBytes lost

history-Succeeds_example :
    let s = history lossy start_system in
    let t = radio_turn both_heard s in
    ((s.coordinator.connection_reset_required ≡ true) ⊎ Succeeds s)
    × (t.coordinator.connection_reset_required ≡ false)
    × Succeeds t
history-Succeeds_example = history-Succeeds lossy lossy-IsBytes

history-Writes_example :
    let s = history lossy start_system in
    All IsIp s.peer.radio.tunnel_written
    × All (IsRest (coordinator_takes lossy)) s.peer.radio.tunnel_written
    × All IsIp s.coordinator.radio.tunnel_written
    × All (IsRest (peer_takes lossy)) s.coordinator.radio.tunnel_written
history-Writes_example = history-Writes lossy lossy-IsBytes

-- The rest of the first packet is dropped, the second one arrives.
resumed :
    (system_run after
      (radio_turn both_heard (history lossy start_system))).peer.radio.tunnel_written
    ≡ bare ∷ []
unfolding history take_turn radio_turn reset_connection system_run system_step exchange tunnel_read
    is_valid_ip_packet build_next_data_frame_locked commit_ack_locked consume_data_frame_locked
    encode_mac_frame decode_mac_frame from_byte to_byte accept_data_frame write_tunnel next_seq
    new_coordinator choose_in choose_coordinator_tx_frame apply_type apply_peer_response
    apply_request_type apply_coordinator_request choose_peer_response
resumed = refl

-- A packet of one fragment is written, its ACK is lost, and the connection is reset: it is sent once
-- more, and written twice.
abbrev acknowledged_late : List Turn
acknowledged_late =
    event (exchanges both_heard)
    ∷ event (coordinator_reads bare)
    ∷ event (exchanges answer_lost)
    ∷ gives_up
    ∷ event (exchanges both_heard)
    ∷ event (exchanges both_heard)
    ∷ []

written_twice :
    (history acknowledged_late start_system).peer.radio.tunnel_written ≡ bare ∷ bare ∷ []
unfolding history take_turn radio_turn reset_connection system_step exchange tunnel_read
    is_valid_ip_packet build_next_data_frame_locked commit_ack_locked consume_data_frame_locked
    encode_mac_frame decode_mac_frame from_byte to_byte accept_data_frame write_tunnel next_seq
    new_coordinator choose_in choose_coordinator_tx_frame apply_type apply_peer_response
    apply_request_type apply_coordinator_request choose_peer_response
written_twice = refl

-- Connected, with a packet to send.
abbrev connected : List Turn
connected = event (exchanges both_heard) ∷ event (coordinator_reads ping) ∷ []

connected_idle : (history connected start_system).coordinator.state ≡ idle
unfolding history take_turn radio_turn reset_connection system_step tunnel_read is_valid_ip_packet
    encode_mac_frame decode_mac_frame from_byte to_byte new_coordinator
connected_idle = refl

history-quiet_example :
    let c = (history connected start_system).coordinator in
    (c.peer_has_pending ≡ false)
    × ((choose_coordinator_tx_frame [] c).1.type
        ≡ (if local_has_data c.radio then data_frame else pending))
history-quiet_example = history-quiet connected (tt, (ping_bytes, tt)) connected_idle

-- Both nodes have a packet, and the first answer is lost.
abbrev waiting : List Event
waiting = coordinator_reads ping ∷ peer_reads bare ∷ exchanges answer_lost ∷ []

waiting-work : work (system_run waiting fresh_system) ≡ 10
unfolding system_run system_step exchange tunnel_read is_valid_ip_packet
    build_next_data_frame_locked commit_ack_locked consume_data_frame_locked encode_mac_frame
    decode_mac_frame from_byte to_byte accept_data_frame write_tunnel next_seq new_coordinator
    choose_in choose_coordinator_tx_frame apply_type apply_peer_response apply_request_type
    apply_coordinator_request choose_peer_response fragments
waiting-work = refl

system_run-Drains_example :
    let u = system_run (heard_exchanges 10) (system_run waiting fresh_system) in
    (u.coordinator.radio.read_buffer ≡ [])
    × (u.peer.radio.read_buffer ≡ [])
    × (u.peer.radio.tunnel_written ≡ keep_ip (coordinator_packets waiting))
    × (u.coordinator.radio.tunnel_written ≡ keep_ip (peer_packets waiting))
system_run-Drains_example =
    system_run-Drains waiting 9 (ping_bytes, (bare_bytes, (tt, tt))) (omega (arith, waiting-work))
