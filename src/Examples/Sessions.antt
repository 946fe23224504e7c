-- ===== src/Examples/Sessions.antt =====
-- Two nodes at concrete histories: the methods of nerfnet/net/radio_interface.cc run end to end.
use n_rf24_module.Prelude.{◌≤◌, ◌≡◌, refl, true, false, List, [], ◌∷◌, arith, All}
use n_rf24_module.Frame.{ack}
use n_rf24_module.Frame.Codec.{encode_mac_frame, decode_mac_frame, from_byte, to_byte}
use n_rf24_module.Packet.{is_valid_ip_packet}
use n_rf24_module.RadioInterface.Sequence.{next_seq}
use n_rf24_module.RadioInterface.Transmit.{build_next_data_frame_locked, commit_ack_locked}
use n_rf24_module.RadioInterface.Assembly.{
  consume_data_frame_locked, accept_data_frame, write_tunnel,
}
use n_rf24_module.Session.{
  fresh_node, tunnel_read, receive_frame, heard, act, reads, sends_data, sends_control, Event, left,
  right, step, run,
}
use n_rf24_module.Session.Agree.{EventIsValid}
use n_rf24_module.Session.Delivery.{Delivers, run-Delivers}
use n_rf24_module.Session.Progress.{fragments, rounds, rounds-Delivers}
use n_rf24_module.Examples.Packets.{ping, bare, ping_bytes, bare_bytes}

-- A packet is read; its first fragment is lost, then heard twice; the other node answers once, and
-- has a packet of its own.
abbrev history : List Event
history =
    left (reads ping)
    ∷ left (sends_data false)
    ∷ left (sends_data true)
    ∷ left (sends_data true)
    ∷ right (sends_control ack 0 0)
    ∷ right (reads bare)
    ∷ []

history-IsValid : All EventIsValid history
history-IsValid =
    (ping_bytes, (tt, (tt, (tt, ((refl, tt, omega arith, omega arith), (bare_bytes, tt))))))

run-Delivers_example :
    let (m, n) = run history (fresh_node, fresh_node) in Delivers m n × Delivers n m
run-Delivers_example = run-Delivers history history-IsValid

history_left : (run history (fresh_node, fresh_node)).0.accepted ≡ ping ∷ []
unfolding run step act tunnel_read is_valid_ip_packet build_next_data_frame_locked heard
    receive_frame commit_ack_locked consume_data_frame_locked encode_mac_frame
history_left = refl

-- One of the two fragments is still queued.
one_left : fragments (run history (fresh_node, fresh_node)).0.radio.read_buffer ≤ 1
unfolding run step act tunnel_read is_valid_ip_packet build_next_data_frame_locked heard
    receive_frame commit_ack_locked consume_data_frame_locked encode_mac_frame decode_mac_frame
    from_byte to_byte accept_data_frame write_tunnel next_seq fragments
one_left = omega arith

rounds-Delivers_example :
    let (m, n) = run history (fresh_node, fresh_node) in
    let (m', n') = run (rounds 1) (m, n) in
    (m'.radio.read_buffer ≡ []) × (n'.radio.tunnel_written ≡ m.accepted)
rounds-Delivers_example = rounds-Delivers history 1 history-IsValid one_left
