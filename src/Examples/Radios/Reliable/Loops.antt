-- ===== src/Examples/Radios/Reliable/Loops.antt =====
-- The theorems on the two loops (nerfnet/net/primary_radio_interface.cc and
-- secondary_radio_interface.cc) at two radios that lose nothing.
use n_rf24_module.Prelude.{
  Returns, ℕ, suc, ◌≤◌, ◌++◌, ◌≡◌, refl, List, [], ◌∷◌, Option, none, some, arith, replicate,
}
use n_rf24_module.Frame.Codec.{encode_mac_frame, decode_mac_frame, from_byte, to_byte}
use n_rf24_module.Packet.{is_valid_ip_packet}
use n_rf24_module.RadioInterface.Sequence.{next_seq}
use n_rf24_module.RadioInterface.Transmit.{build_next_data_frame_locked, commit_ack_locked}
use n_rf24_module.RadioInterface.Assembly.{
  consume_data_frame_locked, accept_data_frame, write_tunnel,
}
use n_rf24_module.Driver.Send.{recover_after_transmit_failure, stand_by_loop, send}
use n_rf24_module.Driver.Receive.{poll_loop, wait_for_rx_ready, receive}
use n_rf24_module.Coordinator.{Coordinator, new_coordinator}
use n_rf24_module.Coordinator.Choose.{choose_in, choose_coordinator_tx_frame}
use n_rf24_module.Coordinator.Apply.{apply_type, apply_peer_response}
use n_rf24_module.Coordinator.Failure.{count_failure, handle_transaction_failure}
use n_rf24_module.Coordinator.Exchange.{
  finish_exchange, finish_reset, connection_reset, answer_exchange, transmit, perform_exchange,
}
use n_rf24_module.Coordinator.Loop.{
  retry_connection, require_connection, settle, exchange_and_settle, run_iteration,
}
use n_rf24_module.Peer.{new_peer}
use n_rf24_module.Peer.Request.{
  apply_request_type, apply_coordinator_request, choose_peer_response, record_rx, record_tx,
}
use n_rf24_module.Peer.Loop.{handle_reset, respond, serve, handle_packet}
use n_rf24_module.Session.{tunnel_read}
use n_rf24_module.System.{fresh_system, system_step, system_run}
use n_rf24_module.Session.Progress.{fragments}
use n_rf24_module.System.Drain.{work}
use n_rf24_module.Loops.Runs.{coordinator_gets, peer_gets, iterates, Happening, run_loops}
use n_rf24_module.Loops.Delivers.{events_of, Delivered, run_loops-Delivers}
use n_rf24_module.Loops.Refines.{Refines}
use n_rf24_module.Loops.Writes.{Writes, run_loops-Writes}
use n_rf24_module.Examples.Radios.{
  World, sender, sender-Antenna, linked, linked-Medium, linked-Clock, linked-Reads,
}
use n_rf24_module.Examples.Radios.Reliable.{sender-Loud, linked-Lossless}
use n_rf24_module.Examples.Packets.{ping, ping_bytes}

abbrev world : World
world = record { peer = new_peer; wrote = 0; since = none; answer = none; now = 5 }

abbrev looped : List Happening
looped = coordinator_gets ping ∷ iterates ∷ iterates ∷ peer_gets ping ∷ iterates ∷ iterates ∷ []

run_loops-Writes_example :
    Returns
      (Writes linked sender sender-Antenna linked-Medium looped)
      (run_loops linked sender sender-Antenna linked-Medium 2002 looped (new_coordinator 7) world)
unfolding linked-Medium
run_loops-Writes_example =
    run_loops-Writes linked sender sender-Antenna linked-Medium linked-Clock linked-Reads refl 2002
      (omega arith) looped 7 world (ping_bytes, (tt, (tt, (ping_bytes, (tt, (tt, tt)))))) refl refl

-- What the loops leave of the packets: the first turn resets, the following ones carry a fragment
-- each way.
abbrev written_by : Option (Coordinator × World) → List (List ℕ) × List (List ℕ)
written_by none = ([], [])
written_by (some (c, w)) = (c.radio.tunnel_written, w.peer.radio.tunnel_written)

delivered :
    written_by
      (run_loops linked sender sender-Antenna linked-Medium 9 looped (new_coordinator 7) world)
    ≡ ([], ping ∷ [])
unfolding linked-Medium run_loops run_iteration retry_connection require_connection settle
    exchange_and_settle perform_exchange transmit answer_exchange finish_exchange connection_reset
    finish_reset handle_transaction_failure count_failure send stand_by_loop
    recover_after_transmit_failure receive wait_for_rx_ready poll_loop handle_packet serve respond
    handle_reset record_rx record_tx is_valid_ip_packet build_next_data_frame_locked
    commit_ack_locked consume_data_frame_locked encode_mac_frame decode_mac_frame from_byte to_byte
    accept_data_frame write_tunnel next_seq new_coordinator choose_in choose_coordinator_tx_frame
    apply_type apply_peer_response apply_request_type apply_coordinator_request choose_peer_response
delivered = refl

abbrev read_both : List Happening
read_both = coordinator_gets ping ∷ peer_gets ping ∷ []

enough_work : work (system_run (events_of read_both) fresh_system) ≤ suc 19
unfolding system_run system_step tunnel_read is_valid_ip_packet commit_ack_locked new_coordinator
    fragments
enough_work = omega arith

run_loops-Delivers_example :
    Returns (Delivered linked sender sender-Antenna linked-Medium read_both) (
      run_loops linked sender sender-Antenna linked-Medium 2002
        (iterates ∷ read_both ++ replicate 20 iterates)
        (new_coordinator 7)
        world)
unfolding linked-Medium linked-Lossless
run_loops-Delivers_example =
    run_loops-Delivers linked sender sender-Antenna linked-Medium sender-Loud linked-Lossless
      linked-Clock linked-Reads refl 2002 (omega arith) read_both 19 7 world
      (ping_bytes, (ping_bytes, tt)) tt refl refl enough_work
