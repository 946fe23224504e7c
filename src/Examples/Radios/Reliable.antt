-- ===== src/Examples/Radios/Reliable.antt =====
-- The radios of the parent lose nothing: every packet is handled, and its answer can be read
-- (nerfnet/net/primary_radio_interface.cc and secondary_radio_interface.cc).
mod Loops
use n_rf24_module.Prelude.{
  ◌∙◌, u64, Returns, ℕ, suc, ◌≤◌, ◌++◌, ◌+◌, ◌<◌, ◌≡◌, inl, inr, refl, sym, ap, Bool, true, false,
  has_value, ◌⊎◌, not, ◌&&◌, List, [], ◌∷◌, Option, none, some, arith, All, length, ◌==◌, ltb,
  replicate, length-replicate, All-replicate, if◌then◌else◌, if-preserves,
}
use n_rf24_module.Frame.{FrameType, MacFrame, empty_frame}
use n_rf24_module.Frame.Codec.{encode_mac_frame, decode_mac_frame, from_byte, to_byte}
use n_rf24_module.Packet.{is_valid_ip_packet}
use n_rf24_module.RadioInterface.Sequence.{next_seq}
use n_rf24_module.RadioInterface.Transmit.{build_next_data_frame_locked, commit_ack_locked}
use n_rf24_module.RadioInterface.Assembly.{
  consume_data_frame_locked, accept_data_frame, write_tunnel,
}
use n_rf24_module.Driver.{RequestResult, Device}
use n_rf24_module.Driver.Timely.{send_fuel}
use n_rf24_module.Driver.Send.{recover_after_transmit_failure, stand_by_loop, send}
use n_rf24_module.Driver.Receive.{poll_loop, wait_for_rx_ready, receive}
use n_rf24_module.Coordinator.{Coordinator, new_coordinator}
use n_rf24_module.Coordinator.Choose.{choose_in, choose_coordinator_tx_frame}
use n_rf24_module.Coordinator.Apply.{apply_type, apply_peer_response}
use n_rf24_module.Coordinator.Failure.{count_failure, handle_transaction_failure}
use n_rf24_module.Coordinator.Exchange.{
  is_reset, reset_frame, finish_exchange, finish_reset, connection_reset, answer_exchange, transmit,
  perform_exchange,
}
use n_rf24_module.Coordinator.Loop.{
  retry_connection, require_connection, settle, exchange_and_settle, run_iteration,
}
use n_rf24_module.Peer.{Peer, new_peer}
use n_rf24_module.Peer.Request.{
  apply_request_type, apply_coordinator_request, choose_peer_response, record_rx, record_tx,
}
use n_rf24_module.Peer.Loop.{handle_reset, respond, serve, handle_packet}
use n_rf24_module.Session.{tunnel_read}
use n_rf24_module.System.{fresh_system, system_step, system_run}
use n_rf24_module.Session.Progress.{fragments}
use n_rf24_module.System.Drain.{work}
use n_rf24_module.System.Reset.{start_system}
use n_rf24_module.Loops.Turns.{take_packet}
use n_rf24_module.Loops.Heard.{After, Antenna}
use n_rf24_module.Loops.Medium.{Delivers, Medium}
use n_rf24_module.Loops.Speaks.{Loud}
use n_rf24_module.Loops.Lossless.{Lossless}
use n_rf24_module.Loops.Runs.{coordinator_gets, peer_gets, iterates, Happening, run_loops}
use n_rf24_module.Examples.Radios.{
  all_bytes, fits, Packet, bytes_of, Sender, decided, put, sender, put-sends, sender-Antenna, World,
  is_sent, handled, deliver, fill, linked, deliver-Delivers, fill-here, linked-Medium, linked-Clock,
  all_bytes-All, fill_size, fill_bytes, linked-Reads,
}

all_bytes-true : (bs : List ℕ) → All (λ b. b < 256) bs → all_bytes bs ≡ true
all_bytes-true [] h = refl
all_bytes-true (b ∷ bs) h = ground (arith, h.0, all_bytes-true bs h.1)

bytes_fit : (bs : List ℕ) → length bs ≡ 32 → All (λ b. b < 256) bs → fits 32 bs ≡ true
bytes_fit bs size h = ground (arith, size, all_bytes-true bs h)

put-puts :
    (packet : List ℕ) (b : (fits 32 packet ≡ true) ⊎ (fits 32 packet ≡ false)) (v : Sender)
    → fits 32 packet ≡ true
    → bytes_of (put packet b v).last_sent ≡ some packet
put-puts packet (inl e) v h = refl
put-puts packet (inr e) v h = ground (arith, e, h)

sender-Loud : Loud sender sender-Antenna
unfolding sender-Antenna
sender-Loud = record {
  write_puts = λ packet v size bytes.
      put-puts packet (decided (fits 32 packet)) v (bytes_fit packet size bytes);
}

deliver-Answered :
    (packet : List ℕ) (w : World) (o : Option (Peer × Sender))
    → handled packet w ≡ o
    → let w1 = deliver (record w { wrote = w.now }) o in
      (fuel : ℕ) × (v : Sender) × (send_fuel ≤ fuel)
      × (bytes_of v.last_sent ≡ none)
      × After
          (λ (p2, v1). (w1.peer ≡ p2) × (bytes_of w1.answer ≡ bytes_of v1.last_sent))
          (handle_packet sender fuel [] packet w.peer v)
deliver-Answered packet w none e =
    (401, record { last_sent = none; time = w.now }, omega arith, refl, rw e tt)
deliver-Answered packet w (some (p, v)) e =
    (401, record { last_sent = none; time = w.now }, omega arith, refl, rw e (refl, refl))

deliver-times :
    (w : World) (o : Option (Peer × Sender))
    → ((deliver w o).wrote ≡ w.wrote) × ((deliver w o).now ≡ w.now)
deliver-times w none = (refl, refl)
deliver-times w (some (p, v)) = (refl, refl)

sent_in_time : (w : World) → is_sent w ≡ false → w.now < u64 (w.wrote + 20000)
sent_in_time w h = ground arith

-- Nothing is ever lost.
linked-Lossless : Lossless linked sender sender-Antenna linked-Medium
unfolding sender-Antenna linked-Medium
linked-Lossless = record {
  calm = λ w. Unit {0};
  written_at = λ w. w.wrote;
  write_answered = λ packet w h silent.
      let times = deliver-times (record w { wrote = w.now }) (handled packet w) in
      (refl, tt, times.0 ∙ sym times.1, deliver-Answered packet w (handled packet w) refl);
  stand_by_in_time = λ w h busy. sent_in_time w busy;
  start_listening_calm = λ w h. (tt, refl);
  tx_stand_by_calm = λ w h. (tt, refl, refl);
  time_now_us_calm = λ w h. (tt, refl, refl);
  sleep_us_calm = λ d w h. (tt, refl, refl);
  available_calm = λ w h. (tt, refl);
  stop_listening_calm = λ w h. tt;
  read_calm = λ n w h. tt;
  flush_rx_calm = λ w h. tt;
  flush_tx_calm = λ w h. tt;
  let_read_calm = λ packet w h. tt;
}
