-- ===== src/Coordinator/Exchange.antt =====
-- ConnectionReset and PerformExchange of nerfnet/net/primary_radio_interface.cc.
use n_rf24_module.Prelude.{
  ℕ, ◌+◌, Bool, true, false, not, ◌&&◌, ◌||◌, List, Option, none, some, if◌then◌else◌, min, u8,
  bump,
}
use n_rf24_module.Frame.{FrameType, pending, ack, reset, MacFrame, empty_frame, max_packet_size}
use n_rf24_module.Frame.Codec.{is_data, encode_mac_frame, decode_mac_frame}
use n_rf24_module.RadioInterface.{reset_link}
use n_rf24_module.Driver.{RequestResult, Device}
use n_rf24_module.Driver.Send.{send}
use n_rf24_module.Driver.Receive.{receive}
use n_rf24_module.Coordinator.{
  ExchangeResult, success, send_failure, timeout_failure, protocol_failure, Counters, Coordinator,
  post_data_exchange_gap_us, arrive,
}
use n_rf24_module.Coordinator.Choose.{choose_coordinator_tx_frame}
use n_rf24_module.Coordinator.Apply.{apply_peer_response, record_send_failure}

abbrev pub receive_timeout_us : ℕ
receive_timeout_us = 100000

abbrev pub is_reset : FrameType → Bool
is_reset reset = true
is_reset _ = false

abbrev pub reset_frame : MacFrame
reset_frame = record empty_frame { type = reset; seq = 0; ack = 0; pending = 0; arg = 0 }

-- What ConnectionReset clears before it sends.
abbrev pub cleared : Coordinator → Coordinator
cleared c = record c {
  radio = reset_link c.radio;
  peer_has_pending = false;
  peer_grant_budget = 0;
  last_tx_was_data = false;
  consecutive_local_data_frames = 0;
}

-- `tx.type == FrameType::Pending && rx.type == FrameType::Ack`
abbrev pub is_idle_pair : FrameType → FrameType → Bool
is_idle_pair pending ack = true
is_idle_pair _ _ = false

-- `consecutive_local_data_frames_` after an exchange.
abbrev pub count_data_frames : Bool → FrameType → FrameType → ℕ → ℕ
count_data_frames applied tx rx n =
    if applied
    then (if is_data tx && not (is_data rx)
        then u8 (min (n + 1) 255)
        else if not (is_data tx) || is_data rx
        then 0
        else n)
    else 0

abbrev pub count_send_failure : FrameType → Counters → Counters
count_send_failure type k =
    let k1 =
      record_send_failure type (record k { tx_send_fail_count = bump k.tx_send_fail_count }) in
    record k1 { fail_log_counter = bump k1.fail_log_counter }

abbrev pub count_timeout : Counters → Counters
count_timeout k = record k {
  rx_timeout_count = bump k.rx_timeout_count;
  fail_log_counter = bump k.fail_log_counter;
}

-- `idle_log_counter_` is counted only for an idle pair.
abbrev pub count_idle : FrameType → FrameType → Counters → Counters
count_idle tx rx k =
    if is_idle_pair tx rx then record k { idle_log_counter = bump k.idle_log_counter } else k

module _ {W : Type 0} (dev : Device W) where
  -- From the decoded answer on.
  unfoldable pub finish_exchange :
      MacFrame → MacFrame → Coordinator → W → ExchangeResult × Coordinator × W
  finish_exchange tx rx c w =
      let counted = record c { counters = count_idle tx.type rx.type c.counters } in
      let (applied, c1) = apply_peer_response rx counted in
      let c2 = record c1 {
        consecutive_local_data_frames =
            count_data_frames applied tx.type rx.type c1.consecutive_local_data_frames;
      } in
      if applied
      then (if is_data tx.type || is_data rx.type
          then (success, c2, dev.sleep_us post_data_exchange_gap_us w)
          else (success, c2, w))
      else (protocol_failure, c2, w)

  -- What ConnectionReset makes of the answer.
  unfoldable pub finish_reset : List ℕ → Coordinator → W → Bool × Coordinator × W
  finish_reset response c w =
      let (decoded, rx) = decode_mac_frame response empty_frame in
      if not decoded
      then (false, c, w)
      else if not (is_reset rx.type)
      then (false, c, w)
      else (true, c, dev.flush_tx (dev.flush_rx w))

  -- `on_air` are the packets that the tunnel thread queues after the locked region, while the frames
  -- are on the air; nothing below looks at the queue.
  unfoldable pub connection_reset :
      ℕ → List (List ℕ) → Coordinator → W → Option (Bool × Coordinator × W)
  connection_reset fuel on_air c0 w0 =
      let w = dev.flush_tx (dev.flush_rx w0) in
      let locked = cleared c0 in
      let c = record locked { radio = arrive on_air locked.radio } in
      let (encoded, request) = encode_mac_frame reset_frame in
      if not encoded then some (false, c, w) else elim (send dev fuel request w) [
        | none ↦ none
        | some (RequestResult.success, w1) ↦
            elim (receive dev fuel max_packet_size receive_timeout_us w1) [
              | none ↦ none
              | some (RequestResult.success, response, w2) ↦ some (finish_reset response c w2)
              | some (failed, response, w2) ↦ some (false, c, w2)
            ]
        | some (failed, w1) ↦ some (false, c, w1)
      ]

  -- What PerformExchange makes of the answer.
  unfoldable pub answer_exchange :
      MacFrame → List ℕ → Coordinator → W → ExchangeResult × Coordinator × W
  answer_exchange tx response c w =
      let (decoded, rx) = decode_mac_frame response empty_frame in
      if not decoded then (protocol_failure, c, w) else finish_exchange tx rx c w

  -- From the chosen frame on. `on_air` are the packets that the tunnel thread queues while the frames
  -- are on the air, whether they arrive or not.
  unfoldable pub transmit :
      ℕ → List (List ℕ) → MacFrame → Coordinator → W → Option (ExchangeResult × Coordinator × W)
  transmit fuel on_air tx c0 w =
      let c = record c0 { radio = arrive on_air c0.radio } in
      let (encoded, request) = encode_mac_frame tx in
      if not encoded then some (protocol_failure, c, w) else elim (send dev fuel request w) [
        | none ↦ none
        | some (RequestResult.success, w1) ↦
            elim (receive dev fuel max_packet_size receive_timeout_us w1) [
              | none ↦ none
              | some (RequestResult.success, response, w2) ↦ some (answer_exchange tx response c w2)
              | some (failed, response, w2) ↦
                  some (timeout_failure, record c { counters = count_timeout c.counters }, w2)
            ]
        | some (failed, w1) ↦
            some (send_failure, record c { counters = count_send_failure tx.type c.counters }, w1)
      ]

  -- `arrivals` are the packets that the tunnel thread queues while the frame is chosen.
  unfoldable pub perform_exchange :
      ℕ
      → List (List ℕ)
      → List (List ℕ)
      → Coordinator
      → W
      → Option (ExchangeResult × Coordinator × W)
  perform_exchange fuel arrivals on_air c0 w =
      let (chosen, tx, c) = choose_coordinator_tx_frame arrivals c0 in
      if not chosen then some (protocol_failure, c, w) else transmit fuel on_air tx c w
