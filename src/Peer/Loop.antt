-- ===== src/Peer/Loop.antt =====
-- HandleReset and one iteration of Run of nerfnet/net/secondary_radio_interface.cc.
use n_rf24_module.Prelude.{ℕ, Bool, true, false, not, List, Option, none, some, if◌then◌else◌, bump}
use n_rf24_module.Frame.{FrameType, MacFrame, empty_frame, max_packet_size}
use n_rf24_module.Frame.Codec.{encode_mac_frame, decode_mac_frame}
use n_rf24_module.RadioInterface.{reset_link}
use n_rf24_module.Driver.{RequestResult, Device}
use n_rf24_module.Driver.Send.{send}
use n_rf24_module.Driver.Receive.{receive}
use n_rf24_module.Coordinator.{arrive}
use n_rf24_module.Coordinator.Exchange.{is_reset, reset_frame, is_idle_pair}
use n_rf24_module.Coordinator.Loop.{stat_time}
use n_rf24_module.Peer.{PeerCounters, Peer}
use n_rf24_module.Peer.Request.{
  revoked, apply_coordinator_request, choose_peer_response, record_rx, record_tx,
  count_peer_send_failure,
}

-- What HandleReset clears before it answers.
abbrev pub peer_cleared : Peer → Peer
peer_cleared p = revoked (record p { radio = reset_link p.radio })

abbrev pub failed_send : FrameType → PeerCounters → PeerCounters
failed_send type k =
    count_peer_send_failure type (record k { tx_send_fail_count = bump k.tx_send_fail_count })

-- `idle_log_counter_` is counted only for an idle pair.
abbrev pub count_idle_pair : FrameType → FrameType → PeerCounters → PeerCounters
count_idle_pair rx tx k =
    if is_idle_pair rx tx then record k { idle_log_counter = bump k.idle_log_counter } else k

-- The counters after Send returned.
abbrev pub count_sent : RequestResult → FrameType → FrameType → PeerCounters → PeerCounters
count_sent RequestResult.success rx tx k = count_idle_pair rx tx (record_tx tx k)
count_sent _ rx tx k = count_idle_pair rx tx (record_tx tx (failed_send tx k))

-- What HandleReset makes of what Send returned.
abbrev pub after_reset_answer {ℓ} : {W : Type ℓ} → RequestResult → Peer → W → Bool × Peer × W
after_reset_answer RequestResult.success p w =
    (true, record p { counters = record_tx FrameType.reset p.counters }, w)
after_reset_answer _ p w =
    (false, record p { counters = failed_send FrameType.reset p.counters }, w)

module _ {W : Type 0} (dev : Device W) where
  unfoldable pub handle_reset : ℕ → Peer → W → Option (Bool × Peer × W)
  handle_reset fuel p0 w =
      let p = peer_cleared p0 in
      let (encoded, response) = encode_mac_frame reset_frame in
      if not encoded then some (false, p, w) else elim (send dev fuel response w) [
        | none ↦ none
        | some (result, w1) ↦ some (after_reset_answer result p w1)
      ]

  -- From the chosen response on.
  unfoldable pub respond : ℕ → FrameType → MacFrame → Peer → W → Option (Peer × W)
  respond fuel rx_type tx p w =
      let (encoded, response) = encode_mac_frame tx in
      if not encoded then some (p, w) else elim (send dev fuel response w) [
        | none ↦ none
        | some (result, w1) ↦
            let (now_us, w2) = dev.time_now_us w1 in
            some (
              record p {
                counters = count_sent result rx_type tx.type p.counters;
                last_stat_print_us = stat_time now_us p.last_stat_print_us;
              },
              w2,
            )
      ]

  -- From ApplyCoordinatorRequest on.
  unfoldable pub serve : ℕ → List (List ℕ) → MacFrame → Peer → W → Option (Peer × W)
  serve fuel arrivals rx p w =
      let (applied, p1) = apply_coordinator_request rx p in
      if not applied
      then some (p1, w)
      else (let (chosen, tx, p2) = choose_peer_response arrivals p1 in
          if not chosen then some (p2, w) else respond fuel rx.type tx p2 w)

  -- From a received packet on.
  unfoldable pub handle_packet : ℕ → List (List ℕ) → List ℕ → Peer → W → Option (Peer × W)
  handle_packet fuel arrivals request p0 w =
      let (decoded, rx) = decode_mac_frame request empty_frame in
      let p = record p0 { counters = record_rx rx.type p0.counters } in
      if not decoded
      then some (p0, w)
      else if is_reset rx.type
      then elim (handle_reset fuel p w) [ none ↦ none | some (ok, p1, w1) ↦ some (p1, w1) ]
      else serve fuel arrivals rx p w

  -- One iteration of the loop. Receive waits without a timeout. `queued` are the packets that the
  -- tunnel thread queues meanwhile.
  unfoldable pub run_peer_iteration :
      ℕ → List (List ℕ) → List (List ℕ) → Peer → W → Option (Peer × W)
  run_peer_iteration fuel queued arrivals p w = elim (receive dev fuel max_packet_size 0 w) [
    | none ↦ none
    | some (RequestResult.success, request, w1) ↦
        handle_packet fuel arrivals request (record p { radio = arrive queued p.radio }) w1
    | some (failed, request, w1) ↦ some (record p { radio = arrive queued p.radio }, w1)
  ]
