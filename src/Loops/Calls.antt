-- ===== src/Loops/Calls.antt =====
-- Send and Receive (nerfnet/net/radio_interface.cc) of the coordinator, over a radio that the peer
-- answers.
use n_rf24_module.Prelude.{
  ltb→lt, ℕ, zero, suc, ◌+◌, ◌≡◌, ◌∙◌, ◌⊎◌, inl, inr, refl, sym, subst, false, not, List, [],
  Option, none, some, ltb, leb, u64, length, if-preserves, if◌then◌else◌, arith,
}
use n_rf24_module.Frame.{MacFrame, max_packet_size}
use n_rf24_module.Frame.Codec.{encode_mac_frame}
use n_rf24_module.Driver.{
  RequestResult, success, timeout, malformed, transmit_error, Device, tx_standby_timeout_us,
}
use n_rf24_module.Driver.Send.{recover_after_transmit_failure, stand_by_loop, send}
use n_rf24_module.Driver.Receive.{poll_loop, wait_for_rx_ready, receive}
use n_rf24_module.Driver.Waiting.{wait-polls}
use n_rf24_module.Peer.{Peer}
use n_rf24_module.Loops.Heard.{After, Antenna}
use n_rf24_module.Loops.Medium.{
  Medium, Moves, Moves-trans, Moves-silent, Keeps, Keeps-trans, Ready, Heard, Keeps-Heard,
  write-Heard,
}
use n_rf24_module.Frame.RoundTrip.{IsSendable}
use n_rf24_module.Peer.Valid.{IsValid}
use n_rf24_module.Coordinator.Exchange.{receive_timeout_us}

module _ {W : Type 0} {V : Type 0} (dev : Device W) (peer_dev : Device V)
    (antenna : Antenna peer_dev) (medium : Medium dev peer_dev antenna) where
  open medium use {
    peer_of, on_air, listens, write_listens, available_is, read_peer, read_takes, is_prompt,
    start_listening_passes, start_listening_since, stop_listening_passes, stop_listening_since,
    unheard, flush_tx_stays, tx_stand_by_stays, available_stays, time_now_us_stays, sleep_us_stays,
  }

  abbrev then_keeps :
      (w w1 w2 : W)
      → Keeps dev peer_dev antenna medium w w1
      → Keeps dev peer_dev antenna medium w1 w2
      → Keeps dev peer_dev antenna medium w w2
  then_keeps w w1 w2 h k = Keeps-trans dev peer_dev antenna medium w w1 w2 h k

  abbrev KeepsAfter : W → RequestResult × W → Type 0
  KeepsAfter w out = Keeps dev peer_dev antenna medium w out.1

  recover-Keeps :
      (w w1 : W)
      → Keeps dev peer_dev antenna medium w w1
      → Keeps dev peer_dev antenna medium w (recover_after_transmit_failure dev w1)
  unfolding recover_after_transmit_failure
  recover-Keeps w w1 h =
      let w2 = dev.flush_tx w1 in
      then_keeps w w2 (dev.sleep_us 200 w2) (then_keeps w w1 w2 h (flush_tx_stays w1))
        (sleep_us_stays 200 w2)

  stand_by-Keeps :
      (fuel deadline : ℕ) (w0 w : W)
      → Keeps dev peer_dev antenna medium w0 w
      → After (KeepsAfter w0) (stand_by_loop dev fuel deadline w)
  unfolding stand_by_loop
  stand_by-Keeps zero deadline w0 w h = tt
  stand_by-Keeps (suc fuel) deadline w0 w h =
      let w1 = (dev.tx_stand_by w).1 in
      let (now, w2) = dev.time_now_us w1 in
      let w3 = dev.sleep_us 50 w2 in
      let h1 = then_keeps w0 w w1 h (tx_stand_by_stays w) in
      let h2 = then_keeps w0 w1 w2 h1 (time_now_us_stays w1) in
      let again =
        stand_by-Keeps fuel deadline w0 w3 (then_keeps w0 w2 w3 h2 (sleep_us_stays 50 w2)) in
      let P : Option (RequestResult × W) → Type 0 = λ o. After (KeepsAfter w0) o in
      if-preserves P (dev.tx_stand_by w).0 (λ ready. h1)
        (λ not_ready.
          if-preserves P (leb deadline now) (λ late. recover-Keeps w0 w2 h2) (λ early. again))

  -- What Send leaves of a frame: the peer may have heard it, whether Send succeeds or not; a packet
  -- that is too long is not written. The radio does not listen, and the peer is in a valid state.
  abbrev pub SentAfter : MacFrame → Peer → RequestResult × W → Type 0
  SentAfter frame p (r, w1) =
      (((r ≡ malformed) × (peer_of w1 ≡ p)) ⊎ Heard dev peer_dev antenna medium frame p w1)
      × (listens w1 ≡ none)
      × IsValid (peer_of w1)

  abbrev Wrote : MacFrame → Peer → W → Type 0
  Wrote frame p w =
      Heard dev peer_dev antenna medium frame p w × IsValid (peer_of w) × (listens w ≡ none)

  Heard-Sent :
      (frame : MacFrame) (p : Peer) (w : W) (o : Option (RequestResult × W))
      → Wrote frame p w
      → After (KeepsAfter w) o
      → After (SentAfter frame p) o
  Heard-Sent frame p w none h k = tt
  Heard-Sent frame p w (some (r, w1)) (h, v, deaf) k = (
    inr (Keeps-Heard dev peer_dev antenna medium frame p w w1 k h),
    k.1 ∙ deaf,
    subst IsValid (sym (k.0.0)) v,
  )

  write-Sent :
      (fuel : ℕ) (frame : MacFrame) (w : W)
      → IsSendable frame
      → on_air w ≡ none
      → IsValid (peer_of w)
      → listens w ≡ none
      → let (written, w1) = dev.write (encode_mac_frame frame).1 w in
        let (now, w2) = dev.time_now_us w1 in
        After (SentAfter frame (peer_of w)) (
          if not written
          then some (transmit_error, recover_after_transmit_failure dev w1)
          else stand_by_loop dev fuel (u64 (now + tx_standby_timeout_us)) w2)
  write-Sent fuel frame w sendable silent valid deaf =
      let packet = (encode_mac_frame frame).1 in
      let (written, w1) = dev.write packet w in
      let (now, w2) = dev.time_now_us w1 in
      let (heard, v) = write-Heard dev peer_dev antenna medium frame w sendable silent valid in
      let wrote : Wrote frame (peer_of w) w1 = (heard, v, write_listens packet w ∙ deaf) in
      let deadline = u64 (now + tx_standby_timeout_us) in
      let P : Option (RequestResult × W) → Type 0 = λ o. After (SentAfter frame (peer_of w)) o in
      if-preserves P (not written)
        (λ unwritten.
          Heard-Sent frame (peer_of w) w1
            (some (transmit_error, recover_after_transmit_failure dev w1)) wrote
            (recover-Keeps w1 w1 ((refl, inl refl), refl)))
        (λ done.
          Heard-Sent frame (peer_of w) w1 (stand_by_loop dev fuel deadline w2) wrote
            (stand_by-Keeps fuel deadline w1 w2 (time_now_us_stays w1)))

  -- Nothing is left to be read once the radio has stopped listening.
  pub stopped-silent :
      (w : W) → Ready dev peer_dev antenna medium w → on_air (dev.stop_listening w) ≡ none
  stopped-silent w (inl silent, v) =
      Moves-silent dev peer_dev antenna medium w (dev.stop_listening w) (stop_listening_passes w)
        silent
  stopped-silent w (inr deaf, v) = unheard w deaf

  pub send-Sent :
      (fuel : ℕ) (frame : MacFrame) (p : Peer) (w : W)
      → IsSendable frame
      → Ready dev peer_dev antenna medium w
      → peer_of w ≡ p
      → After (SentAfter frame p) (send dev fuel (encode_mac_frame frame).1 w)
  unfolding send
  send-Sent fuel frame p w sendable h e =
      let w0 = dev.stop_listening w in
      let same : peer_of w0 ≡ p = (stop_listening_passes w).0 ∙ e in
      let valid : IsValid (peer_of w0) = subst IsValid (sym (stop_listening_passes w).0) h.1 in
      let deaf = stop_listening_since w in
      let P : Option (RequestResult × W) → Type 0 = λ o. After (SentAfter frame p) o in
      if-preserves P (ltb max_packet_size (length (encode_mac_frame frame).1))
        (λ large. (inl (refl, same), deaf, valid))
        (λ fits.
          subst
            (λ q. After (SentAfter frame q) (
              let (written, w1) = dev.write (encode_mac_frame frame).1 w0 in
              let (now, w2) = dev.time_now_us w1 in
              if not written
              then some (transmit_error, recover_after_transmit_failure dev w1)
              else stand_by_loop dev fuel (u64 (now + tx_standby_timeout_us)) w2))
            same (write-Sent fuel frame w0 sendable (stopped-silent w h) valid deaf))

  -- What a wait for an answer leaves: one is there to be read where it succeeds, and none will come
  -- where it does not.
  abbrev WaitedAfter : W → RequestResult × W → Type 0
  WaitedAfter w (r, w1) =
      Moves dev peer_dev antenna medium w w1
      × (((r ≡ timeout) × (on_air w1 ≡ none))
          ⊎ ((r ≡ success)
              × (on_air w1 ≡ some (dev.read max_packet_size w1).0)
              × (on_air (dev.read max_packet_size w1).1 ≡ none)))

  poll-Waited :
      (fuel start_us : ℕ) (w0 w : W)
      → Moves dev peer_dev antenna medium w0 w
      → listens w ≡ some start_us
      → After (WaitedAfter w0) (poll_loop dev fuel start_us receive_timeout_us w)
  unfolding poll_loop
  poll-Waited zero start_us w0 w h since = tt
  poll-Waited (suc fuel) start_us w0 w h since =
      let w1 = (dev.available w).1 in
      let (now, w2) = dev.time_now_us w1 in
      let (k1, e1) = available_stays w in
      let (k2, e2) = time_now_us_stays w1 in
      let h1 = Moves-trans dev peer_dev antenna medium w0 w w1 h k1 in
      let h2 = Moves-trans dev peer_dev antenna medium w0 w1 w2 h1 k2 in
      let w3 = dev.sleep_us 50 w1 in
      let w4 = dev.sleep_us 50 w2 in
      let (k3, e3) = sleep_us_stays 50 w1 in
      let (k4, e4) = sleep_us_stays 50 w2 in
      let forever =
        poll-Waited fuel start_us w0 w3 (Moves-trans dev peer_dev antenna medium w0 w1 w3 h1 k3)
          (e3 ∙ (e1 ∙ since)) in
      let again =
        poll-Waited fuel start_us w0 w4 (Moves-trans dev peer_dev antenna medium w0 w2 w4 h2 k4)
          (e4 ∙ (e2 ∙ (e1 ∙ since))) in
      let P : Option (RequestResult × W) → Type 0 = λ o. After (WaitedAfter w0) o in
      if-preserves P (dev.available w).0
        (λ ready. (h1, inr (refl, available_is w ready, read_takes w ready)))
        (λ not_ready.
          if-preserves P (ltb (u64 (start_us + receive_timeout_us)) now)
            (λ late. (h2, inl (refl, is_prompt w start_us since not_ready (ltb→lt _ _ late))))
            (λ early. again))

  -- What Receive leaves: it leaves the peer alone, an answer that it returns was on the air, and
  -- nothing is left to be read.
  abbrev pub ReceivedAfter : W → RequestResult × List ℕ × W → Type 0
  ReceivedAfter w (r, response, w1) =
      (peer_of w1 ≡ peer_of w)
      × (on_air w1 ≡ none)
      × ((r ≡ timeout) ⊎ ((r ≡ success) × (on_air w ≡ some response)))

  was_on_air :
      (w w1 : W) (b : List ℕ)
      → Moves dev peer_dev antenna medium w w1
      → on_air w1 ≡ some b
      → on_air w ≡ some b
  was_on_air w w1 b (e, inl same) h = sym same ∙ h
  was_on_air w w1 b (e, inr lost) h = ground (arith, lost, h)

  read-Received :
      (w : W) (o : Option (RequestResult × W))
      → After (WaitedAfter w) o
      → After (ReceivedAfter w) (elim o [
        | none ↦ none
        | some (success, w1) ↦
            let (response, w2) = dev.read max_packet_size w1 in some (success, response, w2)
        | some (other, w1) ↦ some (other, [], w1)
      ])
  read-Received w none h = tt
  read-Received w (some (success, w1)) (k, inl (late, _)) = ground (arith, late)
  read-Received w (some (success, w1)) (k, inr (_, here, taken)) = (
    read_peer max_packet_size w1 ∙ k.0,
    taken,
    inr (refl, was_on_air w w1 (dev.read max_packet_size w1).0 k here),
  )
  read-Received w (some (timeout, w1)) (k, inl (_, silent)) = (k.0, silent, inl refl)
  read-Received w (some (timeout, w1)) (k, inr (odd, _, _)) = absurd (ground (arith, odd))
  read-Received w (some (malformed, w1)) (k, inl (odd, _)) = absurd (ground (arith, odd))
  read-Received w (some (malformed, w1)) (k, inr (odd, _, _)) = absurd (ground (arith, odd))
  read-Received w (some (transmit_error, w1)) (k, inl (odd, _)) = absurd (ground (arith, odd))
  read-Received w (some (transmit_error, w1)) (k, inr (odd, _, _)) = absurd (ground (arith, odd))

  -- With the timeout that the coordinator uses, and no IRQ line.
  pub receive-Received :
      (fuel : ℕ) (w : W)
      → dev.has_irq_line ≡ false
      → After (ReceivedAfter w) (receive dev fuel max_packet_size receive_timeout_us w)
  unfolding receive
  receive-Received fuel w polls =
      let w0 = dev.start_listening w in
      let (start_us, w1) = dev.time_now_us w0 in
      let (k, e) = time_now_us_stays w0 in
      let h = Moves-trans dev peer_dev antenna medium w w0 w1 (start_listening_passes w) k in
      read-Received w (wait_for_rx_ready dev fuel receive_timeout_us w0) (
        subst (After (WaitedAfter w)) (sym (wait-polls dev fuel receive_timeout_us w0 polls))
          (poll-Waited fuel start_us w w1 h (e ∙ start_listening_since w)))
