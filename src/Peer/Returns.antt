-- ===== src/Peer/Returns.antt =====
-- HandleReset and the handling of a packet in Run (nerfnet/net/secondary_radio_interface.cc) return
-- and keep the invariant, over a clock that goes on.
use n_rf24_module.Prelude.{
  Returns, ℕ, ◌≤◌, inl, inr, refl, Bool, not, List, All, if-preserves, Option, none, some,
}
use n_rf24_module.Frame.{FrameType, MacFrame, empty_frame}
use n_rf24_module.Frame.Codec.{encode_mac_frame, decode_mac_frame}
use n_rf24_module.Frame.RoundTrip.{IsSendable, IsByte, decode-encode, decode-IsSendable}
use n_rf24_module.RadioInterface.Valid.{IsQueued}
use n_rf24_module.Driver.{RequestResult, Device, Clock}
use n_rf24_module.Driver.Timely.{send-returns, send_fuel}
use n_rf24_module.Coordinator.Exchange.{is_reset, reset_frame}
use n_rf24_module.Coordinator.Resets.{reset_frame-IsSendable}
use n_rf24_module.Peer.{Peer}
use n_rf24_module.Peer.Request.{apply_coordinator_request, choose_peer_response, record_rx}
use n_rf24_module.Peer.Loop.{
  peer_cleared, after_reset_answer, handle_reset, respond, serve, handle_packet,
}
use n_rf24_module.Peer.Valid.{
  IsValid, with_peer_link, peer_cleared-IsValid, apply_request-IsValid, choose_response-Good,
}

module _ {W : Type 0} (dev : Device W) (clock : Clock dev) (fuel : ℕ)
    (enough : send_fuel ≤ fuel) where
  abbrev pub StaysValid : Peer × W → Type 0
  StaysValid out = IsValid out.0

  abbrev ResetKeeps : Bool × Peer × W → Type 0
  ResetKeeps out = IsValid out.1

  respond-Returns :
      (t : FrameType) (tx : MacFrame) (p : Peer) (w : W)
      → IsSendable tx
      → IsValid p
      → Returns StaysValid (respond dev fuel t tx p w)
  unfolding respond
  respond-Returns t tx p w s v =
      let (r, w1, e, k) = send-returns dev clock fuel (encode_mac_frame tx).1 w enough in
      rw ((decode-encode tx empty_frame s).0, e) (_, refl, with_peer_link p p.radio _ _ v.link v)

  after_answer-IsValid :
      (r : RequestResult) (p : Peer) (w : W) → IsValid p → ResetKeeps (after_reset_answer r p w)
  after_answer-IsValid RequestResult.success p w v =
      with_peer_link p p.radio _ p.last_stat_print_us v.link v
  after_answer-IsValid RequestResult.timeout p w v =
      with_peer_link p p.radio _ p.last_stat_print_us v.link v
  after_answer-IsValid RequestResult.malformed p w v =
      with_peer_link p p.radio _ p.last_stat_print_us v.link v
  after_answer-IsValid RequestResult.transmit_error p w v =
      with_peer_link p p.radio _ p.last_stat_print_us v.link v

  handle_reset-Returns :
      (p : Peer) (w : W) → IsValid p → Returns ResetKeeps (handle_reset dev fuel p w)
  unfolding handle_reset
  handle_reset-Returns p w v =
      let (r, w1, e, k) = send-returns dev clock fuel (encode_mac_frame reset_frame).1 w enough in
      rw ((decode-encode reset_frame empty_frame reset_frame-IsSendable).0, e)
        (
          after_reset_answer r (peer_cleared p) w1,
          refl,
          after_answer-IsValid r (peer_cleared p) w1 (peer_cleared-IsValid p v),
        )

  serve-Returns :
      (arrivals : List (List ℕ)) (rx : MacFrame) (p : Peer) (w : W)
      → All IsQueued arrivals
      → IsSendable rx
      → IsValid p
      → Returns StaysValid (serve dev fuel arrivals rx p w)
  unfolding serve
  serve-Returns arrivals rx p w h s v =
      let v1 = apply_request-IsValid rx p s v in
      let (_, p1) = apply_coordinator_request rx p in
      let (chosen, sendable, v2) = choose_response-Good arrivals p1 h v1 in
      let (_, tx, p2) = choose_peer_response arrivals p1 in
      if-preserves (λ o. Returns StaysValid o) (not (apply_coordinator_request rx p).0)
        (λ refused. ((p1, w), refl, v1))
        (λ taken. rw chosen (respond-Returns rx.type tx p2 w sendable v2))

  skip_answer :
      (p : Option (Bool × Peer × W))
      → Returns ResetKeeps p
      → Returns StaysValid (elim p [ none ↦ none | some (ok, p1, w1) ↦ some (p1, w1) ])
  skip_answer p ((ok, p1, w1), e, v) = rw e ((p1, w1), refl, v)

  -- Whatever bytes the radio delivers, 32 or another number of them, and whatever packets of
  -- bytes, none of them empty, the tunnel thread queues meanwhile, the peer's handling of the
  -- packet returns from every valid state, with fuel for the 401 rounds of one Send or more, and
  -- leaves a valid state. The clock must go on.
  pub handle_packet-Returns :
      (arrivals : List (List ℕ)) (packet : List ℕ) (p : Peer) (w : W)
      → All IsQueued arrivals
      → All IsByte packet
      → IsValid p
      → Returns StaysValid (handle_packet dev fuel arrivals packet p w)
  unfolding handle_packet
  handle_packet-Returns arrivals packet p w h bytes v =
      elim (decode-IsSendable packet empty_frame bytes) [
        | inr (odd, kept) ↦ rw kept ((p, w), refl, v)
        | inl (size, decoded, sendable) ↦
            let rx = (decode_mac_frame packet empty_frame).1 in
            let p1 = record p { counters = record_rx rx.type p.counters } in
            let v1 = with_peer_link p p.radio p1.counters p.last_stat_print_us v.link v in
            rw decoded (
              if-preserves (λ o. Returns StaysValid o) (is_reset rx.type)
                (λ resets. skip_answer _ (handle_reset-Returns p1 w v1))
                (λ serves. serve-Returns arrivals rx p1 w h sendable v1))
      ]
