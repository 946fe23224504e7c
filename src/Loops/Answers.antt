-- ===== src/Loops/Answers.antt =====
-- The handling of a packet in Run (nerfnet/net/secondary_radio_interface.cc) over a radio.
use n_rf24_module.Prelude.{
  ℕ, ◌≡◌, ◌∙◌, ◌⊎◌, inl, inr, refl, sym, ap, Bool, true, false, not, List, [], Option, none, some,
  if-preserves,
}
use n_rf24_module.Frame.{FrameType, MacFrame, empty_frame}
use n_rf24_module.Frame.Codec.{encode_mac_frame, decode_mac_frame}
use n_rf24_module.Driver.{RequestResult, Device}
use n_rf24_module.Driver.Send.{send}
use n_rf24_module.Coordinator.Exchange.{is_reset, reset_frame}
use n_rf24_module.Coordinator.Loop.{stat_time}
use n_rf24_module.Peer.{Peer}
use n_rf24_module.Peer.Request.{apply_coordinator_request, choose_peer_response, record_rx}
use n_rf24_module.Peer.Loop.{
  peer_cleared, count_sent, after_reset_answer, handle_reset, respond, serve, handle_packet,
}
use n_rf24_module.System.{over_air}
use n_rf24_module.Loops.Bare.{bare_peer, SamePeer}
use n_rf24_module.Loops.Heard.{
  After, Antenna, served, served-Like, served_reset, served_refused, served_nothing, served_request,
  Sends, SendsAfter, stays-Sends, send-Sends,
}

-- The peer and what it has sent, once it may have heard a frame: it ignored the frame, or took it
-- and sent its answer, or failed to send it.
abbrev pub Hears : MacFrame → Peer → Peer → Option (List ℕ) → Type 0
Hears frame p p' answer =
    let (tx, p1) = served (over_air frame) p in
    (SamePeer p' p × (answer ≡ none))
    ⊎ (SamePeer p' p1
        × ((answer ≡ none)
            ⊎ ((f : MacFrame) × (tx ≡ some f) × (answer ≡ some (encode_mac_frame f).1))))

-- What is counted once an answer was sent.
abbrev answered : RequestResult → FrameType → MacFrame → ℕ → Peer → Peer
answered result t f now_us p = record p {
  counters = count_sent result t f.type p.counters;
  last_stat_print_us = stat_time now_us p.last_stat_print_us;
}

module _ {V : Type 0} (dev : Device V) (antenna : Antenna dev) where
  -- An answer that Send is given.
  Hears-Sends :
      (frame f : MacFrame) (p p' : Peer) (v : V)
      → (served (over_air frame) p).0 ≡ some f
      → SamePeer p' (served (over_air frame) p).1
      → Sends dev antenna (encode_mac_frame f).1 v
      → Hears frame p p' (antenna.sent v)
  Hears-Sends frame f p p' v e h (inl silent) = inr (h, inl silent)
  Hears-Sends frame f p p' v e h (inr put) = inr (h, inr (f, e, put))

  abbrev HearsAfter : MacFrame → Peer → Peer × V → Type 0
  HearsAfter frame p out = Hears frame p out.0 (antenna.sent out.1)

  respond_result :
      (frame f : MacFrame) (t : FrameType) (p p2 : Peer)
      → (served (over_air frame) p).0 ≡ some f
      → SamePeer p2 (served (over_air frame) p).1
      → (o : Option (RequestResult × V)) → After (SendsAfter dev antenna (encode_mac_frame f).1) o
      → After (HearsAfter frame p) (elim o [
        | none ↦ none
        | some (r, v1) ↦
            let (now_us, v2) = dev.time_now_us v1 in some (answered r t f now_us p2, v2)
      ])
  respond_result frame f t p p2 e h none k = tt
  respond_result frame f t p p2 e h (some (r, v1)) k =
      let (now_us, v2) = dev.time_now_us v1 in
      Hears-Sends frame f p (answered r t f now_us p2) v2 e h
        (stays-Sends dev antenna (encode_mac_frame f).1 v1 v2 (antenna.time_now_us_sends v1) k)

  respond-Hears :
      (fuel : ℕ) (frame f : MacFrame) (t : FrameType) (p p2 : Peer) (v : V)
      → antenna.sent v ≡ none
      → (served (over_air frame) p).0 ≡ some f
      → SamePeer p2 (served (over_air frame) p).1
      → After (HearsAfter frame p) (respond dev fuel t f p2 v)
  unfolding respond
  respond-Hears fuel frame f t p p2 v silent e h =
      let request = (encode_mac_frame f).1 in
      if-preserves (λ o. After (HearsAfter frame p) o) (not (encode_mac_frame f).0)
        (λ failed. inr (h, inl silent))
        (λ encoded.
          respond_result frame f t p p2 e h (send dev fuel request v)
            (send-Sends dev antenna request fuel v silent))

  Hears-Like :
      (frame : MacFrame) (p q p' : Peer) (answer : Option (List ℕ))
      → SamePeer p q
      → Hears frame p p' answer
      → Hears frame q p' answer
  Hears-Like frame p q p' answer h (inl (k, e)) = inl (k ∙ h, e)
  Hears-Like frame p q p' answer h (inr (k, inl e)) =
      inr (k ∙ (served-Like (over_air frame) p q h).1, inl e)
  Hears-Like frame p q p' answer h (inr (k, inr (f, g, e))) =
      let (same, l) = served-Like (over_air frame) p q h in inr (k ∙ l, inr (f, sym same ∙ g, e))

  -- Without a Reset.
  serve-Hears :
      (fuel : ℕ) (frame : MacFrame) (p : Peer) (v : V)
      → antenna.sent v ≡ none
      → is_reset (over_air frame).type ≡ false
      → After (HearsAfter frame p) (serve dev fuel [] (over_air frame) p v)
  unfolding serve
  serve-Hears fuel frame p v silent other =
      let rx = over_air frame in
      let (applied, p1) = apply_coordinator_request rx p in
      let (chosen, tx, p2) = choose_peer_response [] p1 in
      let P : Option (Peer × V) → Type 0 = λ o. After (HearsAfter frame p) o in
      if-preserves P (not applied)
        (λ refused.
          inr (sym (ap (λ o. bare_peer o.1) (served_refused rx p other refused)), inl silent))
        (λ taken.
          if-preserves P (not chosen)
            (λ nothing.
              inr (
                sym (ap (λ o. bare_peer o.1) (served_nothing rx p other taken nothing)),
                inl silent,
              ))
            (λ found.
              respond-Hears fuel frame tx rx.type p p2 v silent
                (ap (λ o. o.0) (served_request rx p other taken found))
                (sym (ap (λ o. bare_peer o.1) (served_request rx p other taken found)))))

  reset-Hears :
      (frame : MacFrame) (p p1 : Peer) (v1 : V)
      → is_reset (over_air frame).type ≡ true
      → SamePeer p1 (peer_cleared p)
      → Sends dev antenna (encode_mac_frame reset_frame).1 v1
      → Hears frame p p1 (antenna.sent v1)
  reset-Hears frame p p1 v1 resets h k =
      let e = served_reset (over_air frame) p resets in
      Hears-Sends frame reset_frame p p1 v1 (ap (λ o. o.0) e) (h ∙ sym (ap (λ o. bare_peer o.1) e))
        k

  reset_answer-Hears :
      (frame : MacFrame) (p p1 : Peer)
      → is_reset (over_air frame).type ≡ true
      → SamePeer p1 (peer_cleared p)
      → (o : Option (RequestResult × V))
      → After (SendsAfter dev antenna (encode_mac_frame reset_frame).1) o
      → After
          (λ (ok, p2, v2). HearsAfter frame p (p2, v2))
          (elim o [ none ↦ none | some (result, v1) ↦ some (after_reset_answer result p1 v1) ])
  reset_answer-Hears frame p p1 resets h none k = tt
  reset_answer-Hears frame p p1 resets h (some (RequestResult.success, v1)) k =
      reset-Hears frame p p1 v1 resets h k
  reset_answer-Hears frame p p1 resets h (some (RequestResult.timeout, v1)) k =
      reset-Hears frame p p1 v1 resets h k
  reset_answer-Hears frame p p1 resets h (some (RequestResult.malformed, v1)) k =
      reset-Hears frame p p1 v1 resets h k
  reset_answer-Hears frame p p1 resets h (some (RequestResult.transmit_error, v1)) k =
      reset-Hears frame p p1 v1 resets h k

  handle_reset-Hears :
      (fuel : ℕ) (frame : MacFrame) (p : Peer) (v : V)
      → antenna.sent v ≡ none
      → is_reset (over_air frame).type ≡ true
      → After (λ (ok, p2, v2). HearsAfter frame p (p2, v2)) (handle_reset dev fuel p v)
  unfolding handle_reset
  handle_reset-Hears fuel frame p v silent resets =
      let response = (encode_mac_frame reset_frame).1 in
      let P : Option (Bool × Peer × V) → Type 0 =
        λ o. After (λ (ok, p2, v2). HearsAfter frame p (p2, v2)) o in
      if-preserves P (not (encode_mac_frame reset_frame).0)
        (λ failed.
          inr (sym (ap (λ o. bare_peer o.1) (served_reset (over_air frame) p resets)), inl silent))
        (λ encoded.
          reset_answer-Hears frame p (peer_cleared p) resets refl (send dev fuel response v)
            (send-Sends dev antenna response fuel v silent))

  skip-Hears :
      (frame : MacFrame) (p : Peer) (o : Option (Bool × Peer × V))
      → After (λ (ok, p2, v2). HearsAfter frame p (p2, v2)) o
      → After (HearsAfter frame p) (elim o [ none ↦ none | some (ok, p1, v1) ↦ some (p1, v1) ])
  skip-Hears frame p none h = tt
  skip-Hears frame p (some (ok, p1, v1)) h = h

  After-Hears-Like :
      (frame : MacFrame) (p q : Peer) (o : Option (Peer × V))
      → SamePeer p q
      → After (HearsAfter frame p) o
      → After (HearsAfter frame q) o
  After-Hears-Like frame p q none h k = tt
  After-Hears-Like frame p q (some (p1, v1)) h k = Hears-Like frame p q p1 (antenna.sent v1) h k

  -- The peer hears the frame whose packet it handles.
  pub handle_packet-Hears :
      (fuel : ℕ) (frame : MacFrame) (p : Peer) (v : V)
      → antenna.sent v ≡ none
      → After (HearsAfter frame p) (handle_packet dev fuel [] (encode_mac_frame frame).1 p v)
  unfolding handle_packet
  handle_packet-Hears fuel frame p v silent =
      let rx = over_air frame in
      let p1 = record p { counters = record_rx rx.type p.counters } in
      let P : Option (Peer × V) → Type 0 = λ o. After (HearsAfter frame p) o in
      if-preserves P (not (decode_mac_frame (encode_mac_frame frame).1 empty_frame).0)
        (λ odd. inl (refl, silent))
        (λ decoded.
          if-preserves P (is_reset rx.type)
            (λ resets. After-Hears-Like frame p1 p _ refl (
              skip-Hears frame p1 (handle_reset dev fuel p1 v)
                (handle_reset-Hears fuel frame p1 v silent resets)))
            (λ other.
              After-Hears-Like frame p1 p _ refl (serve-Hears fuel frame p1 v silent other)))
