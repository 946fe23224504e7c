-- ===== src/Loops/Exchanges.antt =====
-- PerformExchange (nerfnet/net/primary_radio_interface.cc) over a radio that the peer answers.
use n_rf24_module.Prelude.{
  ℕ, ◌≡◌, ◌∙◌, ◌||◌, inl, inr, refl, sym, ap, subst, true, false, not, List, [], Option, none, some,
  if-preserves, arith,
}
use n_rf24_module.Frame.{MacFrame, empty_frame, max_packet_size}
use n_rf24_module.Frame.Codec.{is_data, encode_mac_frame, decode_mac_frame}
use n_rf24_module.Driver.{RequestResult, Device}
use n_rf24_module.Driver.Send.{send}
use n_rf24_module.Driver.Receive.{receive}
use n_rf24_module.Coordinator.{
  ExchangeResult, send_failure, timeout_failure, Coordinator, arrive, post_data_exchange_gap_us,
}
use n_rf24_module.Coordinator.Choose.{choose_coordinator_tx_frame}
use n_rf24_module.Coordinator.Apply.{apply_peer_response}
use n_rf24_module.Coordinator.Exchange.{
  receive_timeout_us, is_reset, count_data_frames, count_idle, count_send_failure, count_timeout,
  finish_exchange, answer_exchange, transmit, perform_exchange,
}
use n_rf24_module.Peer.{Peer}
use n_rf24_module.System.{both_heard, over_air, Air, request_lost, hear_request, exchange}
use n_rf24_module.Loops.Bare.{apply-Like, bare_peer, SamePeer}
use n_rf24_module.Loops.Turns.{Like, counted-Like}
use n_rf24_module.Loops.Heard.{After, After-map, Antenna, served}
use n_rf24_module.Loops.Exchanged.{both, Exchanged, lost-Exchanged, BothHeard, answer-BothHeard}
use n_rf24_module.Loops.Medium.{Medium, Heard, Ready, Keeps-Ready}
use n_rf24_module.Frame.RoundTrip.{IsSendable}
use n_rf24_module.Peer.Valid.{IsValid}
use n_rf24_module.Loops.Calls.{SentAfter, send-Sent, ReceivedAfter, receive-Received}

module _ {W : Type 0} {V : Type 0} (dev : Device W) (peer_dev : Device V)
    (antenna : Antenna peer_dev) (medium : Medium dev peer_dev antenna) where
  open medium use {peer_of, on_air, sleep_us_stays}

  abbrev Then : W → Type 0
  Then w = Ready dev peer_dev antenna medium w

  slept-Ready : (d : ℕ) (w : W) → Then w → Then (dev.sleep_us d w)
  slept-Ready d w h =
      Keeps-Ready dev peer_dev antenna medium w (dev.sleep_us d w) (sleep_us_stays d w) h

  finish-Ready :
      (tx rx : MacFrame) (c : Coordinator) (w : W) → Then w → Then (finish_exchange dev tx rx c w).2
  unfolding finish_exchange
  finish-Ready tx rx c w h =
      let counted = record c { counters = count_idle tx.type rx.type c.counters } in
      let P : ExchangeResult × Coordinator × W → Type 0 = λ o. Then o.2 in
      if-preserves P (apply_peer_response rx counted).0
        (λ taken.
          if-preserves P (is_data tx.type || is_data rx.type)
            (λ waits. slept-Ready post_data_exchange_gap_us w h) (λ goes_on. h))
        (λ refused. h)

  answer-Ready :
      (tx : MacFrame) (response : List ℕ) (c : Coordinator) (w : W)
      → Then w
      → Then (answer_exchange dev tx response c w).2
  unfolding answer_exchange
  answer-Ready tx response c w h =
      let P : ExchangeResult × Coordinator × W → Type 0 = λ o. Then o.2 in
      if-preserves P (not (decode_mac_frame response empty_frame).0) (λ odd. h)
        (λ decoded. finish-Ready tx (decode_mac_frame response empty_frame).1 c w h)

  module _ (frame : MacFrame) (c : Coordinator) (p : Peer) where
    abbrev ExchangedAfter : ExchangeResult × Coordinator × W → Type 0
    ExchangedAfter (result, c1, w1) = Exchanged frame c p c1 (peer_of w1) × Then w1

    abbrev AnsweredAfter : ExchangeResult × Coordinator × W → Type 0
    AnsweredAfter (result, c1, w1) = Exchanged frame c p c1 (peer_of w1)

    -- From the decoded answer on.
    abbrev pub FinishedAfter : ExchangeResult × Coordinator × W → Type 0
    FinishedAfter (result, c1, w1) = BothHeard frame c p c1 (peer_of w1)

    pub finish-BothHeard :
        (f : MacFrame) (w : W)
        → is_reset (over_air frame).type ≡ false
        → (served (over_air frame) p).0 ≡ some f
        → SamePeer (peer_of w) (served (over_air frame) p).1
        → FinishedAfter (finish_exchange dev frame (over_air f) c w)
    unfolding finish_exchange
    finish-BothHeard f w other e h =
        let rx = over_air f in
        let counted = record c { counters = count_idle frame.type rx.type c.counters } in
        let (applied, c1) = apply_peer_response rx counted in
        let (applied', c1') = apply_peer_response rx c in
        let (a, k) = apply-Like counted c refl rx in
        let same = counted-Like applied applied' frame.type rx.type c1 c1' a k in
        let gone = dev.sleep_us post_data_exchange_gap_us w in
        let left : SamePeer (peer_of gone) (served (over_air frame) p).1 =
          ap bare_peer (sleep_us_stays post_data_exchange_gap_us w).0.0 ∙ h in
        let c2 = record c1 {
          consecutive_local_data_frames =
              count_data_frames applied frame.type rx.type c1.consecutive_local_data_frames;
        } in
        let at_once = answer-BothHeard frame f c c2 p (peer_of w) other e same h in
        let P : ExchangeResult × Coordinator × W → Type 0 = λ o. FinishedAfter o in
        if-preserves P applied
          (λ taken.
            if-preserves P (is_data frame.type || is_data rx.type)
              (λ waits. answer-BothHeard frame f c c2 p (peer_of gone) other e same left)
              (λ goes_on. at_once))
          (λ refused. at_once)

    answer-Exchanged :
        (response : List ℕ) (w w1 : W)
        → is_reset (over_air frame).type ≡ false
        → Heard dev peer_dev antenna medium frame p w
        → peer_of w1 ≡ peer_of w
        → on_air w ≡ some response
        → AnsweredAfter (answer_exchange dev frame response c w1)
    unfolding answer_exchange
    answer-Exchanged response w w1 other (inl (h, e)) same here = ground (arith, e, here)
    answer-Exchanged response w w1 other (inr (h, inl e)) same here = ground (arith, e, here)
    answer-Exchanged response w w1 other (inr (h, inr (f, g, e))) same here =
        let is : response ≡ (encode_mac_frame f).1 = ground (arith, e, here) in
        let h1 : SamePeer (peer_of w1) (served (over_air frame) p).1 = ap bare_peer same ∙ h in
        let P : ExchangeResult × Coordinator × W → Type 0 = λ o. AnsweredAfter o in
        subst (λ o. AnsweredAfter (answer_exchange dev frame o c w1)) (sym is)
          (if-preserves P (not (decode_mac_frame (encode_mac_frame f).1 empty_frame).0)
            (λ odd. lost-Exchanged frame c c p (peer_of w1) none refl (inr (h1, inl refl)))
            (λ decoded. (both_heard, finish-BothHeard f w1 other g h1)))

    unanswered :
        (w w1 : W)
        → Heard dev peer_dev antenna medium frame p w
        → peer_of w1 ≡ peer_of w
        → Exchanged frame c p (record c { counters = count_timeout c.counters }) (peer_of w1)
    unanswered w w1 h same =
        subst (λ o. Exchanged frame c p (record c { counters = count_timeout c.counters }) o)
          (sym same)
          (lost-Exchanged frame c (record c { counters = count_timeout c.counters }) p (peer_of w)
            (on_air w) refl h)

    unsent :
        (r : RequestResult) (w : W)
        → SentAfter dev peer_dev antenna medium frame p (r, w)
        → Exchanged frame c p
            (record c { counters = count_send_failure frame.type c.counters })
            (peer_of w)
          × Then w
    unsent r w (inl (e, same), deaf, v) = ((request_lost, (refl, ap bare_peer same)), (inr deaf, v))
    unsent r w (inr h, deaf, v) = (
      lost-Exchanged frame c (record c { counters = count_send_failure frame.type c.counters }) p
          (peer_of w) (on_air w) refl h,
      (inr deaf, v),
    )

    received-Exchanged :
        (w : W) (o : Option (RequestResult × List ℕ × W))
        → is_reset (over_air frame).type ≡ false
        → Heard dev peer_dev antenna medium frame p w
        → IsValid (peer_of w)
        → After (ReceivedAfter dev peer_dev antenna medium w) o
        → After ExchangedAfter (elim o [
          | none ↦ none
          | some (RequestResult.success, response, w2) ↦
              some (answer_exchange dev frame response (record c { radio = arrive [] c.radio }) w2)
          | some (failed, response, w2) ↦
              some (timeout_failure, record c { counters = count_timeout c.counters }, w2)
        ])
    received-Exchanged w none other h v k = tt
    received-Exchanged w (some (RequestResult.success, response, w1)) other h v
          (same, _, inl late) =
        ground (arith, late)
    received-Exchanged w (some (RequestResult.success, response, w1)) other h v
          (same, silent, inr (_, here)) =
        (
          answer-Exchanged response w w1 other h same here,
          answer-Ready frame response c w1 (inl silent, subst IsValid (sym same) v),
        )
    received-Exchanged w (some (RequestResult.timeout, response, w1)) other h v (same, silent, k) =
        (unanswered w w1 h same, (inl silent, subst IsValid (sym same) v))
    received-Exchanged w (some (RequestResult.malformed, response, w1)) other h v
          (same, silent, k) =
        (unanswered w w1 h same, (inl silent, subst IsValid (sym same) v))
    received-Exchanged w (some (RequestResult.transmit_error, response, w1)) other h v
          (same, silent, k) =
        (unanswered w w1 h same, (inl silent, subst IsValid (sym same) v))

    sent-Exchanged :
        (fuel : ℕ) (o : Option (RequestResult × W))
        → dev.has_irq_line ≡ false
        → is_reset (over_air frame).type ≡ false
        → After (SentAfter dev peer_dev antenna medium frame p) o
        → After ExchangedAfter (elim o [
          | none ↦ none
          | some (RequestResult.success, w1) ↦
              elim (receive dev fuel max_packet_size receive_timeout_us w1) [
                | none ↦ none
                | some (RequestResult.success, response, w2) ↦
                    some (
                      answer_exchange dev frame response
                        (record c { radio = arrive [] c.radio })
                        w2)
                | some (failed, response, w2) ↦
                    some (timeout_failure, record c { counters = count_timeout c.counters }, w2)
              ]
          | some (failed, w1) ↦
              some
                (send_failure, record c { counters = count_send_failure frame.type c.counters }, w1)
        ])
    sent-Exchanged fuel none polls other h = tt
    sent-Exchanged fuel (some (RequestResult.success, w1)) polls other (inl (e, same), deaf, v) =
        ground (arith, e)
    sent-Exchanged fuel (some (RequestResult.success, w1)) polls other (inr h, deaf, v) =
        received-Exchanged w1 (receive dev fuel max_packet_size receive_timeout_us w1) other h v
          (receive-Received dev peer_dev antenna medium fuel w1 polls)
    sent-Exchanged fuel (some (RequestResult.timeout, w1)) polls other h =
        unsent RequestResult.timeout w1 h
    sent-Exchanged fuel (some (RequestResult.malformed, w1)) polls other h =
        unsent RequestResult.malformed w1 h
    sent-Exchanged fuel (some (RequestResult.transmit_error, w1)) polls other h =
        unsent RequestResult.transmit_error w1 h

    transmit-Exchanged :
        (fuel : ℕ) (w : W)
        → dev.has_irq_line ≡ false
        → is_reset (over_air frame).type ≡ false
        → IsSendable frame
        → Then w
        → peer_of w ≡ p
        → After ExchangedAfter (transmit dev fuel [] frame c w)
    unfolding transmit
    transmit-Exchanged fuel w polls other sendable ready same =
        let request = (encode_mac_frame frame).1 in
        let P : Option (ExchangeResult × Coordinator × W) → Type 0 = λ o. After ExchangedAfter o in
        if-preserves P (not (encode_mac_frame frame).0)
          (λ failed. ((request_lost, (refl, ap bare_peer same)), ready))
          (λ encoded.
            sent-Exchanged fuel (send dev fuel request w) polls other
              (send-Sent dev peer_dev antenna medium fuel frame p w sendable ready same))

  pub exchange-sends :
      (air : Air) (c : Coordinator) (p : Peer)
      → let (chosen, frame, c1) = choose_coordinator_tx_frame [] c in
        chosen ≡ true → exchange air (both c p) ≡ hear_request air frame (both c1 p)
  unfolding exchange
  exchange-sends air c p chosen = rw chosen refl

  pub perform-sends :
      (fuel : ℕ) (c : Coordinator) (w : W)
      → let (chosen, frame, c1) = choose_coordinator_tx_frame [] c in
        chosen ≡ true → perform_exchange dev fuel [] [] c w ≡ transmit dev fuel [] frame c1 w
  unfolding perform_exchange
  perform-sends fuel c w chosen = rw chosen refl

  -- What an exchange of the two programs leaves.
  abbrev pub TurnsAfter : Coordinator → Peer → ExchangeResult × Coordinator × W → Type 0
  TurnsAfter c p (result, c1, w1) =
      ((air : Air) × Like (both c1 (peer_of w1)) (exchange air (both c p))) × Then w1

  -- PerformExchange is an exchange of the two programs, whatever is lost: the coordinator's frame, the
  -- peer's answer, or neither; and nothing is left to be read, or the radio does not listen.
  pub perform-Exchanges :
      (fuel : ℕ) (c : Coordinator) (w : W)
      → dev.has_irq_line ≡ false
      → let (chosen, frame, c1) = choose_coordinator_tx_frame [] c in
        chosen ≡ true
        → is_reset (over_air frame).type ≡ false
        → IsSendable frame
        → Then w
        → After (TurnsAfter c (peer_of w)) (perform_exchange dev fuel [] [] c w)
  perform-Exchanges fuel c w polls chosen other sendable ready =
      let (_, frame, c1) = choose_coordinator_tx_frame [] c in
      let p = peer_of w in
      rw (perform-sends fuel c w chosen) (
        After-map (ExchangedAfter frame c1 p) (TurnsAfter c p) (transmit dev fuel [] frame c1 w)
          (λ (result, c2, w2) ((air, l), h). (
            (
              air,
              subst (λ o. Like (both c2 (peer_of w2)) o) (sym (exchange-sends air c p chosen)) l,
            ),
            h,
          ))
          (transmit-Exchanged frame c1 p fuel w polls other sendable ready refl))
