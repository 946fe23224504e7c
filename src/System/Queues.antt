-- ===== src/System/Queues.antt =====
-- What an exchange of nerfnet/net/primary_radio_interface.cc and secondary_radio_interface.cc leaves in
-- the queues: packets that were there, less the bytes that were acknowledged.
use n_rf24_module.Prelude.{
  ℕ, ◌≡◌, sym, ap, subst, List, [], ◌∷◌, arith, All, drop, min, length, if-preserves,
}
use n_rf24_module.Frame.{FrameType, MacFrame}
use n_rf24_module.RadioInterface.{RadioInterface}
use n_rf24_module.RadioInterface.Transmit.{
  build_next_data_frame_locked, consume_front, commit_ack_locked,
}
use n_rf24_module.Session.{receive_frame}
use n_rf24_module.Session.Sync.{Outgoing, outgoing-consume}
use n_rf24_module.Coordinator.{Coordinator}
use n_rf24_module.Coordinator.Choose.{choose_in, choose_coordinator_tx_frame}
use n_rf24_module.Coordinator.Exchange.{is_reset}
use n_rf24_module.Peer.{Peer}
use n_rf24_module.Peer.Request.{apply_coordinator_request, choose_peer_response}
use n_rf24_module.System.{
  System, over_air, Air, request_lost, answer_lost, both_heard, hear_answer, answer_request,
  take_request, hear_request, exchange,
}
use n_rf24_module.System.Frames.{apply-receives, apply_request-receives}

module _ (P : List ℕ → Type 0) (rest_too : (n : ℕ) (p : List ℕ) → P p → P (drop n p)) where
  consume_front-All : (n : ℕ) (q : List (List ℕ)) → All P q → All P (consume_front n q)
  consume_front-All n [] h = tt
  consume_front-All n (f ∷ q) h = ground (arith, rest_too (min (length f) n) f h.0)

  commit-All :
      (a : ℕ) (r : RadioInterface) → All P r.read_buffer → All P (commit_ack_locked a r).read_buffer
  unfolding commit_ack_locked
  commit-All a r h =
      ground (arith, consume_front-All (length r.tx_inflight_payload) r.read_buffer h)

  pub receive-All :
      (f : MacFrame) (r : RadioInterface)
      → All P r.read_buffer
      → All P (receive_frame f r).read_buffer
  unfolding receive_frame
  receive-All f r h =
      let committed = commit_ack_locked f.ack r in
      subst (All P) (sym (ap (λ (o : Outgoing). o.queue) (outgoing-consume f committed)))
        (commit-All f.ack r h)

pub choose-read_buffer :
    (c : Coordinator) → (choose_coordinator_tx_frame [] c).2.radio.read_buffer ≡ c.radio.read_buffer
unfolding choose_coordinator_tx_frame choose_in build_next_data_frame_locked
choose-read_buffer c = ground arith

pub choose_response-read_buffer :
    (p : Peer) → (choose_peer_response [] p).2.radio.read_buffer ≡ p.radio.read_buffer
unfolding choose_peer_response build_next_data_frame_locked
choose_response-read_buffer p = ground arith

module _ (P Q : List ℕ → Type 0) (rest_P : (n : ℕ) (p : List ℕ) → P p → P (drop n p))
    (rest_Q : (n : ℕ) (p : List ℕ) → Q p → Q (drop n p)) where
  -- The coordinator's queue and the peer's.
  abbrev pub HoldQueues : System → Type 0
  HoldQueues s = All P s.coordinator.radio.read_buffer × All Q s.peer.radio.read_buffer

  hear_answer-All :
      (air : Air) (sent : FrameType) (f : MacFrame) (c : Coordinator)
      → All P c.radio.read_buffer
      → All P (hear_answer air sent f c).radio.read_buffer
  hear_answer-All request_lost sent f c h = h
  hear_answer-All answer_lost sent f c h = h
  hear_answer-All both_heard sent f c h =
      subst (λ (r : RadioInterface). All P r.read_buffer) (sym (apply-receives (over_air f) c))
        (receive-All P rest_P (over_air f) c.radio h)

  answer-HoldQueues :
      (air : Air) (sent : FrameType) (s : System)
      → HoldQueues s
      → HoldQueues (answer_request air sent s)
  answer-HoldQueues air sent s h =
      let (chosen, frame, p) = choose_peer_response [] s.peer in
      let kept = subst (All Q) (sym (choose_response-read_buffer s.peer)) h.1 in
      if-preserves (λ o. HoldQueues o) chosen
        (λ yes_chosen. (hear_answer-All air sent frame s.coordinator h.0, kept))
        (λ not_chosen. (h.0, kept))

  take-HoldQueues :
      (air : Air) (sent : FrameType) (rx : MacFrame) (s : System)
      → HoldQueues s
      → HoldQueues (take_request air sent rx s)
  take-HoldQueues air sent rx s h =
      let (applied, p) = apply_coordinator_request rx s.peer in
      let kept =
        subst (λ (r : RadioInterface). All Q r.read_buffer) (sym (apply_request-receives rx s.peer))
          (receive-All Q rest_Q rx s.peer.radio h.1) in
      if-preserves (λ o. HoldQueues o) (is_reset rx.type) (λ resets. h)
        (λ no_reset.
          if-preserves (λ o. HoldQueues o) applied
            (λ taken. answer-HoldQueues air sent (record s { peer = p }) (h.0, kept))
            (λ refused. (h.0, kept)))

  hear-HoldQueues :
      (air : Air) (frame : MacFrame) (s : System)
      → HoldQueues s
      → HoldQueues (hear_request air frame s)
  hear-HoldQueues request_lost frame s h = h
  hear-HoldQueues answer_lost frame s h =
      take-HoldQueues answer_lost frame.type (over_air frame) s h
  hear-HoldQueues both_heard frame s h = take-HoldQueues both_heard frame.type (over_air frame) s h

  pub exchange-HoldQueues : (air : Air) (s : System) → HoldQueues s → HoldQueues (exchange air s)
  unfolding exchange
  exchange-HoldQueues air s h =
      let (chosen, frame, c) = choose_coordinator_tx_frame [] s.coordinator in
      let kept = subst (All P) (sym (choose-read_buffer s.coordinator)) h.0 in
      if-preserves (λ o. HoldQueues o) chosen
        (λ yes_chosen. hear-HoldQueues air frame (record s { coordinator = c }) (kept, h.1))
        (λ not_chosen. (kept, h.1))
