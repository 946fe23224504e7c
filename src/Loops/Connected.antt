-- ===== src/Loops/Connected.antt =====
-- An exchange of the coordinator (PerformExchange of nerfnet/net/primary_radio_interface.cc) with a
-- connected peer while nothing is lost on the air.
use n_rf24_module.Prelude.{
  ℕ, ◌≤◌, ◌≡◌, ◌∙◌, refl, sym, ap, subst, true, false, not, [], some, arith, ◌||◌, if-preserves,
}
use n_rf24_module.Frame.{MacFrame, empty_frame}
use n_rf24_module.Frame.Codec.{encode_mac_frame, decode_mac_frame, is_data}
use n_rf24_module.Frame.RoundTrip.{IsSendable, decode-encode}
use n_rf24_module.Driver.{Device, Clock, Reads}
use n_rf24_module.Coordinator.{ExchangeResult, success, Coordinator, post_data_exchange_gap_us}
use n_rf24_module.Coordinator.Choose.{choose_coordinator_tx_frame}
use n_rf24_module.Coordinator.Apply.{apply_peer_response}
use n_rf24_module.Coordinator.Exchange.{
  is_reset, count_idle, finish_exchange, answer_exchange, perform_exchange,
}
use n_rf24_module.Coordinator.Valid.{IsValid}
use n_rf24_module.Coordinator.Returns.{exchange_fuel, transmit-answered}
use n_rf24_module.Peer.{Peer}
use n_rf24_module.Peer.Request.{apply_coordinator_request, choose_peer_response}
use n_rf24_module.System.{System, here, there, over_air, both_heard, exchange}
use n_rf24_module.System.Frames.{sent-Agree, choose-Sends, choose_response-Sends, Sends-IsSendable}
use n_rf24_module.System.Delivery.{IsLinked, choose-state, took-IsLinked}
use n_rf24_module.System.Accepted.{exchange-Succeeds}
use n_rf24_module.Session.Agree.{flip}
use n_rf24_module.Loops.Bare.{SamePeer, apply-Like}
use n_rf24_module.Loops.Turns.{Like}
use n_rf24_module.Loops.Heard.{Antenna, served, served_request}
use n_rf24_module.Loops.Medium.{Medium}
use n_rf24_module.Loops.Exchanged.{both}
use n_rf24_module.Loops.Exchanges.{FinishedAfter, finish-BothHeard, exchange-sends, perform-sends}
use n_rf24_module.Loops.Iterations.{sends_no_reset}
use n_rf24_module.Loops.Speaks.{Loud, Answers}
use n_rf24_module.Loops.Lossless.{Lossless, IsCalm, slept-IsCalm}
use n_rf24_module.Loops.Talks.{send-Talks}

-- The frames of an exchange of two linked programs.
abbrev pub Exchanges : Coordinator → Peer → MacFrame → Type 0
Exchanges c p f =
    let (chosen, frame, c1) = choose_coordinator_tx_frame [] c in
    (chosen ≡ true)
    × IsSendable frame
    × (is_reset (over_air frame).type ≡ false)
    × Answers frame p f
    × ((apply_peer_response (over_air f) c1).0 ≡ true)

answer-IsSendable : (s : System) → IsLinked s → IsSendable (choose_peer_response [] s.peer).1
answer-IsSendable s g =
    let (_, answers) = choose_response-Sends s.peer in
    let (_, f, p) = choose_peer_response [] s.peer in
    let sent = sent-Agree (there s) (here s) f p.radio answers (flip g.agree) in
    Sends-IsSendable s.peer.radio f p.radio g.agree.there_valid sent.here_valid answers

pub linked-Exchanges :
    (s : System)
    → IsLinked s
    → IsValid s.coordinator
    → s.coordinator.connection_reset_required ≡ false
    → (f : MacFrame) × Exchanges s.coordinator s.peer f
linked-Exchanges s g v free =
    let (chosen, other, sendable) = sends_no_reset s.coordinator v free in
    let (_, sends) = choose-Sends s.coordinator g.ready in
    let (_, frame, c) = choose_coordinator_tx_frame [] s.coordinator in
    let (_, taken, answered, applied) = exchange-Succeeds s g in
    let p1 = (apply_coordinator_request (over_air frame) s.peer).1 in
    let (_, f, p2) = choose_peer_response [] p1 in
    let takes =
      ap (λ o. o.0)
        (served_request (over_air frame) s.peer other (ap not taken) (ap not answered)) in
    let took = took-IsLinked frame s c sends g (choose-state s.coordinator) in
    (
      f,
      (
        chosen,
        sendable,
        other,
        (
          ap (λ o. o.0) (decode-encode frame empty_frame sendable).1,
          takes,
          answer-IsSendable (record s { coordinator = c; peer = p1 }) took,
        ),
        applied,
      ),
    )

module _ {W : Type 0} {V : Type 0} (dev : Device W) (peer_dev : Device V)
    (antenna : Antenna peer_dev) (medium : Medium dev peer_dev antenna)
    (loud : Loud peer_dev antenna) (lossless : Lossless dev peer_dev antenna medium) where
  open medium use {peer_of}

  -- A success, and nothing is lost from there on.
  abbrev SucceedsAfter : ExchangeResult × Coordinator × W → Type 0
  SucceedsAfter (result, c1, w1) =
      (result ≡ success) × IsCalm dev peer_dev antenna medium loud lossless w1

  finish-Succeeds :
      (frame f : MacFrame) (c : Coordinator) (w : W)
      → IsCalm dev peer_dev antenna medium loud lossless w
      → (apply_peer_response (over_air f) c).0 ≡ true
      → SucceedsAfter (finish_exchange dev frame (over_air f) c w)
  unfolding finish_exchange
  finish-Succeeds frame f c w h applies =
      let rx = over_air f in
      let counted = record c { counters = count_idle frame.type rx.type c.counters } in
      let applied : (apply_peer_response rx counted).0 ≡ true =
        (apply-Like counted c refl rx).0 ∙ applies in
      let P : ExchangeResult × Coordinator × W → Type 0 = λ o. SucceedsAfter o in
      if-preserves P (apply_peer_response rx counted).0
        (λ taken.
          if-preserves P (is_data frame.type || is_data rx.type)
            (λ waits. (
              refl,
              slept-IsCalm dev peer_dev antenna medium loud lossless post_data_exchange_gap_us w h,
            ))
            (λ goes_on. (refl, h)))
        (λ refused. ground (arith, refused, applied))

  -- What the exchange leaves.
  abbrev Finished : MacFrame → Coordinator → Peer → ExchangeResult × Coordinator × W → Type 0
  Finished frame c p out =
      SucceedsAfter out × FinishedAfter dev peer_dev antenna medium frame c p out

  answer-Finished :
      (frame f : MacFrame) (c : Coordinator) (p : Peer) (w : W)
      → IsCalm dev peer_dev antenna medium loud lossless w
      → is_reset (over_air frame).type ≡ false
      → Answers frame p f
      → SamePeer (peer_of w) (served (over_air frame) p).1
      → (apply_peer_response (over_air f) c).0 ≡ true
      → Finished frame c p (answer_exchange dev frame (encode_mac_frame f).1 c w)
  unfolding answer_exchange
  answer-Finished frame f c p w h other (whole, takes, s) k applied =
      let arrives = ap (λ o. o.0) (decode-encode f empty_frame s).1 in
      if-preserves (λ o. Finished frame c p o)
        (not (decode_mac_frame (encode_mac_frame f).1 empty_frame).0)
        (λ odd. ground (arith, odd, arrives))
        (λ decoded. (
          finish-Succeeds frame f c w h applied,
          finish-BothHeard dev peer_dev antenna medium frame c p f w other takes k,
        ))

  -- PerformExchange of a connected node while nothing is lost: it succeeds, as an exchange of which
  -- both frames are heard.
  pub perform-Succeeds :
      (clock : Clock dev)
      → Reads dev
      → (fuel : ℕ) → exchange_fuel ≤ fuel
      → (c : Coordinator) (w : W) (f : MacFrame)
      → IsCalm dev peer_dev antenna medium loud lossless w
      → dev.has_irq_line ≡ false
      → Exchanges c (peer_of w) f
      → (c1 : Coordinator) × (w1 : W) × (perform_exchange dev fuel [] [] c w
          ≡ some (success, c1, w1))
        × IsCalm dev peer_dev antenna medium loud lossless w1
        × Like (both c1 (peer_of w1)) (exchange both_heard (both c (peer_of w)))
  perform-Succeeds clock reads fuel enough c w f h polls
        (chosen, sendable, other, answers, applied) =
      let (_, frame, c') = choose_coordinator_tx_frame [] c in
      let p = peer_of w in
      let (w1, w2, sent, got, h2, k) =
        send-Talks dev peer_dev antenna medium loud lossless clock reads polls fuel enough frame f w
          sendable h answers in
      let out = answer_exchange dev frame (encode_mac_frame f).1 c' w2 in
      let ((ok, h3), heard) = answer-Finished frame f c' p w2 h2 other answers k applied in
      let runs =
        perform-sends dev peer_dev antenna medium fuel c w chosen
        ∙ transmit-answered dev fuel [] frame c' w w1 w2 (encode_mac_frame f).1
            (decode-encode frame empty_frame sendable).0 sent got in
      (
        out.1,
        out.2,
        runs ∙ ap (λ o. some (o, out.1, out.2)) ok,
        h3,
        subst (λ o. Like (both out.1 (peer_of out.2)) o)
            (sym (exchange-sends dev peer_dev antenna medium both_heard c p chosen)) heard,
      )
