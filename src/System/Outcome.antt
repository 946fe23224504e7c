-- ===== src/System/Outcome.antt =====
-- What an exchange in which both frames are heard comes to (nerfnet/net/primary_radio_interface.cc and
-- secondary_radio_interface.cc).
use n_rf24_module.Prelude.{◌≡◌, refl, ap, subst, true, false, []}
use n_rf24_module.Session.Agree.{Agree, flip}
use n_rf24_module.Coordinator.{Coordinator}
use n_rf24_module.Coordinator.Choose.{choose_coordinator_tx_frame}
use n_rf24_module.Coordinator.Apply.{apply_peer_response}
use n_rf24_module.Coordinator.Exchange.{is_reset}
use n_rf24_module.Peer.{Peer}
use n_rf24_module.Peer.Request.{apply_coordinator_request, choose_peer_response}
use n_rf24_module.Frame.{MacFrame}
use n_rf24_module.System.{System, here, there, over_air, both_heard, exchange}
use n_rf24_module.System.Frames.{choose-Sends, choose_response-Sends, Sends-arrives, sent-Agree}
use n_rf24_module.System.Delivery.{IsLinked, choose-state, arrives, took-IsLinked}
use n_rf24_module.System.Accepted.{exchange-Succeeds}

abbrev pub request : System → MacFrame
request s = (choose_coordinator_tx_frame [] s.coordinator).1

abbrev pub requesting : System → Coordinator
requesting s = (choose_coordinator_tx_frame [] s.coordinator).2

abbrev pub asked : System → Peer
asked s = (apply_coordinator_request (request s) s.peer).1

abbrev pub answer : System → MacFrame
answer s = (choose_peer_response [] (asked s)).1

abbrev pub answered : System → Peer
answered s = (choose_peer_response [] (asked s)).2

abbrev pub informed : System → Coordinator
informed s = (apply_peer_response (answer s) (requesting s)).1

request_arrives :
    (s : System)
    → IsLinked s
    → (over_air (request s) ≡ request s) × (is_reset (request s).type ≡ false)
request_arrives s g =
    let (chosen, sends) = choose-Sends s.coordinator g.ready in
    let whole = arrives (request s) s (requesting s) sends g (choose-state s.coordinator) in
    (whole.0, subst (λ o. is_reset o.type ≡ false) whole.0 whole.1)

-- Once the peer has heard the request.
abbrev pub midway : System → System
midway s = record s { coordinator = requesting s; peer = asked s }

pub midway-IsLinked : (s : System) → IsLinked s → IsLinked (midway s)
midway-IsLinked s g =
    let (chosen, sends) = choose-Sends s.coordinator g.ready in
    subst
      (λ o.
        IsLinked
          (record s { coordinator = requesting s; peer = (apply_coordinator_request o s.peer).1 }))
      (request_arrives s g).0
      (took-IsLinked (request s) s (requesting s) sends g (choose-state s.coordinator))

-- The peer's link agrees once its answer is on the air.
pub answered-Agree :
    (s : System)
    → IsLinked s
    → Agree (record (there (midway s)) { radio = (answered s).radio }) (here (midway s))
answered-Agree s g =
    sent-Agree (there (midway s)) (here (midway s)) (answer s) (answered s).radio
      (choose_response-Sends (asked s)).1 (flip (midway-IsLinked s g).agree)

answer_arrives : (s : System) → IsLinked s → over_air (answer s) ≡ answer s
answer_arrives s g =
    ap (λ o. o.1)
      (Sends-arrives (asked s).radio (answer s) (answered s).radio
        (midway-IsLinked s g).agree.there_valid (answered-Agree s g).here_valid
        (choose_response-Sends (asked s)).1).0

pub request_taken :
    (s : System) → IsLinked s → (apply_coordinator_request (request s) s.peer).0 ≡ true
request_taken s g =
    subst (λ o. (apply_coordinator_request o s.peer).0 ≡ true) (request_arrives s g).0
      (exchange-Succeeds s g).1

pub answer_taken :
    (s : System) → IsLinked s → (apply_peer_response (answer s) (requesting s)).0 ≡ true
answer_taken s g =
    subst (λ o. (apply_peer_response o (requesting s)).0 ≡ true) (answer_arrives s g)
      (subst
        (λ o.
          (apply_peer_response
            (over_air (choose_peer_response [] (apply_coordinator_request o s.peer).1).1)
            (requesting s)).0
          ≡ true)
        (request_arrives s g).0 (exchange-Succeeds s g).3)

pub heard-exchange :
    (s : System)
    → IsLinked s
    → let s' = exchange both_heard s in
      (s'.coordinator.radio ≡ (informed s).radio)
      × (s'.coordinator.state ≡ (informed s).state)
      × (s'.peer ≡ answered s)
unfolding exchange
heard-exchange s g =
    let (chosen, taken, replied, _) = exchange-Succeeds s g in
    let (whole, no_reset) = request_arrives s g in
    let back = answer_arrives s g in
    let taken' = request_taken s g in
    let replied' : (choose_peer_response [] (asked s)).0 ≡ true =
      subst (λ o. (choose_peer_response [] (apply_coordinator_request o s.peer).1).0 ≡ true) whole
        replied in
    rw (chosen, whole, no_reset, taken', replied', back) (refl, refl, refl)
