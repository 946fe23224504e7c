-- ===== src/System/Quiet.antt =====
-- In state Idle the coordinator (nerfnet/net/primary_radio_interface.cc) never knows of packets that
-- the peer has waiting.
use n_rf24_module.Prelude.{
  ◌≡◌, ◌⊎◌, refl, sym, ◌∙◌, subst, false, List, [], ◌∷◌, arith, All, if-preserves, if◌then◌else◌,
}
use n_rf24_module.Frame.{FrameType, pending, data_frame, ack, MacFrame}
use n_rf24_module.Session.Agree.{flip}
use n_rf24_module.Coordinator.{Coordinator, idle, new_coordinator}
use n_rf24_module.Coordinator.Choose.{choose_in, choose_coordinator_tx_frame, local_has_data}
use n_rf24_module.Coordinator.Apply.{apply_type, apply_peer_response}
use n_rf24_module.Coordinator.Exchange.{is_reset}
use n_rf24_module.Coordinator.Frames.{choose_type}
use n_rf24_module.Peer.Request.{apply_coordinator_request, choose_peer_response}
use n_rf24_module.System.{
  System, here, there, over_air, Air, request_lost, answer_lost, both_heard, coordinator_reads,
  peer_reads, exchanges, hear_answer, answer_request, take_request, hear_request, exchange,
  system_step,
}
use n_rf24_module.System.Frames.{
  Sends, choose-Sends, choose_response-Sends, Sends-arrives, sent-Agree,
}
use n_rf24_module.System.Delivery.{IsLinked, choose-state, arrives, took-IsLinked}
use n_rf24_module.System.Accepted.{response_type}
use n_rf24_module.System.Reset.{
  start_system, reset_connection, recount, radio_turn, Turn, event, gives_up, take_turn, history,
}
use n_rf24_module.System.Reconnect.{
  TurnIsBytes, IsSound, turn-IsSound, start-IsSound, reset_arrives,
}

abbrev pub IsQuiet : Coordinator → Type 0
IsQuiet c = c.state ≡ idle → c.peer_has_pending ≡ false

abbrev IsAnswer : FrameType → Type 0
IsAnswer t = (t ≡ pending) ⊎ ((t ≡ ack) ⊎ (t ≡ data_frame))

apply-IsQuiet :
    (f : MacFrame) (c : Coordinator)
    → IsAnswer f.type
    → IsQuiet c
    → IsQuiet (apply_peer_response f c).1
unfolding apply_peer_response apply_type
apply-IsQuiet f c t q = λ i. ground (arith, q)

hear_answer-IsQuiet :
    (air : Air) (sent : FrameType) (f : MacFrame) (c : Coordinator)
    → IsAnswer (over_air f).type
    → IsQuiet c
    → IsQuiet (hear_answer air sent f c)
hear_answer-IsQuiet request_lost sent f c t q = q
hear_answer-IsQuiet answer_lost sent f c t q = q
hear_answer-IsQuiet both_heard sent f c t q = apply-IsQuiet (over_air f) c t q

answer-IsQuiet :
    (air : Air) (sent : FrameType) (s : System)
    → IsLinked s
    → IsQuiet s.coordinator
    → IsQuiet (answer_request air sent s).coordinator
answer-IsQuiet air sent s g q =
    let (chosen, sends) = choose_response-Sends s.peer in
    let (_, frame, p) = choose_peer_response [] s.peer in
    let after = sent-Agree (there s) (here s) frame p.radio sends (flip g.agree) in
    let whole =
      Sends-arrives s.peer.radio frame p.radio g.agree.there_valid after.here_valid sends in
    rw chosen (
      hear_answer-IsQuiet air sent frame s.coordinator
        (subst (λ o. IsAnswer o.1.type) (sym whole.0) (response_type s.peer)) q)

take-IsQuiet :
    (air : Air) (sent : FrameType) (rx : MacFrame) (s : System)
    → is_reset rx.type ≡ false
    → IsLinked (record s { peer = (apply_coordinator_request rx s.peer).1 })
    → IsQuiet s.coordinator
    → IsQuiet (take_request air sent rx s).coordinator
take-IsQuiet air sent rx s k g q =
    let (applied, p) = apply_coordinator_request rx s.peer in
    rw k (
      if-preserves (λ (o : System). IsQuiet o.coordinator) applied
        (λ yes_applied. answer-IsQuiet air sent (record s { peer = p }) g q) (λ not_applied. q))

choose-peer_has_pending :
    (c : Coordinator) → (choose_coordinator_tx_frame [] c).2.peer_has_pending ≡ c.peer_has_pending
unfolding choose_coordinator_tx_frame choose_in
choose-peer_has_pending c = ground arith

module _ (frame : MacFrame) (s : System) (c : Coordinator)
    (sends : Sends s.coordinator.radio frame c.radio) (g : IsLinked s)
    (l : c.state ≡ s.coordinator.state) (q : IsQuiet c) where
  heard-IsQuiet :
      (air : Air)
      → IsQuiet
          (take_request air frame.type (over_air frame) (record s { coordinator = c })).coordinator
  heard-IsQuiet air =
      take-IsQuiet air frame.type (over_air frame) (record s { coordinator = c })
        (arrives frame s c sends g l).1 (took-IsLinked frame s c sends g l) q

  hear_request-IsQuiet :
      (air : Air) → IsQuiet (hear_request air frame (record s { coordinator = c })).coordinator
  hear_request-IsQuiet request_lost = q
  hear_request-IsQuiet answer_lost = heard-IsQuiet answer_lost
  hear_request-IsQuiet both_heard = heard-IsQuiet both_heard

pub exchange-IsQuiet :
    (air : Air) (s : System)
    → IsLinked s
    → IsQuiet s.coordinator
    → IsQuiet (exchange air s).coordinator
unfolding exchange
exchange-IsQuiet air s g q =
    let (chosen, sends) = choose-Sends s.coordinator g.ready in
    let (_, frame, c) = choose_coordinator_tx_frame [] s.coordinator in
    let same = choose-state s.coordinator in
    let kept : IsQuiet c = λ i. choose-peer_has_pending s.coordinator ∙ q (sym same ∙ i) in
    rw chosen (hear_request-IsQuiet frame s c sends g same kept air)

reset-IsQuiet : (air : Air) (s : System) → IsQuiet (recount (reset_connection air s)).coordinator
unfolding reset_connection
reset-IsQuiet request_lost s = λ i. refl
reset-IsQuiet answer_lost s = rw reset_arrives (λ i. refl)
reset-IsQuiet both_heard s = rw reset_arrives (λ i. refl)

turn-IsQuiet :
    (t : Turn) (s : System)
    → IsSound s
    → IsQuiet s.coordinator
    → IsQuiet (take_turn t s).coordinator
unfolding take_turn radio_turn system_step
turn-IsQuiet gives_up s g q = λ i. ground arith
turn-IsQuiet (event (coordinator_reads p)) s g q = q
turn-IsQuiet (event (peer_reads p)) s g q = q
turn-IsQuiet (event (exchanges air)) s g q =
    if-preserves (λ (o : System). IsQuiet o.coordinator) s.coordinator.connection_reset_required
      (λ lost. reset-IsQuiet air s) (λ connected. exchange-IsQuiet air s (g.linked connected) q)

pub history-IsQuiet :
    (ts : List Turn) (s : System)
    → All TurnIsBytes ts
    → IsSound s
    → IsQuiet s.coordinator
    → IsQuiet (history ts s).coordinator
unfolding history
history-IsQuiet [] s h g q = q
history-IsQuiet (t ∷ ts) s h g q =
    history-IsQuiet ts (take_turn t s) h.1 (turn-IsSound t s h.0 g) (turn-IsQuiet t s g q)

pub start-IsQuiet : IsQuiet start_system.coordinator
unfolding new_coordinator
start-IsQuiet = λ i. ground arith

pub quiet_type :
    (c : Coordinator)
    → c.state ≡ idle
    → c.peer_has_pending ≡ false
    → (choose_coordinator_tx_frame [] c).1.type
      ≡ (if local_has_data c.radio then data_frame else pending)
quiet_type c i q = ground (arith, choose_type [] c)

-- After any history of packets that are read, of exchanges and resets with lost frames, and of
-- connections that are given up, from the start of both programs: a coordinator in state Idle does not
-- know of packets that the peer has waiting. With packets of its own it then sends DATA, however many
-- DATA frames it has sent in a row, and without any a Pending.
pub history-quiet :
    (ts : List Turn)
    → All TurnIsBytes ts
    → let c = (history ts start_system).coordinator in
      c.state ≡ idle
      → (c.peer_has_pending ≡ false)
        × ((choose_coordinator_tx_frame [] c).1.type
            ≡ (if local_has_data c.radio then data_frame else pending))
history-quiet ts h i =
    let c = (history ts start_system).coordinator in
    let quiet = history-IsQuiet ts start_system h start-IsSound start-IsQuiet i in
    (quiet, quiet_type c i quiet)
