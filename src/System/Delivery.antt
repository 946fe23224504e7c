-- ===== src/System/Delivery.antt =====
-- What the coordinator and the peer (nerfnet/net/primary_radio_interface.cc and
-- secondary_radio_interface.cc) deliver against each other.
use n_rf24_module.Prelude.{
  ◌≡◌, ◌≢◌, refl, sym, ap, ◌∙◌, subst, false, List, [], ◌∷◌, arith, All, if-preserves,
}
use n_rf24_module.Frame.{FrameType, MacFrame}
use n_rf24_module.Frame.RoundTrip.{IsByte}
use n_rf24_module.RadioInterface.{RadioInterface}
use n_rf24_module.Session.{receive_frame, heard}
use n_rf24_module.Session.Agree.{Agree, flip, fresh-Agree, reads-Agree}
use n_rf24_module.Session.Delivery.{Delivers, Sync-Delivers}
use n_rf24_module.Coordinator.{Coordinator, reset_sync, new_coordinator}
use n_rf24_module.Coordinator.Choose.{choose_in, choose_coordinator_tx_frame}
use n_rf24_module.Coordinator.Apply.{apply_peer_response}
use n_rf24_module.Coordinator.Exchange.{is_reset}
use n_rf24_module.Peer.Request.{apply_coordinator_request, choose_peer_response}
use n_rf24_module.System.{
  System, fresh_system, here, there, over_air, Air, request_lost, answer_lost, both_heard, Event,
  coordinator_reads, peer_reads, exchanges, hear_answer, answer_request, take_request, hear_request,
  exchange, system_step, system_run,
}
use n_rf24_module.System.Reads.{system_run-IsIp}
use n_rf24_module.System.Frames.{
  Sends, choose-Sends, choose_response-Sends, Sends-arrives, apply-receives, apply_request-receives,
  sent-Agree, heard-Agree,
}

-- The links agree, and the coordinator is connected.
pub record IsLinked (s : System) : Type 0 where
  pub agree : Agree (here s) (there s)
  pub ready : s.coordinator.state ≢ reset_sync

pub choose-state : (c : Coordinator) → (choose_coordinator_tx_frame [] c).2.state ≡ c.state
unfolding choose_coordinator_tx_frame choose_in
choose-state c = ground arith

apply-state :
    (f : MacFrame) (c : Coordinator)
    → c.state ≢ reset_sync
    → (apply_peer_response f c).1.state ≢ reset_sync
unfolding apply_peer_response
apply-state f c h = ground arith

heard_radio : (f : MacFrame) (r : RadioInterface) → receive_frame (over_air f) r ≡ heard f r
unfolding heard
heard_radio f r = refl

-- The coordinator hears a frame that the peer's link sends, or not.
hear_answer-Agree :
    (air : Air) (sent : FrameType) (frame : MacFrame) (s : System) (r : RadioInterface)
    → Sends s.peer.radio frame r
    → Agree (here s) (there s)
    → Agree
        (record (here s) { radio = (hear_answer air sent frame s.coordinator).radio })
        (record (there s) { radio = r })
hear_answer-Agree request_lost sent frame s r h g =
    flip (sent-Agree (there s) (here s) frame r h (flip g))
hear_answer-Agree answer_lost sent frame s r h g =
    flip (sent-Agree (there s) (here s) frame r h (flip g))
hear_answer-Agree both_heard sent frame s r h g =
    subst (λ o. Agree (record (here s) { radio = o }) (record (there s) { radio = r }))
      (sym (apply-receives (over_air frame) s.coordinator ∙ heard_radio frame s.coordinator.radio))
      (flip (heard-Agree (there s) (here s) frame r h (flip g)))

hear_answer-state :
    (air : Air) (sent : FrameType) (frame : MacFrame) (c : Coordinator)
    → c.state ≢ reset_sync
    → (hear_answer air sent frame c).state ≢ reset_sync
hear_answer-state request_lost sent frame c h = h
hear_answer-state answer_lost sent frame c h = h
hear_answer-state both_heard sent frame c h = apply-state (over_air frame) c h

answer-IsLinked :
    (air : Air) (sent : FrameType) (s : System) → IsLinked s → IsLinked (answer_request air sent s)
answer-IsLinked air sent s g =
    let (chosen, sends) = choose_response-Sends s.peer in
    let (_, frame, p) = choose_peer_response [] s.peer in
    rw chosen (record {
      agree = hear_answer-Agree air sent frame s p.radio sends g.agree;
      ready = hear_answer-state air sent frame s.coordinator g.ready;
    })

take-IsLinked :
    (air : Air) (sent : FrameType) (rx : MacFrame) (s : System)
    → is_reset rx.type ≡ false
    → IsLinked (record s { peer = (apply_coordinator_request rx s.peer).1 })
    → IsLinked (take_request air sent rx s)
take-IsLinked air sent rx s k g =
    let (applied, p) = apply_coordinator_request rx s.peer in
    rw k (
      if-preserves (λ o. IsLinked o) applied
        (λ yes. answer-IsLinked air sent (record s { peer = p }) g) (λ no. g))

module _ (frame : MacFrame) (s : System) (c : Coordinator)
    (sends : Sends s.coordinator.radio frame c.radio) (g : IsLinked s)
    (l : c.state ≡ s.coordinator.state) where
  still_ready : c.state ≢ reset_sync
  still_ready = subst (λ o. o ≢ reset_sync) (sym l) g.ready

  sent-IsLinked : IsLinked (record s { coordinator = c })
  sent-IsLinked = record {
    agree = sent-Agree (here s) (there s) frame c.radio sends g.agree;
    ready = still_ready;
  }

  pub arrives : (over_air frame ≡ frame) × (is_reset (over_air frame).type ≡ false)
  arrives =
      let (whole, no_reset) =
        Sends-arrives s.coordinator.radio frame c.radio g.agree.here_valid
          sent-IsLinked.agree.here_valid sends in
      (ap (λ o. o.1) whole, ap (λ o. is_reset o.1.type) whole ∙ no_reset)

  -- The peer has heard the frame.
  pub took-IsLinked :
      IsLinked
        (record s { coordinator = c; peer = (apply_coordinator_request (over_air frame) s.peer).1 })
  took-IsLinked = record {
    agree =
        subst (λ o. Agree (record (here s) { radio = c.radio }) (record (there s) { radio = o }))
          (sym (apply_request-receives (over_air frame) s.peer ∙ heard_radio frame s.peer.radio))
          (heard-Agree (here s) (there s) frame c.radio sends g.agree);
    ready = still_ready;
  }

  heard-IsLinked :
      (air : Air)
      → IsLinked (take_request air frame.type (over_air frame) (record s { coordinator = c }))
  heard-IsLinked air =
      take-IsLinked air frame.type (over_air frame) (record s { coordinator = c }) arrives.1
        took-IsLinked

  hear_request-IsLinked :
      (air : Air) → IsLinked (hear_request air frame (record s { coordinator = c }))
  hear_request-IsLinked request_lost = sent-IsLinked
  hear_request-IsLinked answer_lost = heard-IsLinked answer_lost
  hear_request-IsLinked both_heard = heard-IsLinked both_heard

pub exchange-IsLinked : (air : Air) (s : System) → IsLinked s → IsLinked (exchange air s)
unfolding exchange
exchange-IsLinked air s g =
    let (chosen, sends) = choose-Sends s.coordinator g.ready in
    let (_, frame, c) = choose_coordinator_tx_frame [] s.coordinator in
    rw chosen (hear_request-IsLinked frame s c sends g (choose-state s.coordinator) air)

-- The tunnel threads read bytes.
abbrev pub EventIsBytes : Event → Type 0
EventIsBytes (coordinator_reads packet) = All IsByte packet
EventIsBytes (peer_reads packet) = All IsByte packet
EventIsBytes (exchanges air) = Unit {0}

pub step-IsLinked :
    (e : Event) (s : System) → EventIsBytes e → IsLinked s → IsLinked (system_step e s)
unfolding system_step
step-IsLinked (coordinator_reads packet) s h g = record {
  agree = reads-Agree packet (here s) (there s) h g.agree;
  ready = g.ready;
}
step-IsLinked (peer_reads packet) s h g = record {
  agree = flip (reads-Agree packet (there s) (here s) h (flip g.agree));
  ready = g.ready;
}
step-IsLinked (exchanges air) s h g = exchange-IsLinked air s g

pub system_run-IsLinked :
    (es : List Event) (s : System) → All EventIsBytes es → IsLinked s → IsLinked (system_run es s)
unfolding system_run
system_run-IsLinked [] s h g = g
system_run-IsLinked (e ∷ es) s h g =
    system_run-IsLinked es (system_step e s) h.1 (step-IsLinked e s h.0 g)

pub fresh_system-IsLinked : IsLinked fresh_system
unfolding new_coordinator
fresh_system-IsLinked = record { agree = fresh-Agree; ready = ground arith }

-- The coordinator and the peer, once they are connected, exchange the frames that
-- ChooseCoordinatorTxFrame and ChoosePeerResponse pick, of which any may be lost, while their tunnel
-- threads read any packets of bytes. Then each of them has written to its tunnel, whole and in order,
-- exactly the first of the valid IP packets that the other one read, and all of them once the other
-- one's queue is empty.
pub system_run-Delivers :
    (es : List Event)
    → All EventIsBytes es
    → let s = system_run es fresh_system in
      Delivers (here s) (there s) × Delivers (there s) (here s)
system_run-Delivers es h =
    let s = system_run es fresh_system in
    let g = (system_run-IsLinked es fresh_system h fresh_system-IsLinked).agree in
    let ip = system_run-IsIp es in
    (Sync-Delivers (here s) (there s) ip.0 g.forth, Sync-Delivers (there s) (here s) ip.1 g.back)
