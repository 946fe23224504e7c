-- ===== src/System/Accepted.antt =====
-- No frame that is heard is refused: the flags that ApplyCoordinatorRequest and ApplyPeerResponse
-- return (nerfnet/net/secondary_radio_interface.cc and primary_radio_interface.cc).
use n_rf24_module.Prelude.{
  ℕ, ◌≡◌, ◌≢◌, ◌⊎◌, inl, inr, refl, sym, ap, ◌∙◌, subst, true, false, List, [], some, arith, All,
  Option-cases,
}
use n_rf24_module.Frame.{
  FrameType, invalid, pending, grant, data_frame, ack, reset, other, MacFrame,
}
use n_rf24_module.Frame.Codec.{is_data}
use n_rf24_module.RadioInterface.{RadioInterface}
use n_rf24_module.RadioInterface.Sequence.{next_seq, next_seq-ne}
use n_rf24_module.RadioInterface.Transmit.{commit_ack_locked}
use n_rf24_module.RadioInterface.Assembly.{consume_data_frame_locked}
use n_rf24_module.RadioInterface.Fragment.{flight_IsFragment}
use n_rf24_module.Session.{Node}
use n_rf24_module.Session.Sync.{
  Sync, expecting, delivered, outgoing, incoming, Expects, incoming-commit,
}
use n_rf24_module.Session.Agree.{Agree, flip}
use n_rf24_module.Coordinator.{Coordinator, reset_sync}
use n_rf24_module.Coordinator.Apply.{apply_type, apply_peer_response}
use n_rf24_module.Coordinator.Choose.{choose_coordinator_tx_frame}
use n_rf24_module.Coordinator.Frames.{choose_type}
use n_rf24_module.Peer.{Peer}
use n_rf24_module.Peer.Request.{apply_request_type, apply_coordinator_request, choose_peer_response}
use n_rf24_module.Peer.Budget.{choose_response_type}
use n_rf24_module.System.{System, fresh_system, here, there, over_air, Event, system_run}
use n_rf24_module.System.Frames.{
  Sends, sent-Agree, choose-Sends, choose_response-Sends, Sends-arrives,
}
use n_rf24_module.System.Delivery.{
  IsLinked, choose-state, arrives, took-IsLinked, EventIsBytes, system_run-IsLinked,
  fresh_system-IsLinked,
}

-- A receiver that agrees takes the fragment in flight: it is the next one, or the last one again.
consume_seq :
    (f : MacFrame) (b : RadioInterface)
    → f.seq ≢ 0
    → (b.last_rx_seq ≡ some f.seq) ⊎ Expects b.last_rx_seq f.seq
    → (consume_data_frame_locked f b).0 ≡ true
unfolding consume_data_frame_locked
consume_seq f b h (inl last) = ground arith
consume_seq f b h (inr e) = elim (Option-cases b.last_rx_seq) [
  | inl first ↦ ground arith
  | inr (last, known) ↦
      let follows : f.seq ≡ next_seq last = subst (λ o. Expects o f.seq) known e in
      ground (arith, next_seq-ne last)
]

consume_control :
    (f : MacFrame) (b : RadioInterface)
    → is_data f.type ≡ false
    → (consume_data_frame_locked f b).0 ≡ true
unfolding consume_data_frame_locked
consume_control f b h = ground arith

Sync-seq :
    (a b : RadioInterface) (accepted : List (List ℕ))
    → a.tx_inflight_seq ≡ a.next_tx_seq
    → Sync (outgoing a) (incoming b) accepted
    → (b.last_rx_seq ≡ some a.tx_inflight_seq) ⊎ Expects b.last_rx_seq a.tx_inflight_seq
Sync-seq a b accepted k (expecting e c) = inr (subst (Expects b.last_rx_seq) (sym k) e)
Sync-seq a b accepted k (delivered f l c) = inl l

-- A link that agrees takes whatever the other one sends.
Sends-taken :
    (m n : Node) (f : MacFrame) (r : RadioInterface) (a : ℕ)
    → Sends m.radio f r
    → Agree m n
    → (consume_data_frame_locked f (commit_ack_locked a n.radio)).0 ≡ true
Sends-taken m n f r a (inl (p, b, e, k, busy)) g =
    let sent = sent-Agree m n f r (inl (p, b, e, k, busy)) g in
    let flight = flight_IsFragment r sent.here_valid busy in
    let got = commit_ack_locked a n.radio in
    let seq : f.seq ≡ r.tx_inflight_seq = ap (λ o. o.seq) e in
    consume_seq f got
      (subst (λ o. o ≢ 0) (sym seq) (omega (arith, flight.0, sent.here_valid.sequence)))
      (subst (λ o. (got.last_rx_seq ≡ some o) ⊎ Expects got.last_rx_seq o) (sym seq)
        (Sync-seq r got m.accepted flight.0 (
          subst (λ o. Sync (outgoing r) o m.accepted) (sym (incoming-commit a n.radio))
            sent.forth)))
Sends-taken m n f r a (inr (t, p, q, h, l, e, k)) g =
    consume_control f (commit_ack_locked a n.radio) (ap (λ o. is_data o.type) e ∙ h.0)

-- The types that each side takes.
request_type-taken :
    (t : FrameType) (f : MacFrame) (p : Peer)
    → (t ≡ pending) ⊎ ((t ≡ grant) ⊎ (t ≡ data_frame))
    → (consume_data_frame_locked f p.radio).0 ≡ true
    → (apply_request_type t f p).0 ≡ true
unfolding apply_request_type
request_type-taken data_frame f p h k = ground arith
request_type-taken grant f p h k = refl
request_type-taken pending f p h k = refl
request_type-taken ack f p h k = ground arith
request_type-taken reset f p h k = ground arith
request_type-taken invalid f p h k = ground arith
request_type-taken (other n) f p h k = ground arith

response_type-taken :
    (f : MacFrame) (c : Coordinator)
    → (f.type ≡ pending) ⊎ ((f.type ≡ ack) ⊎ (f.type ≡ data_frame))
    → (consume_data_frame_locked f (commit_ack_locked f.ack c.radio)).0 ≡ true
    → (apply_peer_response f c).0 ≡ true
unfolding apply_peer_response apply_type
response_type-taken f c h k = ground arith

pub request_type :
    (c : Coordinator)
    → c.state ≢ reset_sync
    → let t = (choose_coordinator_tx_frame [] c).1.type in
      (t ≡ pending) ⊎ ((t ≡ grant) ⊎ (t ≡ data_frame))
request_type c h = ground (arith, choose_type [] c)

pub response_type :
    (p : Peer)
    → let t = (choose_peer_response [] p).1.type in (t ≡ pending) ⊎ ((t ≡ ack) ⊎ (t ≡ data_frame))
response_type p = rw (choose_response_type [] p) (ground arith)

request-taken :
    (f : MacFrame) (s : System) (r : RadioInterface)
    → (f.type ≡ pending) ⊎ ((f.type ≡ grant) ⊎ (f.type ≡ data_frame))
    → Sends s.coordinator.radio f r
    → IsLinked s
    → (apply_coordinator_request f s.peer).0 ≡ true
unfolding apply_coordinator_request
request-taken f s r t h g =
    request_type-taken f.type f (record (s.peer) { radio = commit_ack_locked f.ack s.peer.radio }) t
      (Sends-taken (here s) (there s) f r f.ack h g.agree)

-- An exchange in which both frames are heard: both are chosen, and both are taken.
abbrev pub Succeeds : System → Type 0
Succeeds s =
    let (chosen, request, c) = choose_coordinator_tx_frame [] s.coordinator in
    let (taken, p) = apply_coordinator_request (over_air request) s.peer in
    let (answered, answer, p') = choose_peer_response [] p in
    (chosen ≡ true)
    × (taken ≡ true)
    × (answered ≡ true)
    × ((apply_peer_response (over_air answer) c).0 ≡ true)

response-taken :
    (s : System)
    → IsLinked s
    → let (answered, answer, p) = choose_peer_response [] s.peer in
      (apply_peer_response (over_air answer) s.coordinator).0 ≡ true
response-taken s g =
    let (answered, answers) = choose_response-Sends s.peer in
    let (_, answer, p) = choose_peer_response [] s.peer in
    let sent = sent-Agree (there s) (here s) answer p.radio answers (flip g.agree) in
    let whole =
      Sends-arrives s.peer.radio answer p.radio g.agree.there_valid sent.here_valid answers in
    subst (λ o. (apply_peer_response o.1 s.coordinator).0 ≡ true) (sym whole.0)
      (response_type-taken answer s.coordinator (response_type s.peer)
        (Sends-taken (there s) (here s) answer p.radio answer.ack answers (flip g.agree)))

pub exchange-Succeeds : (s : System) → IsLinked s → Succeeds s
exchange-Succeeds s g =
    let (chosen, sends) = choose-Sends s.coordinator g.ready in
    let (_, request, c) = choose_coordinator_tx_frame [] s.coordinator in
    let whole = (arrives request s c sends g (choose-state s.coordinator)).0 in
    let p = (apply_coordinator_request (over_air request) s.peer).1 in
    let took = took-IsLinked request s c sends g (choose-state s.coordinator) in
    (
      chosen,
      subst (λ o. (apply_coordinator_request o s.peer).0 ≡ true) (sym whole)
          (request-taken request s c.radio (request_type s.coordinator g.ready) sends g),
      (choose_response-Sends p).0,
      response-taken (record s { coordinator = c; peer = p }) took,
    )

-- After any history of tunnel reads and of exchanges with lost frames, an exchange in which both
-- frames are heard succeeds: the coordinator finds a frame, the peer takes it and finds an answer, and
-- the coordinator takes the answer.
pub system_run-Succeeds :
    (es : List Event) → All EventIsBytes es → Succeeds (system_run es fresh_system)
system_run-Succeeds es h =
    exchange-Succeeds (system_run es fresh_system)
      (system_run-IsLinked es fresh_system h fresh_system-IsLinked)
