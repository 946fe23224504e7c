-- ===== src/Peer/Budget.antt =====
-- When the peer sends DATA: ApplyCoordinatorRequest and ChoosePeerResponse of
-- nerfnet/net/secondary_radio_interface.cc, one after the other.
use n_rf24_module.Prelude.{ℕ, ◌<◌, ◌≡◌, ◌↔◌, Bool, true, false, ◌&&◌, List, arith, ltb}
use n_rf24_module.Frame.{
  FrameType, invalid, pending, grant, data_frame, ack, reset, other, MacFrame,
}
use n_rf24_module.Coordinator.{arrive}
use n_rf24_module.Coordinator.Choose.{local_has_data}
use n_rf24_module.Coordinator.Frames.{build_type}
use n_rf24_module.Peer.{Peer}
use n_rf24_module.Peer.Request.{
  apply_request_type, apply_coordinator_request, choose_peer_response, answer_data,
}

-- The type of the answer, for a state with or without a grant and local data.
abbrev pub answer_type : Bool → Bool → FrameType
answer_type true true = data_frame
answer_type false true = pending
answer_type _ false = ack

answer_data_type : (p : Peer) → (answer_data p).1.type ≡ data_frame
answer_data_type p = ground (arith, build_type p.radio)

pub choose_response_type :
    (arrivals : List (List ℕ)) (p : Peer)
    → (choose_peer_response arrivals p).1.type
      ≡ answer_type (p.granted_to_send && ltb 0 p.grant_budget) (local_has_data p.radio)
unfolding choose_peer_response
choose_response_type arrivals p =
    ground (arith, answer_data_type (record p { radio = arrive arrivals p.radio }))

-- A request that ApplyCoordinatorRequest takes leaves a grant exactly when it is a Grant with a budget.
abbrev pub IsGrant : MacFrame → Type 0
IsGrant f = (f.type ≡ grant) × (0 < f.arg)

abbrev pub may_send : Peer → Bool
may_send p = p.granted_to_send && ltb 0 p.grant_budget

apply_type-may_send :
    (t : FrameType) (f : MacFrame) (p : Peer)
    → (apply_request_type t f p).0 ≡ true
    → (may_send (apply_request_type t f p).1 ≡ true) ↔ ((t ≡ grant) × (0 < f.arg))
unfolding apply_request_type
apply_type-may_send data_frame f p h = ground arith
apply_type-may_send grant f p h = ground arith
apply_type-may_send pending f p h = ground arith
apply_type-may_send ack f p h = ground arith
apply_type-may_send reset f p h = ground arith
apply_type-may_send invalid f p h = ground arith
apply_type-may_send (other n) f p h = ground arith

apply-may_send :
    (f : MacFrame) (p : Peer)
    → (apply_coordinator_request f p).0 ≡ true
    → (may_send (apply_coordinator_request f p).1 ≡ true) ↔ IsGrant f
unfolding apply_coordinator_request
apply-may_send f p h = apply_type-may_send f.type f _ h

-- What the peer makes of a request that it takes: the request is applied, then the answer chosen.
abbrev pub answer : List (List ℕ) → MacFrame → Peer → Bool × MacFrame × Peer
answer arrivals f p = choose_peer_response arrivals (apply_coordinator_request f p).1

answer_type-Tells :
    (g d : Bool)
    → ((answer_type g d ≡ data_frame) ↔ ((g ≡ true) × (d ≡ true)))
      × ((answer_type g d ≡ pending) ↔ ((g ≡ false) × (d ≡ true)))
      × ((answer_type g d ≡ ack) ↔ (d ≡ false))
answer_type-Tells true true = ground arith
answer_type-Tells false true = ground arith
answer_type-Tells true false = ground arith
answer_type-Tells false false = ground arith

-- The answer to a request that is taken, whatever was granted before: DATA exactly for a Grant
-- with a budget when there is local data, Pending exactly for any other request when there is
-- local data, and ACK exactly without local data.
pub answer-IsGrant :
    (arrivals : List (List ℕ)) (f : MacFrame) (p : Peer)
    → (apply_coordinator_request f p).0 ≡ true
    → let type = (answer arrivals f p).1.type in
      let has_data = local_has_data (apply_coordinator_request f p).1.radio in
      ((type ≡ data_frame) ↔ (IsGrant f × (has_data ≡ true)))
      × ((type ≡ pending) ↔ ((¬ IsGrant f) × (has_data ≡ true)))
      × ((type ≡ ack) ↔ (has_data ≡ false))
answer-IsGrant arrivals f p h =
    let p1 = (apply_coordinator_request f p).1 in
    let k = apply-may_send f p h in
    let tells = answer_type-Tells (may_send p1) (local_has_data p1.radio) in
    rw (choose_response_type arrivals p1) (ground arith)
