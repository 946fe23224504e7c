-- ===== src/Peer/Valid.antt =====
-- The invariant of `class SecondaryRadioInterface` (nerfnet/net/secondary_radio_interface.h), and
-- what ApplyCoordinatorRequest and ChoosePeerResponse keep.
use n_rf24_module.Prelude.{
  ℕ, ◌≡◌, ◌⊎◌, inl, inr, refl, Bool, true, ◌&&◌, List, arith, All, if-preserves, ltb,
}
use n_rf24_module.Frame.{
  FrameType, invalid, pending, grant, data_frame, ack, reset, other, MacFrame, empty_frame,
}
use n_rf24_module.Frame.RoundTrip.{IsSendable, IsByte}
use n_rf24_module.RadioInterface.{RadioInterface}
use n_rf24_module.RadioInterface.Transmit.{commit_ack_locked}
use n_rf24_module.RadioInterface.Valid
use n_rf24_module.RadioInterface.Valid.{
  IsQueued, initial-IsValid, reset_link-IsValid, build-IsValid, commit_ack-IsValid,
  consume_data-IsValid,
}
use n_rf24_module.RadioInterface.Fragment.{flight_frame-IsSendable, ack_IsByte}
use n_rf24_module.Coordinator.{arrive}
use n_rf24_module.Coordinator.Choose.{local_has_data}
use n_rf24_module.Coordinator.Valid.{arrive-IsValid, arrive-local_has_data}
use n_rf24_module.Coordinator.Frames.{has_data_builds, hinted-IsSendable, flag-IsByte}
use n_rf24_module.Peer.{PeerCounters, Peer, new_peer}
use n_rf24_module.Peer.Request.{
  revoked, apply_request_type, apply_coordinator_request, choose_peer_response, answer_data, spend,
}
use n_rf24_module.Peer.Loop.{peer_cleared}

pub record IsValid (p : Peer) : Type 0 where
  pub link : Valid.IsValid p.radio
  pub granted : p.granted_to_send ≡ ltb 0 p.grant_budget
  pub budget_byte : IsByte p.grant_budget

pub new_peer-IsValid : IsValid new_peer
new_peer-IsValid = record {
  link = initial-IsValid;
  granted = ground arith;
  budget_byte = omega arith;
}

pub with_peer_link :
    (p : Peer) (r : RadioInterface) (k : PeerCounters) (t : ℕ)
    → Valid.IsValid r
    → IsValid p
    → IsValid (record p { radio = r; counters = k; last_stat_print_us = t })
with_peer_link p r k t l v = record { link = l; granted = v.granted; budget_byte = v.budget_byte }

revoked-IsValid : (p : Peer) → Valid.IsValid p.radio → IsValid (revoked p)
revoked-IsValid p l = record { link = l; granted = ground arith; budget_byte = omega arith }

pub peer_cleared-IsValid : (p : Peer) → IsValid p → IsValid (peer_cleared p)
peer_cleared-IsValid p v =
    revoked-IsValid (record p { radio = _ }) (reset_link-IsValid p.radio v.link)

apply_request_type-IsValid :
    (t : FrameType) (f : MacFrame) (p : Peer)
    → IsByte f.seq
    → IsByte f.arg
    → IsValid p
    → IsValid (apply_request_type t f p).1
unfolding apply_request_type
apply_request_type-IsValid data_frame f p s a v =
    ground (arith, consume_data-IsValid f p.radio s v.link)
apply_request_type-IsValid grant f p s a v = record {
  link = v.link;
  granted = refl;
  budget_byte = a;
}
apply_request_type-IsValid pending f p s a v = revoked-IsValid p v.link
apply_request_type-IsValid ack f p s a v = revoked-IsValid p v.link
apply_request_type-IsValid reset f p s a v = v
apply_request_type-IsValid invalid f p s a v = v
apply_request_type-IsValid (other n) f p s a v = v

pub apply_request-IsValid :
    (f : MacFrame) (p : Peer) → IsSendable f → IsValid p → IsValid (apply_coordinator_request f p).1
unfolding apply_coordinator_request
apply_request-IsValid f p s v = apply_request_type-IsValid f.type f _ s.seq_byte s.arg_byte (
    with_peer_link p (commit_ack_locked f.ack p.radio) p.counters p.last_stat_print_us
      (commit_ack-IsValid f.ack p.radio v.link) v)

spend-IsValid : (p : Peer) → IsValid p → IsValid (spend p)
spend-IsValid p v = record {
  link = v.link;
  granted = ground (arith, v.granted);
  budget_byte = omega (arith, v.budget_byte);
}

-- A choice that succeeds, with a frame that can be encoded, and keeps the invariant.
abbrev pub IsGoodAnswer : Bool × MacFrame × Peer → Type 0
IsGoodAnswer out = (out.0 ≡ true) × IsSendable out.1 × IsValid out.2

answer_data-Good :
    (p : Peer) → IsValid p → local_has_data p.radio ≡ true → IsGoodAnswer (answer_data p)
answer_data-Good p v h =
    let (built, same, busy) = has_data_builds p.radio h in
    let link = build-IsValid p.radio v.link in
    rw (built, same)
      (
        refl,
        hinted-IsSendable _ 1 (omega arith) (flight_frame-IsSendable _ link busy),
        spend-IsValid _ (with_peer_link p _ p.counters p.last_stat_print_us link v),
      )

status-IsSendable :
    (t : FrameType) (a p : ℕ)
    → (t ≡ ack) ⊎ (t ≡ pending)
    → IsByte a
    → IsByte p
    → IsSendable (record empty_frame { type = t; ack = a; pending = p })
status-IsSendable t a p h ha hp = record {
  type_value = ground arith;
  seq_byte = omega arith;
  ack_byte = ha;
  pending_byte = hp;
  arg_byte = omega arith;
  payload_bytes = tt;
  payload_fits = ground arith;
}

-- In a valid state, whatever packets of bytes the tunnel thread queues meanwhile, none of them
-- empty, ChoosePeerResponse succeeds, its frame can be encoded and arrives as it is, and the state
-- stays valid.
pub choose_response-Good :
    (arrivals : List (List ℕ)) (p : Peer)
    → All IsQueued arrivals
    → IsValid p
    → IsGoodAnswer (choose_peer_response arrivals p)
unfolding choose_peer_response
choose_response-Good arrivals p h v =
    let has_data = local_has_data p.radio in
    let arrived = arrive arrivals p.radio in
    let v1 =
      with_peer_link p arrived p.counters p.last_stat_print_us
        (arrive-IsValid arrivals p.radio h v.link) v in
    let a = ack_IsByte p.radio.last_rx_seq v.link.received in
    let s = flag-IsByte has_data in
    if-preserves IsGoodAnswer (p.granted_to_send && ltb 0 p.grant_budget && has_data)
      (λ free. answer_data-Good _ v1 (arrive-local_has_data arrivals p.radio (ground arith)))
      (λ held.
        if-preserves IsGoodAnswer has_data
          (λ waiting. (refl, status-IsSendable pending _ _ (inr refl) a s, v1))
          (λ empty. (refl, status-IsSendable ack _ _ (inl refl) a s, v1)))
