-- ===== src/System/Roles.antt =====
-- What the two roles do in an exchange in which both frames are heard, case by case
-- (nerfnet/net/primary_radio_interface.cc and secondary_radio_interface.cc).
use n_rf24_module.Prelude.{
  ℕ, ◌≡◌, ◌⊎◌, ◌∙◌, inl, inr, sym, ap, Bool, true, false, [], arith, value_or, if◌then◌else◌,
}
use n_rf24_module.Frame.{pending, grant, data_frame, ack, MacFrame}
use n_rf24_module.RadioInterface.{RadioInterface, no_seq}
use n_rf24_module.RadioInterface.Transmit.{build_next_data_frame_locked, commit_ack_locked}
use n_rf24_module.RadioInterface.Fragment.{flight_frame}
use n_rf24_module.Coordinator.{Coordinator, idle, issue_grant, active_rx}
use n_rf24_module.Coordinator.Choose.{choose_in, choose_coordinator_tx_frame, local_has_data, flag}
use n_rf24_module.Coordinator.Apply.{apply_type, apply_peer_response}
use n_rf24_module.Peer.{Peer}
use n_rf24_module.Peer.Request.{apply_request_type, apply_coordinator_request, choose_peer_response}
use n_rf24_module.System.Frames.{Sends}

abbrev pub ack_of : RadioInterface → ℕ
ack_of r = value_or r.last_rx_seq no_seq

pub choose-ack : (c : Coordinator) → (choose_coordinator_tx_frame [] c).1.ack ≡ ack_of c.radio
unfolding choose_coordinator_tx_frame choose_in build_next_data_frame_locked
choose-ack c = ground arith

pub choose-last_rx_seq :
    (c : Coordinator) → (choose_coordinator_tx_frame [] c).2.radio.last_rx_seq ≡ c.radio.last_rx_seq
unfolding choose_coordinator_tx_frame choose_in build_next_data_frame_locked
choose-last_rx_seq c = ground arith

pub choose_response-ack : (p : Peer) → (choose_peer_response [] p).1.ack ≡ ack_of p.radio
unfolding choose_peer_response build_next_data_frame_locked
choose_response-ack p = ground arith

-- A Grant.
pub choose_grant :
    (c : Coordinator)
    → (c.state ≡ issue_grant) ⊎ (c.state ≡ active_rx)
    → ((choose_coordinator_tx_frame [] c).1.type ≡ grant)
      × ((choose_coordinator_tx_frame [] c).1.arg ≡ 3)
unfolding choose_coordinator_tx_frame choose_in
choose_grant c h = ground (arith, h)

pub apply_grant :
    (f : MacFrame) (p : Peer)
    → f.type ≡ grant
    → f.arg ≡ 3
    → let p' = (apply_coordinator_request f p).1 in
      (p'.granted_to_send ≡ true) × (p'.grant_budget ≡ 3)
unfolding apply_coordinator_request apply_request_type
apply_grant f p t a = ground (arith, t, a)

-- Any other request withdraws the grant.
pub apply_revokes :
    (f : MacFrame) (p : Peer)
    → (f.type ≡ pending) ⊎ (f.type ≡ data_frame)
    → (apply_coordinator_request f p).0 ≡ true
    → (apply_coordinator_request f p).1.granted_to_send ≡ false
unfolding apply_coordinator_request apply_request_type
apply_revokes f p t a = ground (arith, t, a)

-- An answer without DATA.
pub answer_control :
    (p : Peer)
    → (p.granted_to_send ≡ false) ⊎ (local_has_data p.radio ≡ false)
    → let (_, f, p') = choose_peer_response [] p in
      (p' ≡ p)
      × (f.type ≡ (if local_has_data p.radio then pending else ack))
      × (f.pending ≡ flag (local_has_data p.radio))
unfolding choose_peer_response
answer_control p (inl h) = ground (arith, h)
answer_control p (inr h) = ground (arith, h)

pub apply_control :
    (b : Bool) (f : MacFrame) (c : Coordinator)
    → f.type ≡ (if b then pending else ack)
    → f.pending ≡ flag b
    → let c' = (apply_peer_response f c).1 in
      (c'.radio ≡ commit_ack_locked f.ack c.radio) × (c'.state ≡ (if b then issue_grant else idle))
unfolding apply_peer_response apply_type
apply_control true f c t p = ground (arith, t, p)
apply_control false f c t p = ground (arith, t, p)

-- An answer with DATA.
pub answer_data_type :
    (p : Peer)
    → p.granted_to_send ≡ true
    → p.grant_budget ≡ 3
    → local_has_data p.radio ≡ true
    → ((choose_peer_response [] p).1.type ≡ data_frame)
      × ((choose_peer_response [] p).1.pending ≡ 1)
unfolding choose_peer_response build_next_data_frame_locked
answer_data_type p g b h = ground (arith, g, b, h)

pub apply_data :
    (f : MacFrame) (c : Coordinator)
    → f.type ≡ data_frame
    → f.pending ≡ 1
    → (apply_peer_response f c).0 ≡ true
    → (apply_peer_response f c).1.state ≡ active_rx
unfolding apply_peer_response apply_type
apply_data f c t p a = ground (arith, t, p, a)

-- A DATA frame that a link sends is its fragment in flight.
pub Sends-flight :
    (r r' : RadioInterface) (f : MacFrame)
    → Sends r f r'
    → f.type ≡ data_frame
    → (p : ℕ) × (f ≡ record (flight_frame r') { pending = p }) × (r'.tx_in_flight ≡ true)
Sends-flight r r' f (inl (p, b, e, k, busy)) t = (p, e, busy)
Sends-flight r r' f (inr (t', p, g, h, l, e, k)) t =
    let same : t' ≡ data_frame = sym (ap (λ o. o.type) e) ∙ t in absurd (ground (arith, same, h.0))
