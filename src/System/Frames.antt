-- ===== src/System/Frames.antt =====
-- The frames that ChooseCoordinatorTxFrame and ChoosePeerResponse pick, and what the other side's link
-- makes of them.
use n_rf24_module.Prelude.{
  ℕ, ◌≡◌, ◌≢◌, ◌⊎◌, inl, inr, refl, sym, ap, ◌∙◌, subst, Bool, true, false, ◌&&◌, [], arith, leb,
  ltb, value_or, if-preserves,
}
use n_rf24_module.Frame.{FrameType, pending, grant, ack, MacFrame, empty_frame}
use n_rf24_module.Frame.Codec.{encode_mac_frame, decode_mac_frame}
use n_rf24_module.Frame.RoundTrip.{IsByte, IsSendable, decode-encode}
use n_rf24_module.RadioInterface.{RadioInterface, no_seq}
use n_rf24_module.RadioInterface.Valid
use n_rf24_module.RadioInterface.Transmit.{build_next_data_frame_locked, commit_ack_locked}
use n_rf24_module.RadioInterface.Assembly.{consume_data_frame_locked, accept_data_frame}
use n_rf24_module.RadioInterface.Fragment.{flight_frame, flight_frame-IsSendable}
use n_rf24_module.Session.{Node, control_frame, sends_control, receive_frame, heard}
use n_rf24_module.Session.Hearing.{ActIsValid, heard-receive, control-IsSendable}
use n_rf24_module.Session.Agree.{Agree, launched-Agree, hears-Agree, control_heard-Agree}
use n_rf24_module.Coordinator.{
  default_burst_grant, fair_data_burst_limit, Coordinator, CoordinatorState, reset_sync, idle,
  issue_grant, active_rx,
}
use n_rf24_module.Coordinator.Choose.{
  choose_in, grant_frame, sent_grant, send_data, choose_coordinator_tx_frame, local_has_data, flag,
}
use n_rf24_module.Coordinator.Exchange.{is_reset}
use n_rf24_module.Coordinator.Apply.{apply_type, apply_peer_response}
use n_rf24_module.Coordinator.Frames.{has_data_builds, hinted-IsSendable, flag-IsByte}
use n_rf24_module.Peer.{Peer}
use n_rf24_module.Peer.Request.{
  apply_request_type, apply_coordinator_request, choose_peer_response, answer_data,
}

-- A frame that a link sends: the fragment in flight, or a frame of another type with the ACK.
abbrev pub Sends : RadioInterface → MacFrame → RadioInterface → Type 0
Sends r f r' =
    ((p : ℕ) × IsByte p
      × (f ≡ record (flight_frame r') { pending = p })
      × (r' ≡ (build_next_data_frame_locked r).2)
      × (r'.tx_in_flight ≡ true))
    ⊎ ((t : FrameType) × (p : ℕ) × (g : ℕ) × ActIsValid (sends_control t p g)
        × (is_reset t ≡ false)
        × (f ≡ control_frame t p g r)
        × (r' ≡ r))

-- A choice that succeeds, and sends such a frame.
abbrev pub CoordinatorSends : RadioInterface → Bool × MacFrame × Coordinator → Type 0
CoordinatorSends r out = (out.0 ≡ true) × Sends r out.1 out.2.radio

abbrev pub PeerSends : RadioInterface → Bool × MacFrame × Peer → Type 0
PeerSends r out = (out.0 ≡ true) × Sends r out.1 out.2.radio

control_choice :
    (t : FrameType) (p g : ℕ) (r : RadioInterface)
    → ActIsValid (sends_control t p g)
    → is_reset t ≡ false
    → Sends r (control_frame t p g r) r
control_choice t p g r h k = inr (t, p, g, h, k, refl, refl)

send_data-Sends :
    (c : Coordinator) → local_has_data c.radio ≡ true → CoordinatorSends c.radio (send_data c)
send_data-Sends c h =
    let (built, same, busy) = has_data_builds c.radio h in
    rw built (
      refl,
      inl (1, omega arith, ap {A = MacFrame} (λ f. record f { pending = 1 }) same, refl, busy),
    )

module _ (c : Coordinator) where
  abbrev acked : MacFrame
  acked = record empty_frame { ack = value_or c.radio.last_rx_seq no_seq }

  grant-Sends : (b : Bool) → CoordinatorSends c.radio (true, grant_frame b acked, sent_grant c)
  grant-Sends b = (
    refl,
    control_choice grant (flag b) default_burst_grant c.radio (refl, tt, flag-IsByte b, omega arith)
        refl,
  )

  choose_in-Sends :
      (s : CoordinatorState) (has_data : Bool)
      → s ≢ reset_sync
      → (has_data ≡ true → local_has_data c.radio ≡ true)
      → CoordinatorSends c.radio (choose_in s has_data acked c)
  unfolding choose_in
  choose_in-Sends reset_sync has_data h k = absurd (h refl)
  choose_in-Sends issue_grant has_data h k = grant-Sends has_data
  choose_in-Sends active_rx has_data h k = grant-Sends has_data
  choose_in-Sends idle false h k =
      (refl, control_choice pending 0 0 c.radio (refl, tt, omega arith, omega arith) refl)
  choose_in-Sends idle true h k =
      if-preserves (λ o. CoordinatorSends c.radio o)
        (c.peer_has_pending && leb fair_data_burst_limit c.consecutive_local_data_frames)
        (λ fair. grant-Sends true) (λ free. send_data-Sends c (k refl))

pub choose-Sends :
    (c : Coordinator)
    → c.state ≢ reset_sync
    → CoordinatorSends c.radio (choose_coordinator_tx_frame [] c)
unfolding choose_coordinator_tx_frame
choose-Sends c h = choose_in-Sends c c.state (local_has_data c.radio) h (λ e. e)

answer_data-Sends : (p : Peer) → local_has_data p.radio ≡ true → PeerSends p.radio (answer_data p)
answer_data-Sends p h =
    let (built, same, busy) = has_data_builds p.radio h in
    rw built (
      refl,
      inl (1, omega arith, ap {A = MacFrame} (λ f. record f { pending = 1 }) same, refl, busy),
    )

pub choose_response-Sends : (p : Peer) → PeerSends p.radio (choose_peer_response [] p)
unfolding choose_peer_response
choose_response-Sends p =
    let has_data = local_has_data p.radio in
    if-preserves (λ o. PeerSends p.radio o) (p.granted_to_send && ltb 0 p.grant_budget && has_data)
      (λ free. answer_data-Sends p (ground arith))
      (λ held.
        if-preserves (λ o. PeerSends p.radio o) has_data
          (λ waiting. (
            refl,
            control_choice pending (flag has_data) 0 p.radio
                (refl, tt, flag-IsByte has_data, omega arith) refl,
          ))
          (λ empty. (
            refl,
            control_choice ack (flag has_data) 0 p.radio
                (refl, tt, flag-IsByte has_data, omega arith) refl,
          )))

-- Both sides receive as the link does.
apply_type-radio : (t : FrameType) (c : Coordinator) → (apply_type t c).1.radio ≡ c.radio
unfolding apply_type
apply_type-radio t c = ground arith

pub apply-receives :
    (f : MacFrame) (c : Coordinator) → (apply_peer_response f c).1.radio ≡ receive_frame f c.radio
unfolding apply_peer_response receive_frame consume_data_frame_locked
apply-receives f c = ground arith

apply_type-receives :
    (t : FrameType) (f : MacFrame) (p : Peer)
    → f.type ≡ t
    → (apply_request_type t f p).1.radio ≡ (consume_data_frame_locked f p.radio).1
unfolding apply_request_type consume_data_frame_locked
apply_type-receives t f p e = ground arith

pub apply_request-receives :
    (f : MacFrame) (p : Peer) → (apply_coordinator_request f p).1.radio ≡ receive_frame f p.radio
unfolding apply_coordinator_request receive_frame
apply_request-receives f p =
    apply_type-receives f.type f (record p { radio = commit_ack_locked f.ack p.radio }) refl

-- The hint of a frame does not matter to the link that hears it.
pub receive-hinted :
    (f : MacFrame) (r : RadioInterface) (p : ℕ)
    → receive_frame (record f { pending = p }) r ≡ receive_frame f r
unfolding receive_frame consume_data_frame_locked accept_data_frame
receive-hinted f r p = refl

heard-hinted :
    (a r : RadioInterface) (p : ℕ)
    → IsByte p
    → Valid.IsValid a
    → a.tx_in_flight ≡ true
    → heard (record (flight_frame a) { pending = p }) r ≡ heard (flight_frame a) r
heard-hinted a r p b v busy =
    let s = flight_frame-IsSendable a v busy in
    let hinted = record (flight_frame a) { pending = p } in
    heard-receive hinted r (hinted-IsSendable (flight_frame a) p b s)
    ∙ (receive-hinted (flight_frame a) r p ∙ sym (heard-receive (flight_frame a) r s))

-- Such a frame can be encoded.
pub Sends-IsSendable :
    (r : RadioInterface) (f : MacFrame) (r' : RadioInterface)
    → Valid.IsValid r
    → Valid.IsValid r'
    → Sends r f r'
    → IsSendable f
Sends-IsSendable r f r' v v' (inl (p, b, e, k, busy)) =
    subst IsSendable (sym e)
      (hinted-IsSendable (flight_frame r') p b (flight_frame-IsSendable r' v' busy))
Sends-IsSendable r f r' v v' (inr (t, p, g, h, l, e, k)) =
    subst IsSendable (sym e) (control-IsSendable t p g r h v)

Sends-no_reset :
    (r : RadioInterface) (f : MacFrame) (r' : RadioInterface)
    → Sends r f r'
    → is_reset f.type ≡ false
Sends-no_reset r f r' (inl (p, b, e, k, busy)) = ap (λ o. is_reset o.type) e
Sends-no_reset r f r' (inr (t, p, g, h, l, e, k)) = ap (λ o. is_reset o.type) e ∙ l

-- Such a frame arrives as it was sent, and is no Reset.
pub Sends-arrives :
    (r : RadioInterface) (f : MacFrame) (r' : RadioInterface)
    → Valid.IsValid r
    → Valid.IsValid r'
    → Sends r f r'
    → (decode_mac_frame (encode_mac_frame f).1 empty_frame ≡ (true, f)) × (is_reset f.type ≡ false)
Sends-arrives r f r' v v' h =
    ((decode-encode f empty_frame (Sends-IsSendable r f r' v v' h)).1, Sends-no_reset r f r' h)

-- The links agree when such a frame has been sent.
pub sent-Agree :
    (m n : Node) (f : MacFrame) (r : RadioInterface)
    → Sends m.radio f r
    → Agree m n
    → Agree (record m { radio = r }) n
sent-Agree m n f r (inl (p, b, e, k, busy)) g =
    subst (λ o. Agree (record m { radio = o }) n) (sym k) (launched-Agree m n g)
sent-Agree m n f r (inr (t, p, q, h, l, e, k)) g =
    subst (λ o. Agree (record m { radio = o }) n) (sym k) g

-- And also when it has been heard.
pub heard-Agree :
    (m n : Node) (f : MacFrame) (r : RadioInterface)
    → Sends m.radio f r
    → Agree m n
    → Agree (record m { radio = r }) (record n { radio = heard f n.radio })
heard-Agree m n f r (inl (p, b, e, k, busy)) g =
    let sent = sent-Agree m n f r (inl (p, b, e, k, busy)) g in
    subst (λ o. Agree (record m { radio = r }) (record n { radio = o }))
      (sym (ap (λ o. heard o n.radio) e ∙ heard-hinted r n.radio p b sent.here_valid busy))
      (hears-Agree (record m { radio = r }) n busy sent)
heard-Agree m n f r (inr (t, p, q, h, l, e, k)) g =
    subst (λ o. Agree (record m { radio = o }) (record n { radio = heard f n.radio })) (sym k)
      (subst (λ o. Agree m (record n { radio = heard o n.radio })) (sym e)
        (control_heard-Agree t p q m n h g))
