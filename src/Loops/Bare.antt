-- ===== src/Loops/Bare.antt =====
-- The members of the two roles (nerfnet/net/primary_radio_interface.h and
-- secondary_radio_interface.h) that their answers depend on, without the statistics, the failure
-- streaks and the times.
use n_rf24_module.Prelude.{◌≡◌, ◌∙◌, sym, ap, [], arith, false}
use n_rf24_module.Frame.{MacFrame}
use n_rf24_module.RadioInterface.Transmit.{build_next_data_frame_locked}
use n_rf24_module.Coordinator.{Coordinator, no_counts}
use n_rf24_module.Coordinator.Choose.{choose_in, choose_coordinator_tx_frame}
use n_rf24_module.Coordinator.Apply.{apply_type, apply_peer_response}
use n_rf24_module.Peer.{Peer, no_peer_counts}
use n_rf24_module.Peer.Request.{apply_request_type, apply_coordinator_request, choose_peer_response}

abbrev pub bare_coordinator : Coordinator → Coordinator
bare_coordinator c = record {
  radio = c.radio;
  counters = no_counts;
  peer_grant_budget = 0;
  poll_interval_us = 0;
  current_poll_interval_us = 0;
  poll_fail_count = 0;
  send_fail_streak = 0;
  timeout_fail_streak = 0;
  disconnected = false;
  disconnect_backoff_us = 0;
  next_retry_time_us = 0;
  state = c.state;
  connection_reset_required = c.connection_reset_required;
  peer_has_pending = c.peer_has_pending;
  last_tx_was_data = false;
  consecutive_local_data_frames = c.consecutive_local_data_frames;
  last_stat_print_us = 0;
}

abbrev pub bare_peer : Peer → Peer
bare_peer p = record {
  radio = p.radio;
  counters = no_peer_counts;
  grant_budget = p.grant_budget;
  granted_to_send = p.granted_to_send;
  last_stat_print_us = 0;
}

-- Two states that differ in the rest only.
abbrev pub SameCoordinator : Coordinator → Coordinator → Type 0
SameCoordinator c d = bare_coordinator c ≡ bare_coordinator d

abbrev pub SamePeer : Peer → Peer → Type 0
SamePeer p q = bare_peer p ≡ bare_peer q

pub choose-bare :
    (c : Coordinator)
    → let (chosen, f, c1) = choose_coordinator_tx_frame [] c in
      let (chosen', f', c1') = choose_coordinator_tx_frame [] (bare_coordinator c) in
      (chosen ≡ chosen') × (f ≡ f') × SameCoordinator c1 c1'
unfolding choose_coordinator_tx_frame choose_in build_next_data_frame_locked
choose-bare c = ground arith

pub apply-bare :
    (f : MacFrame) (c : Coordinator)
    → let (applied, c1) = apply_peer_response f c in
      let (applied', c1') = apply_peer_response f (bare_coordinator c) in
      (applied ≡ applied') × SameCoordinator c1 c1'
unfolding apply_peer_response apply_type
apply-bare f c = ground arith

pub apply_request-bare :
    (f : MacFrame) (p : Peer)
    → let (applied, p1) = apply_coordinator_request f p in
      let (applied', p1') = apply_coordinator_request f (bare_peer p) in
      (applied ≡ applied') × SamePeer p1 p1'
unfolding apply_coordinator_request apply_request_type
apply_request-bare f p = ground arith

pub choose_response-bare :
    (p : Peer)
    → let (chosen, f, p1) = choose_peer_response [] p in
      let (chosen', f', p1') = choose_peer_response [] (bare_peer p) in
      (chosen ≡ chosen') × (f ≡ f') × SamePeer p1 p1'
unfolding choose_peer_response build_next_data_frame_locked
choose_response-bare p = ground arith

-- The same answers in states that differ in the rest only.
module _ (c d : Coordinator) (h : SameCoordinator c d) where
  pub choose-Like :
      let (chosen, f, c1) = choose_coordinator_tx_frame [] c in
      let (chosen', f', d1) = choose_coordinator_tx_frame [] d in
      (chosen ≡ chosen') × (f ≡ f') × SameCoordinator c1 d1
  choose-Like =
      let (a, b, e) = choose-bare c in
      let (a', b', e') = choose-bare d in
      (
        a ∙ (ap (λ o. (choose_coordinator_tx_frame [] o).0) h ∙ sym a'),
        b ∙ (ap (λ o. (choose_coordinator_tx_frame [] o).1) h ∙ sym b'),
        e ∙ (ap (λ o. bare_coordinator (choose_coordinator_tx_frame [] o).2) h ∙ sym e'),
      )

  pub apply-Like :
      (f : MacFrame)
      → let (applied, c1) = apply_peer_response f c in
        let (applied', d1) = apply_peer_response f d in (applied ≡ applied') × SameCoordinator c1 d1
  apply-Like f =
      let (a, e) = apply-bare f c in
      let (a', e') = apply-bare f d in
      (
        a ∙ (ap (λ o. (apply_peer_response f o).0) h ∙ sym a'),
        e ∙ (ap (λ o. bare_coordinator (apply_peer_response f o).1) h ∙ sym e'),
      )

module _ (p q : Peer) (h : SamePeer p q) where
  pub apply_request-Like :
      (f : MacFrame)
      → let (applied, p1) = apply_coordinator_request f p in
        let (applied', q1) = apply_coordinator_request f q in (applied ≡ applied') × SamePeer p1 q1
  apply_request-Like f =
      let (a, e) = apply_request-bare f p in
      let (a', e') = apply_request-bare f q in
      (
        a ∙ (ap (λ o. (apply_coordinator_request f o).0) h ∙ sym a'),
        e ∙ (ap (λ o. bare_peer (apply_coordinator_request f o).1) h ∙ sym e'),
      )

  pub choose_response-Like :
      let (chosen, f, p1) = choose_peer_response [] p in
      let (chosen', f', q1) = choose_peer_response [] q in
      (chosen ≡ chosen') × (f ≡ f') × SamePeer p1 q1
  choose_response-Like =
      let (a, b, e) = choose_response-bare p in
      let (a', b', e') = choose_response-bare q in
      (
        a ∙ (ap (λ o. (choose_peer_response [] o).0) h ∙ sym a'),
        b ∙ (ap (λ o. (choose_peer_response [] o).1) h ∙ sym b'),
        e ∙ (ap (λ o. bare_peer (choose_peer_response [] o).2) h ∙ sym e'),
      )
