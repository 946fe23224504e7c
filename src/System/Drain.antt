-- ===== src/System/Drain.antt =====
-- How long the coordinator and the peer (nerfnet/net/primary_radio_interface.cc and
-- secondary_radio_interface.cc) need to empty both queues when no frame is lost.
use n_rf24_module.Prelude.{
  ℕ, ◌+◌, ◌*◌, ◌≤◌, ◌≡◌, ◌⊎◌, ◌∙◌, inl, ap, false, ◌==◌, arith, value_or, if◌then◌else◌,
}
use n_rf24_module.Frame.{pending, data_frame}
use n_rf24_module.Frame.Codec.{is_data}
use n_rf24_module.RadioInterface.{RadioInterface}
use n_rf24_module.RadioInterface.Transmit.{commit_ack_locked}
use n_rf24_module.Session.{receive_frame}
use n_rf24_module.Session.Hearing.{receive_control}
use n_rf24_module.Session.Progress.{fragments}
use n_rf24_module.Coordinator.{CoordinatorState, reset_sync, idle, issue_grant, active_rx}
use n_rf24_module.Coordinator.Choose.{local_has_data}
use n_rf24_module.Peer.{Peer}
use n_rf24_module.System.{System, here, there, both_heard, exchange}
use n_rf24_module.System.Frames.{
  apply-receives, apply_request-receives, choose-Sends, choose_response-Sends, sent-Agree,
}
use n_rf24_module.System.Delivery.{IsLinked, exchange-IsLinked}
use n_rf24_module.System.Queues.{choose-read_buffer, choose_response-read_buffer}
use n_rf24_module.System.Outcome.{
  request, requesting, asked, answer, answered, informed, midway-IsLinked, answered-Agree,
  heard-exchange,
}
use n_rf24_module.System.Counting.{
  queued, receive-queued, commit-queued, commit-twice, commit-last_rx_seq, taken-queued,
}
use n_rf24_module.System.Roles.{
  ack_of, choose-ack, choose-last_rx_seq, choose_response-ack, answer_control, apply_control,
  Sends-flight,
}

-- The peer's link once it hears what the coordinator has received so far.
abbrev pub unread : System → RadioInterface
unread s = commit_ack_locked (ack_of s.coordinator.radio) s.peer.radio

abbrev pub mine : System → ℕ
mine s = queued s.coordinator.radio

abbrev pub theirs : System → ℕ
theirs s = queued (unread s)

-- The exchanges that carry no DATA: one to learn of the peer's packets, one to learn that there are
-- no more, and a Grant that is not used.
abbrev pub spare : CoordinatorState → ℕ → ℕ
spare reset_sync n = 0
spare idle n = 1
spare issue_grant n = if n == 0 then 2 else 0
spare active_rx n = if n == 0 then 2 else 0

abbrev pub work : System → ℕ
work s = 3 * (mine s + theirs s) + spare s.coordinator.state (theirs s)

pub spare_bound : (t : CoordinatorState) (n : ℕ) → spare t n ≤ 2
spare_bound t n = ground arith

module _ (s : System) (g : IsLinked s) where
  abbrev after : System
  after = exchange both_heard s

  after-radio : after.coordinator.radio ≡ (informed s).radio
  after-radio = (heard-exchange s g).0

  pub after-state : after.coordinator.state ≡ (informed s).state
  after-state = (heard-exchange s g).1

  after-peer : after.peer ≡ answered s
  after-peer = (heard-exchange s g).2

  pub asked-queued : queued (asked s).radio ≡ theirs s
  asked-queued =
      ap queued (apply_request-receives (request s) s.peer)
      ∙ (receive-queued (request s) s.peer.radio
          ∙ ap (λ k. queued (commit_ack_locked k s.peer.radio)) (choose-ack s.coordinator))

  answered-queued : queued (answered s).radio ≡ theirs s
  answered-queued = ap fragments (choose_response-read_buffer (asked s)) ∙ asked-queued

  requesting-queued : queued (requesting s).radio ≡ mine s
  requesting-queued = ap fragments (choose-read_buffer s.coordinator)

  informed-queued :
      queued (informed s).radio ≡ queued (commit_ack_locked (answer s).ack (requesting s).radio)
  informed-queued =
      ap queued (apply-receives (answer s) (requesting s))
      ∙ receive-queued (answer s) (requesting s).radio

  -- No queue grows.
  pub mine-falls : mine after ≤ mine s
  mine-falls = omega (
    arith,
    ap queued after-radio,
    informed-queued,
    requesting-queued,
    commit-queued (answer s).ack (requesting s).radio (midway-IsLinked s g).agree.here_valid,
  )

  pub theirs-falls : theirs after ≤ theirs s
  theirs-falls =
      let linked = exchange-IsLinked both_heard s g in
      omega (
        arith,
        commit-queued (ack_of after.coordinator.radio) after.peer.radio linked.agree.there_valid,
        ap (λ (p : Peer). queued p.radio) after-peer,
        answered-queued,
      )

  pub peer-queued : queued after.peer.radio ≡ theirs s
  peer-queued = ap (λ (p : Peer). queued p.radio) after-peer ∙ answered-queued

  -- The peer answers without DATA.
  module _
      (held : ((asked s).granted_to_send ≡ false) ⊎ (local_has_data (asked s).radio ≡ false)) where
    pub control :
        ((informed s).radio ≡ commit_ack_locked (answer s).ack (requesting s).radio)
        × ((informed s).state ≡ (if local_has_data (asked s).radio then issue_grant else idle))
    control =
        let (same, type, hint) = answer_control (asked s) held in
        apply_control (local_has_data (asked s).radio) (answer s) (requesting s) type hint

    control-last : after.coordinator.radio.last_rx_seq ≡ s.coordinator.radio.last_rx_seq
    control-last =
        ap (λ (r : RadioInterface). r.last_rx_seq) (after-radio ∙ control.0)
        ∙ (commit-last_rx_seq (answer s).ack (requesting s).radio
            ∙ choose-last_rx_seq s.coordinator)

  -- The coordinator sends DATA.
  pub data-falls : (request s).type ≡ data_frame → mine after + 1 ≡ mine s
  data-falls t =
      let (chosen, sends) = choose-Sends s.coordinator g.ready in
      let (p, e, busy) =
        Sends-flight s.coordinator.radio (requesting s).radio (request s) sends t in
      let sent = sent-Agree (here s) (there s) (request s) (requesting s).radio sends g.agree in
      let taken =
        taken-queued (requesting s).radio s.peer.radio s.coordinator_accepted (request s) p
          sent.here_valid busy sent.forth e in
      let same : (answer s).ack ≡ ack_of (receive_frame (request s) s.peer.radio) =
        choose_response-ack (asked s) ∙ ap ack_of (apply_request-receives (request s) s.peer) in
      omega (
        arith,
        ap queued after-radio,
        informed-queued,
        ap (λ k. queued (commit_ack_locked k (requesting s).radio)) same,
        taken,
        requesting-queued,
      )

  -- The peer answers with DATA.
  pub answer-falls : (answer s).type ≡ data_frame → theirs after + 1 ≡ theirs s
  answer-falls t =
      let (p, e, busy) =
        Sends-flight (asked s).radio (answered s).radio (answer s)
          (choose_response-Sends (asked s)).1 t in
      let sent = answered-Agree s g in
      let taken =
        taken-queued (answered s).radio (requesting s).radio s.peer_accepted (answer s) p
          sent.here_valid busy sent.forth e in
      let last = ap ack_of (after-radio ∙ apply-receives (answer s) (requesting s)) in
      let here_now =
        ap (λ (q : Peer). queued (commit_ack_locked (ack_of after.coordinator.radio) q.radio))
          after-peer
        ∙ ap (λ k. queued (commit_ack_locked k (answered s).radio)) last in
      omega (arith, here_now, taken, answered-queued)

  -- The peer tells of its packets.
  pub theirs-stay :
      (request s).type ≡ pending → (asked s).granted_to_send ≡ false → theirs after ≡ theirs s
  theirs-stay t held =
      let k = ack_of s.coordinator.radio in
      let now : (asked s).radio ≡ commit_ack_locked k s.peer.radio =
        apply_request-receives (request s) s.peer
        ∙ (receive_control (request s) s.peer.radio (ap is_data t)
            ∙ ap (λ n. commit_ack_locked n s.peer.radio) (choose-ack s.coordinator)) in
      let peer_now : after.peer.radio ≡ commit_ack_locked k s.peer.radio =
        ap (λ (p : Peer). p.radio) (after-peer ∙ (answer_control (asked s) (inl held)).0) ∙ now in
      ap (λ r. queued (commit_ack_locked (ack_of after.coordinator.radio) r)) peer_now
      ∙ (ap (λ o. queued (commit_ack_locked (value_or o 0) (commit_ack_locked k s.peer.radio)))
            (control-last (inl held))
          ∙ ap queued (commit-twice k s.peer.radio))
