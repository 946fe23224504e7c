-- ===== src/Loops/Iterated.antt =====
-- What an iteration of Run (nerfnet/net/primary_radio_interface.cc) comes to, and what
-- HandleTransactionFailure makes of it.
use n_rf24_module.Prelude.{
  ◌+◌, ◌≡◌, ◌∙◌, ◌⊎◌, inl, inr, refl, ap, true, false, List, [], ◌∷◌, if-preserves, if◌then◌else◌,
}
use n_rf24_module.Driver.{Device}
use n_rf24_module.Coordinator.{
  ExchangeResult, success, send_failure, timeout_failure, protocol_failure, Coordinator,
  FailureType,
}
use n_rf24_module.Coordinator.Failure.{count_failure, disconnect_now, handle_transaction_failure}
use n_rf24_module.Coordinator.Loop.{settle}
use n_rf24_module.Peer.{Peer}
use n_rf24_module.System.{System, Air, exchanges, exchange}
use n_rf24_module.System.Reset.{
  reset_connection, recount, radio_turn, lose_connection, Turn, event, gives_up, take_turn, history,
}
use n_rf24_module.Loops.Bare.{bare_coordinator, bare_peer, SameCoordinator}
use n_rf24_module.Loops.Turns.{Like}
use n_rf24_module.Loops.Heard.{Antenna}
use n_rf24_module.Loops.Medium.{Medium, Keeps, Ready, Keeps-Ready}
use n_rf24_module.Loops.Exchanged.{both}

-- What an iteration comes to: nothing while the node waits for its next retry, or a turn of the two
-- radios, behind which the coordinator may give the connection up.
pub data Iterated : Type 0 where
  waits : Iterated
  turns : Air → Iterated
  loses : Air → Iterated

abbrev pub turns_of : Iterated → List Turn
turns_of waits = []
turns_of (turns air) = event (exchanges air) ∷ []
turns_of (loses air) = event (exchanges air) ∷ gives_up ∷ []

pub turn_exchanges :
    (air : Air) (s : System)
    → s.coordinator.connection_reset_required ≡ false
    → take_turn (event (exchanges air)) s ≡ exchange air s
unfolding take_turn radio_turn
turn_exchanges air s h = ap (λ b. if b then recount (reset_connection air s) else exchange air s) h

pub turn_resets :
    (air : Air) (s : System)
    → s.coordinator.connection_reset_required ≡ true
    → take_turn (event (exchanges air)) s ≡ recount (reset_connection air s)
unfolding take_turn radio_turn
turn_resets air s h = ap (λ b. if b then recount (reset_connection air s) else exchange air s) h

-- A failure changes nothing that matters, or gives the connection up.
abbrev pub Fails : Coordinator → Coordinator → Type 0
Fails c c1 = SameCoordinator c1 c ⊎ SameCoordinator c1 (lose_connection c)

count_failure-same : (t : FailureType) (c : Coordinator) → SameCoordinator (count_failure t c) c
unfolding count_failure
count_failure-same FailureType.send c = refl
count_failure-same FailureType.timeout c = refl
count_failure-same FailureType.protocol c = refl

module _ {W : Type 0} {V : Type 0} (dev : Device W) (peer_dev : Device V)
    (antenna : Antenna peer_dev) (medium : Medium dev peer_dev antenna) where
  open medium use {peer_of, time_now_us_stays, sleep_us_stays}

  abbrev pub FailsAfter : Coordinator → W → Coordinator × W → Type 0
  FailsAfter c w (c1, w1) = Fails c c1 × Keeps dev peer_dev antenna medium w w1

  pub handle-Fails :
      (t : FailureType) (c : Coordinator) (w : W)
      → FailsAfter c w (handle_transaction_failure dev t c w)
  unfolding handle_transaction_failure
  handle-Fails t c w =
      let c1 = count_failure t c in
      let c2 = record c1 { poll_fail_count = c1.send_fail_streak + c1.timeout_fail_streak } in
      let same : SameCoordinator c2 c = count_failure-same t c in
      let lost : SameCoordinator (lose_connection c2) (lose_connection c) =
        ap (λ o. bare_coordinator (lose_connection o)) same in
      let P : Coordinator × W → Type 0 = λ o. FailsAfter c w o in
      if-preserves P (disconnect_now c2) (λ many. (inr lost, time_now_us_stays w))
        (λ few. (inl same, ((refl, inl refl), refl)))

  pub settle-Fails :
      (r : ExchangeResult) (c : Coordinator) (w : W) → FailsAfter c w (settle dev r c w)
  unfolding settle
  settle-Fails success c w = (inl refl, ((refl, inl refl), refl))
  settle-Fails send_failure c w = handle-Fails FailureType.send c w
  settle-Fails timeout_failure c w = handle-Fails FailureType.timeout c w
  settle-Fails protocol_failure c w = handle-Fails FailureType.protocol c w

  -- What an iteration leaves.
  abbrev pub IteratedAfter : Coordinator → Peer → Coordinator × W → Type 0
  IteratedAfter c p (c1, w1) =
      ((o : Iterated) × Like (both c1 (peer_of w1)) (history (turns_of o) (both c p)))
      × Ready dev peer_dev antenna medium w1

  -- A turn of the two radios, and what may follow.
  pub then-Fails :
      (air : Air) (c c1 c2 : Coordinator) (p : Peer) (w1 w2 : W)
      → Like (both c1 (peer_of w1)) (take_turn (event (exchanges air)) (both c p))
      → Ready dev peer_dev antenna medium w1
      → FailsAfter c1 w1 (c2, w2)
      → IteratedAfter c p (c2, w2)
  unfolding history take_turn
  then-Fails air c c1 c2 p w1 w2 (h, k) ready (inl same, e) = (
    (turns air, (same ∙ h, ap bare_peer (e.0.0) ∙ k)),
    Keeps-Ready dev peer_dev antenna medium w1 w2 e ready,
  )
  then-Fails air c c1 c2 p w1 w2 (h, k) ready (inr lost, e) = (
    (
      loses air,
      (lost ∙ ap (λ o. bare_coordinator (lose_connection o)) h, ap bare_peer (e.0.0) ∙ k),
    ),
    Keeps-Ready dev peer_dev antenna medium w1 w2 e ready,
  )

  pub one_turn :
      (air : Air) (c c1 : Coordinator) (p : Peer) (w : W)
      → Like (both c1 (peer_of w)) (take_turn (event (exchanges air)) (both c p))
      → Ready dev peer_dev antenna medium w
      → IteratedAfter c p (c1, w)
  unfolding history
  one_turn air c c1 p w l ready = ((turns air, l), ready)

  pub no_turn :
      (c : Coordinator) (p : Peer) (w : W)
      → peer_of w ≡ p
      → Ready dev peer_dev antenna medium w
      → IteratedAfter c p (c, w)
  unfolding history
  no_turn c p w e ready = ((waits, (refl, ap bare_peer e)), ready)
