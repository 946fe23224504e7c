-- ===== src/Loops/Iterations.antt =====
-- An iteration of Run (nerfnet/net/primary_radio_interface.cc) over a radio that the peer answers.
use n_rf24_module.Prelude.{
  ℕ, ◌≡◌, ◌≢◌, ◌∙◌, refl, sym, ap, subst, true, false, [], Option, none, some, ltb, if-preserves,
  arith,
}
use n_rf24_module.Frame.{empty_frame}
use n_rf24_module.Frame.RoundTrip.{IsSendable, decode-encode}
use n_rf24_module.Driver.{Device}
use n_rf24_module.Coordinator.{ExchangeResult, Coordinator, reset_sync}
use n_rf24_module.Coordinator.Choose.{choose_coordinator_tx_frame}
use n_rf24_module.Coordinator.Exchange.{is_reset, perform_exchange}
use n_rf24_module.Coordinator.Frames.{choose-Good}
use n_rf24_module.Coordinator.Loop.{
  poll_interval, retry_connection, require_connection, settle, exchange_and_settle, run_iteration,
  stat_time,
}
use n_rf24_module.Coordinator.Valid.{IsValid, StateMatches}
use n_rf24_module.Coordinator.Steps.{with_interval}
use n_rf24_module.Peer.{Peer}
use n_rf24_module.System.{over_air, exchanges}
use n_rf24_module.System.Reset.{event, take_turn, history}
use n_rf24_module.System.Accepted.{request_type}
use n_rf24_module.Loops.Bare.{bare_peer, SameCoordinator}
use n_rf24_module.Loops.Turns.{Like, Like-trans, history-Like}
use n_rf24_module.Loops.Heard.{After, After-map, Antenna}
use n_rf24_module.Loops.Medium.{Medium, Ready, Keeps-Ready, Keeps-trans}
use n_rf24_module.Loops.Exchanged.{both}
use n_rf24_module.Loops.Exchanges.{TurnsAfter, perform-Exchanges}
use n_rf24_module.Loops.Iterated.{
  turns_of, turn_exchanges, settle-Fails, IteratedAfter, then-Fails, no_turn,
}
use n_rf24_module.Loops.Retries.{retry-Iterated, require-Iterated}

-- A connected node sends something, and no Reset.
module _ (c : Coordinator) (v : IsValid c) (free : c.connection_reset_required ≡ false) where
  ready : c.state ≢ reset_sync
  ready e =
      let h = subst (λ t. StateMatches t c.connection_reset_required) e v.matches in
      ground (arith, h, free)

  pub sends_no_reset :
      let (chosen, frame, c1) = choose_coordinator_tx_frame [] c in
      (chosen ≡ true) × (is_reset (over_air frame).type ≡ false) × IsSendable frame
  sends_no_reset =
      let (chosen, sendable, _) = choose-Good [] c tt v in
      let frame = (choose_coordinator_tx_frame [] c).1 in
      let whole : over_air frame ≡ frame =
        ap (λ o. o.1) (decode-encode frame empty_frame sendable).1 in
      let type = request_type c ready in (chosen, rw whole (ground (arith, type)), sendable)

module _ {W : Type 0} {V : Type 0} (dev : Device W) (peer_dev : Device V)
    (antenna : Antenna peer_dev) (medium : Medium dev peer_dev antenna) where
  open medium use {peer_of, time_now_us_stays, sleep_us_stays}

  -- From the result of an exchange on.
  settled :
      (c : Coordinator) (p : Peer) (o : Option (ExchangeResult × Coordinator × W))
      → c.connection_reset_required ≡ false
      → After (TurnsAfter dev peer_dev antenna medium c p) o
      → After (IteratedAfter dev peer_dev antenna medium c p) (elim o [
        | none ↦ none
        | some (result, c1, w1) ↦
            let (c2, w2) = settle dev result c1 w1 in
            let (now_us, w3) = dev.time_now_us w2 in
            some (record c2 { last_stat_print_us = stat_time now_us c2.last_stat_print_us }, w3)
      ])
  settled c p none free h = tt
  settled c p (some (r, c1, w1)) free ((air, l), ready) =
      let (c2, w2) = settle dev r c1 w1 in
      let (now_us, w3) = dev.time_now_us w2 in
      let (f, e) = settle-Fails dev peer_dev antenna medium r c1 w1 in
      let kept = Keeps-trans dev peer_dev antenna medium w1 w2 w3 e (time_now_us_stays w2) in
      let counted = record c2 { last_stat_print_us = stat_time now_us c2.last_stat_print_us } in
      let turn : Like (both c1 (peer_of w1)) (take_turn (event (exchanges air)) (both c p)) =
        subst (λ o. Like (both c1 (peer_of w1)) o) (sym (turn_exchanges air (both c p) free)) l in
      then-Fails dev peer_dev antenna medium air c c1 counted p w1 w3 turn ready (f, kept)

  exchange-Iterated :
      (fuel : ℕ) (c : Coordinator) (w : W)
      → dev.has_irq_line ≡ false
      → IsValid c
      → c.connection_reset_required ≡ false
      → Ready dev peer_dev antenna medium w
      → After
          (IteratedAfter dev peer_dev antenna medium c (peer_of w))
          (exchange_and_settle dev fuel [] [] c w)
  unfolding exchange_and_settle
  exchange-Iterated fuel c w polls v free ready =
      let (chosen, other, sendable) = sends_no_reset c v free in
      settled c (peer_of w) (perform_exchange dev fuel [] [] c w) free
        (perform-Exchanges dev peer_dev antenna medium fuel c w polls chosen other sendable ready)

  -- What differs in the poll interval does not matter, nor does a call that leaves the peer alone.
  Iterated-from :
      (c c1 : Coordinator) (p p1 : Peer) (o : Option (Coordinator × W))
      → SameCoordinator c1 c
      → p1 ≡ p
      → After (IteratedAfter dev peer_dev antenna medium c1 p1) o
      → After (IteratedAfter dev peer_dev antenna medium c p) o
  Iterated-from c c1 p p1 o h e k =
      After-map (IteratedAfter dev peer_dev antenna medium c1 p1)
        (IteratedAfter dev peer_dev antenna medium c p) o
        (λ (c2, w2) ((t, l), ready). (
          (
            t,
            Like-trans (both c2 (peer_of w2)) (history (turns_of t) (both c1 p1))
                (history (turns_of t) (both c p)) l
                (history-Like (turns_of t) (both c1 p1) (both c p) (h, ap bare_peer e)),
          ),
          ready,
        ))
        k

  -- In a valid state, an iteration of Run does nothing while the node waits for its next retry, or it
  -- is a turn of the two programs, in which the coordinator's frame, the peer's answer or neither is
  -- lost, behind which the coordinator may give the connection up.
  pub run_iteration-Iterated :
      (fuel : ℕ) (c : Coordinator) (w : W)
      → dev.has_irq_line ≡ false
      → IsValid c
      → Ready dev peer_dev antenna medium w
      → After
          (IteratedAfter dev peer_dev antenna medium c (peer_of w))
          (run_iteration dev fuel [] [] c w)
  unfolding run_iteration
  run_iteration-Iterated fuel c w polls v ready =
      let (now_us, w1) = dev.time_now_us w in
      let now_stays = time_now_us_stays w in
      let same = now_stays.0.0 in
      let ready1 = Keeps-Ready dev peer_dev antenna medium w w1 now_stays ready in
      let c1 = record c { current_poll_interval_us = poll_interval c } in
      let w2 = dev.sleep_us (poll_interval c) w1 in
      let slept : peer_of w2 ≡ peer_of w = (sleep_us_stays (poll_interval c) w1).0.0 ∙ same in
      let ready2 =
        Keeps-Ready dev peer_dev antenna medium w1 w2 (sleep_us_stays (poll_interval c) w1)
          ready1 in
      let v1 = with_interval c (poll_interval c) v in
      let p = peer_of w in
      let P : Option (Coordinator × W) → Type 0 =
        λ o. After (IteratedAfter dev peer_dev antenna medium c p) o in
      if-preserves P c.disconnected
        (λ gone.
          if-preserves P (ltb now_us c.next_retry_time_us)
            (λ early.
              no_turn dev peer_dev antenna medium c p (dev.sleep_us 1000 w1)
                ((sleep_us_stays 1000 w1).0.0 ∙ same)
                (Keeps-Ready dev peer_dev antenna medium w1 (dev.sleep_us 1000 w1)
                  (sleep_us_stays 1000 w1) ready1))
            (λ due. Iterated-from c c p (peer_of w1) (retry_connection dev fuel [] c w1) refl same (
              retry-Iterated dev peer_dev antenna medium fuel c w1 polls
                (ground (arith, gone, v.required)) ready1.1)))
        (λ here.
          if-preserves P c.connection_reset_required
            (λ wanted.
              Iterated-from c c1 p (peer_of w2) (require_connection dev fuel [] c1 w2) refl slept
                (require-Iterated dev peer_dev antenna medium fuel c1 w2 polls wanted ready2.1))
            (λ free.
              Iterated-from c c1 p (peer_of w2) (exchange_and_settle dev fuel [] [] c1 w2) refl
                slept (exchange-Iterated fuel c1 w2 polls v1 free ready2)))
