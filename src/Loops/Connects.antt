-- ===== src/Loops/Connects.antt =====
-- The first iteration of Run (nerfnet/net/primary_radio_interface.cc) while nothing is lost on the
-- air.
use n_rf24_module.Prelude.{
  ℕ, ◌≤◌, ◌≡◌, ◌∙◌, refl, ap, Bool, true, false, not, [], some, arith, if-preserves, Returns,
  Option,
}
use n_rf24_module.Frame.{empty_frame}
use n_rf24_module.Frame.Codec.{encode_mac_frame, decode_mac_frame}
use n_rf24_module.Frame.RoundTrip.{decode-encode}
use n_rf24_module.Driver.{Device, Clock, Reads}
use n_rf24_module.Coordinator.{Coordinator, new_coordinator}
use n_rf24_module.Coordinator.Exchange.{
  is_reset, reset_frame, cleared, finish_reset, connection_reset,
}
use n_rf24_module.Coordinator.Loop.{poll_interval, reconnected, require_connection, run_iteration}
use n_rf24_module.Coordinator.Valid.{new_coordinator-IsValid}
use n_rf24_module.Coordinator.Returns.{exchange_fuel}
use n_rf24_module.Coordinator.Resets.{reset_frame-IsSendable, reset-answered}
use n_rf24_module.Coordinator.Iteration.{connected}
use n_rf24_module.Peer.{Peer, new_peer}
use n_rf24_module.Peer.Loop.{peer_cleared}
use n_rf24_module.System.{fresh_system, over_air}
use n_rf24_module.System.Delivery.{fresh_system-IsLinked}
use n_rf24_module.System.Reconnect.{reset_arrives}
use n_rf24_module.Loops.Bare.{bare_peer, SameCoordinator, SamePeer}
use n_rf24_module.Loops.Heard.{Antenna, served_reset}
use n_rf24_module.Loops.Medium.{Medium}
use n_rf24_module.Loops.Speaks.{Loud, Answers}
use n_rf24_module.Loops.Lossless.{Lossless, IsCalm, slept-IsCalm, now-IsCalm}
use n_rf24_module.Loops.Talks.{send-Talks}
use n_rf24_module.Loops.Resets.{flushed-Ready}
use n_rf24_module.Loops.Calmly.{FollowsAfter, iterated-IsValid}

module _ {W : Type 0} (dev : Device W) where
  -- An iteration of a node that wants a reset and is not disconnected.
  iteration-requires :
      (fuel : ℕ) (c : Coordinator) (w : W)
      → c.disconnected ≡ false
      → c.connection_reset_required ≡ true
      → let c1 = record c { current_poll_interval_us = poll_interval c } in
        let w1 = dev.sleep_us (poll_interval c) (dev.time_now_us w).1 in
        run_iteration dev fuel [] [] c w ≡ require_connection dev fuel [] c1 w1
  unfolding run_iteration
  iteration-requires fuel c w here wanted =
      let c1 = record c { current_poll_interval_us = poll_interval c } in
      let w1 = dev.sleep_us (poll_interval c) (dev.time_now_us w).1 in
      let P : Option (Coordinator × W) → Type 0 = λ o. o ≡ require_connection dev fuel [] c1 w1 in
      if-preserves P c.disconnected (λ gone. ground (arith, gone, here))
        (λ there.
          if-preserves P c.connection_reset_required (λ required. refl)
            (λ free. ground (arith, free, wanted)))

  finish-resets :
      (c : Coordinator) (w : W)
      → finish_reset dev (encode_mac_frame reset_frame).1 c w
        ≡ (true, c, dev.flush_tx (dev.flush_rx w))
  unfolding finish_reset
  finish-resets c w =
      let packet = (encode_mac_frame reset_frame).1 in
      let arrives =
        ap (λ o. o.0) (decode-encode reset_frame empty_frame reset_frame-IsSendable).1 in
      let P : Bool × Coordinator × W → Type 0 = λ o. o ≡ (true, c, dev.flush_tx (dev.flush_rx w)) in
      if-preserves P (not (decode_mac_frame packet empty_frame).0)
        (λ odd. ground (arith, odd, arrives))
        (λ decoded.
          if-preserves P (not (is_reset (over_air reset_frame).type))
            (λ other. ground (arith, other, reset_arrives)) (λ reset. refl))

reset-Answers : (p : Peer) → Answers reset_frame p reset_frame
reset-Answers p = (
  ap (λ o. o.0) (decode-encode reset_frame empty_frame reset_frame-IsSendable).1,
  ap (λ o. o.0) (served_reset (over_air reset_frame) p reset_arrives),
  reset_frame-IsSendable,
)

module _ {W : Type 0} {V : Type 0} (dev : Device W) (peer_dev : Device V)
    (antenna : Antenna peer_dev) (medium : Medium dev peer_dev antenna)
    (loud : Loud peer_dev antenna) (lossless : Lossless dev peer_dev antenna medium)
    (clock : Clock dev) (reads : Reads dev) (polls : dev.has_irq_line ≡ false) (fuel : ℕ)
    (enough : exchange_fuel ≤ fuel) where
  open medium use {peer_of}

  flushed-IsCalm :
      (w : W)
      → IsCalm dev peer_dev antenna medium loud lossless w
      → IsCalm dev peer_dev antenna medium loud lossless (dev.flush_tx (dev.flush_rx w))
  flushed-IsCalm w (h, ready) = (
    lossless.flush_tx_calm (dev.flush_rx w) (lossless.flush_rx_calm w h),
    flushed-Ready dev peer_dev antenna medium w ready.1,
  )

  -- ConnectionReset.
  reset-succeeds :
      (c : Coordinator) (w : W)
      → IsCalm dev peer_dev antenna medium loud lossless w
      → (w1 : W) × (connection_reset dev fuel [] c w ≡ some (true, cleared c, w1))
        × IsCalm dev peer_dev antenna medium loud lossless w1
        × SamePeer (peer_of w1) (peer_cleared (peer_of w))
  reset-succeeds c w h =
      let w0 = dev.flush_tx (dev.flush_rx w) in
      let h0 = flushed-IsCalm w h in
      let same : peer_of w0 ≡ peer_of w =
        (medium.flush_tx_stays (dev.flush_rx w)).0.0 ∙ medium.flush_rx_peer w in
      let (w1, w2, sent, got, h2, k) =
        send-Talks dev peer_dev antenna medium loud lossless clock reads polls fuel enough
          reset_frame reset_frame w0 reset_frame-IsSendable h0 (reset-Answers (peer_of w0)) in
      let w3 = dev.flush_tx (dev.flush_rx w2) in
      let left : peer_of w3 ≡ peer_of w2 =
        (medium.flush_tx_stays (dev.flush_rx w2)).0.0 ∙ medium.flush_rx_peer w2 in
      let takes =
        ap (λ o. bare_peer o.1) (served_reset (over_air reset_frame) (peer_of w0) reset_arrives) in
      (
        w3,
        reset-answered dev fuel [] c w w1 w2 (encode_mac_frame reset_frame).1 sent got
            ∙ ap (λ o. some o) (finish-resets dev (cleared c) w2),
        flushed-IsCalm w2 h2,
        ap bare_peer left ∙ (k ∙ (takes ∙ ap (λ o. bare_peer (peer_cleared o)) same)),
      )

  fresh-Same :
      (poll_interval_us interval : ℕ) (p : Peer)
      → SamePeer p (peer_cleared new_peer)
      → let c = record (new_coordinator poll_interval_us) { current_poll_interval_us = interval } in
        SameCoordinator (reconnected (cleared c)) fresh_system.coordinator
        × SamePeer p fresh_system.peer
  unfolding new_coordinator
  fresh-Same poll_interval_us interval p h = (refl, h)

  -- The first iteration.
  pub connects-Follows :
      (poll_interval_us : ℕ) (w : W)
      → IsCalm dev peer_dev antenna medium loud lossless w
      → peer_of w ≡ new_peer
      → Returns
          (FollowsAfter dev peer_dev antenna medium loud lossless clock reads polls fuel enough
            fresh_system)
          (run_iteration dev fuel [] [] (new_coordinator poll_interval_us) w)
  unfolding new_coordinator
  connects-Follows poll_interval_us w h e =
      let c = new_coordinator poll_interval_us in
      let c0 = record c { current_poll_interval_us = poll_interval c } in
      let w0 = (dev.time_now_us w).1 in
      let w1 = dev.sleep_us (poll_interval c) w0 in
      let h1 =
        slept-IsCalm dev peer_dev antenna medium loud lossless (poll_interval c) w0
          (now-IsCalm dev peer_dev antenna medium loud lossless w h) in
      let same : peer_of w1 ≡ new_peer =
        (medium.sleep_us_stays (poll_interval c) w0).0.0 ∙ ((medium.time_now_us_stays w).0.0 ∙ e) in
      let (w2, resets, h2, k) = reset-succeeds c0 w1 h1 in
      let runs =
        iteration-requires dev fuel c w refl refl
        ∙ connected dev fuel [] c0 (cleared c0) w1 w2 resets in
      let left = k ∙ ap (λ o. bare_peer (peer_cleared o)) same in
      (
        (reconnected (cleared c0), w2),
        runs,
        record {
          valid =
              iterated-IsValid dev peer_dev antenna medium loud lossless clock reads polls fuel
                enough c (reconnected (cleared c0)) w w2 runs
                (new_coordinator-IsValid poll_interval_us);
          quiet = h2;
          linked = fresh_system-IsLinked;
          like = fresh-Same poll_interval_us (poll_interval c) (peer_of w2) left;
        },
      )
