-- ===== src/Loops/Retries.antt =====
-- What Run (nerfnet/net/primary_radio_interface.cc) makes of a ConnectionReset, over a radio that the
-- peer answers.
use n_rf24_module.Prelude.{
  ℕ, ◌≡◌, ◌∙◌, inl, inr, refl, sym, ap, subst, Bool, true, false, Option, none, some, arith, [],
}
use n_rf24_module.Driver.{Device}
use n_rf24_module.Coordinator.{Coordinator, FailureType}
use n_rf24_module.Coordinator.Exchange.{cleared, connection_reset}
use n_rf24_module.Coordinator.Failure.{handle_transaction_failure}
use n_rf24_module.Coordinator.Loop.{
  reconnected, count_reset_failure, back_off, retry_connection, require_connection,
}
use n_rf24_module.Peer.{Peer}
use n_rf24_module.System.{Air, request_lost, answer_lost, both_heard, exchanges}
use n_rf24_module.System.Reset.{reset_connection, event, take_turn}
use n_rf24_module.System.Reconnect.{reset_arrives}
use n_rf24_module.Loops.Bare.{bare_coordinator, SameCoordinator}
use n_rf24_module.Loops.Turns.{Like}
use n_rf24_module.Loops.Heard.{After, Antenna}
use n_rf24_module.Loops.Medium.{Medium, Ready, Keeps-Ready}
use n_rf24_module.Peer.Valid.{IsValid}
use n_rf24_module.Loops.Exchanged.{both}
use n_rf24_module.Loops.Iterated.{turn_resets, handle-Fails, IteratedAfter, then-Fails, one_turn}
use n_rf24_module.Loops.Resets.{ResetAfter, ResetTaken, connection_reset-Resets}

module _ {W : Type 0} {V : Type 0} (dev : Device W) (peer_dev : Device V)
    (antenna : Antenna peer_dev) (medium : Medium dev peer_dev antenna) where
  open medium use {peer_of, time_now_us_stays, sleep_us_stays}

  -- A Reset that fails.
  failed-Reset :
      (c c1 : Coordinator) (p p1 : Peer)
      → c.connection_reset_required ≡ true
      → SameCoordinator c1 (cleared c)
      → ResetTaken p false p1
      → (air : Air) × Like (both c1 p1) (take_turn (event (exchanges air)) (both c p))
  unfolding reset_connection
  failed-Reset c c1 p p1 wanted h (inl (e, k)) = (
    request_lost,
    subst (λ o. Like (both c1 p1) o) (sym (turn_resets request_lost (both c p) wanted)) (h, k),
  )
  failed-Reset c c1 p p1 wanted h (inr k) = (
    answer_lost,
    subst (λ o. Like (both c1 p1) o) (sym (turn_resets answer_lost (both c p) wanted))
        (rw reset_arrives (h, k)),
  )

  -- A Reset that succeeds.
  done-Reset :
      (c : Coordinator) (p p1 : Peer)
      → c.connection_reset_required ≡ true
      → ResetTaken p true p1
      → Like
          (both (reconnected (cleared c)) p1)
          (take_turn (event (exchanges both_heard)) (both c p))
  unfolding reset_connection
  done-Reset c p p1 wanted (inl (e, k)) = ground (arith, e)
  done-Reset c p p1 wanted (inr k) =
      subst (λ o. Like (both (reconnected (cleared c)) p1) o)
        (sym (turn_resets both_heard (both c p) wanted)) (rw reset_arrives (refl, k))

  reset_done :
      (c c1 : Coordinator) (p : Peer) (w : W)
      → c.connection_reset_required ≡ true
      → c1 ≡ cleared c
      → ResetTaken p true (peer_of w)
      → Ready dev peer_dev antenna medium w
      → IteratedAfter dev peer_dev antenna medium c p (reconnected c1, w)
  reset_done c c1 p w wanted e k ready =
      let (h, l) = done-Reset c p (peer_of w) wanted k in
      one_turn dev peer_dev antenna medium both_heard c (reconnected c1) p w
        (ap (λ o. bare_coordinator (reconnected o)) e ∙ h, l) ready

  retried :
      (c : Coordinator) (p : Peer) (o : Option (Bool × Coordinator × W))
      → c.connection_reset_required ≡ true
      → After (ResetAfter dev peer_dev antenna medium c p) o
      → After (IteratedAfter dev peer_dev antenna medium c p) (elim o [
        | none ↦ none
        | some (true, c1, w1) ↦ some (reconnected c1, w1)
        | some (false, c1, w1) ↦
            let (now_us, w2) = dev.time_now_us w1 in
            some (back_off now_us (count_reset_failure c1), w2)
      ])
  retried c p none wanted h = tt
  retried c p (some (true, c1, w1)) wanted (e, k, ready) = reset_done c c1 p w1 wanted e k ready
  retried c p (some (false, c1, w1)) wanted (e, k, ready) =
      let (now_us, w2) = dev.time_now_us w1 in
      let c2 = back_off now_us (count_reset_failure c1) in
      let k2 = subst (ResetTaken p false) (sym (time_now_us_stays w1).0.0) k in
      let (air, l) = failed-Reset c c2 p (peer_of w2) wanted (ap bare_coordinator e) k2 in
      one_turn dev peer_dev antenna medium air c c2 p w2 l
        (Keeps-Ready dev peer_dev antenna medium w1 w2 (time_now_us_stays w1) ready)

  required :
      (c : Coordinator) (p : Peer) (o : Option (Bool × Coordinator × W))
      → c.connection_reset_required ≡ true
      → After (ResetAfter dev peer_dev antenna medium c p) o
      → After (IteratedAfter dev peer_dev antenna medium c p) (elim o [
        | none ↦ none
        | some (true, c1, w1) ↦ some (reconnected c1, w1)
        | some (false, c1, w1) ↦
            some (handle_transaction_failure dev FailureType.protocol (count_reset_failure c1) w1)
      ])
  required c p none wanted h = tt
  required c p (some (true, c1, w1)) wanted (e, k, ready) = reset_done c c1 p w1 wanted e k ready
  required c p (some (false, c1, w1)) wanted (e, k, ready) =
      let c2 = count_reset_failure c1 in
      let (c3, w3) = handle_transaction_failure dev FailureType.protocol c2 w1 in
      let (air, l) = failed-Reset c c2 p (peer_of w1) wanted (ap bare_coordinator e) k in
      then-Fails dev peer_dev antenna medium air c c2 c3 p w1 w3 l ready
        (handle-Fails dev peer_dev antenna medium FailureType.protocol c2 w1)

  pub retry-Iterated :
      (fuel : ℕ) (c : Coordinator) (w : W)
      → dev.has_irq_line ≡ false
      → c.connection_reset_required ≡ true
      → IsValid (peer_of w)
      → After
          (IteratedAfter dev peer_dev antenna medium c (peer_of w))
          (retry_connection dev fuel [] c w)
  unfolding retry_connection
  retry-Iterated fuel c w polls wanted valid =
      retried c (peer_of w) (connection_reset dev fuel [] c w) wanted
        (connection_reset-Resets dev peer_dev antenna medium fuel c w polls valid)

  pub require-Iterated :
      (fuel : ℕ) (c : Coordinator) (w : W)
      → dev.has_irq_line ≡ false
      → c.connection_reset_required ≡ true
      → IsValid (peer_of w)
      → After
          (IteratedAfter dev peer_dev antenna medium c (peer_of w))
          (require_connection dev fuel [] c w)
  unfolding require_connection
  require-Iterated fuel c w polls wanted valid =
      required c (peer_of w) (connection_reset dev fuel [] c w) wanted
        (connection_reset-Resets dev peer_dev antenna medium fuel c w polls valid)
