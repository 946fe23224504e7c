-- ===== src/Loops/Calmly.antt =====
-- Run of both programs (nerfnet/net/primary_radio_interface.cc and secondary_radio_interface.cc), once
-- they are connected, while nothing is lost on the air.
use n_rf24_module.Prelude.{
  ℕ, ◌≤◌, ◌≡◌, ◌≢◌, ◌∙◌, refl, sym, ap, subst, Bool, false, [], Option, some, arith, if-preserves,
  Returns,
}
use n_rf24_module.Driver.{Device, Clock, Reads}
use n_rf24_module.RadioInterface.{RadioInterface}
use n_rf24_module.Session.Agree.{Agree}
use n_rf24_module.Coordinator.{
  CoordinatorState, reset_sync, idle, issue_grant, active_rx, Coordinator, success,
}
use n_rf24_module.Coordinator.Loop.{
  poll_interval, settle, exchange_and_settle, run_iteration, stat_time,
}
use n_rf24_module.Coordinator.Valid.{IsValid, StateMatches}
use n_rf24_module.Coordinator.Steps.{with_interval}
use n_rf24_module.Coordinator.Returns.{exchange_fuel}
use n_rf24_module.Coordinator.Iteration.{settled, run_iteration-Returns}
use n_rf24_module.Peer.{Peer}
use n_rf24_module.System.{System, here, there, both_heard, exchange}
use n_rf24_module.System.Delivery.{IsLinked, exchange-IsLinked}
use n_rf24_module.Loops.Bare.{bare_peer}
use n_rf24_module.Loops.Turns.{Like, exchange-Like}
use n_rf24_module.Loops.Heard.{Antenna}
use n_rf24_module.Loops.Medium.{Medium}
use n_rf24_module.Loops.Exchanged.{both}
use n_rf24_module.Loops.Speaks.{Loud}
use n_rf24_module.Loops.Lossless.{Lossless, IsCalm, slept-IsCalm, now-IsCalm}
use n_rf24_module.Loops.Connected.{linked-Exchanges, perform-Succeeds}

-- The links do not depend on the rest of the state.
like-IsLinked :
    (c : Coordinator) (p : Peer) (s : System)
    → Like (both c p) s
    → IsLinked s
    → IsLinked (record s { coordinator = c; peer = p })
like-IsLinked c p s (h, k) g = record {
  agree =
      subst
        (λ (o : RadioInterface).
          Agree (record (here s) { radio = o }) (record (there s) { radio = p.radio }))
        (sym (ap (λ o. o.radio) h))
        (subst (λ (o : RadioInterface). Agree (here s) (record (there s) { radio = o }))
          (sym (ap (λ o. o.radio) k)) g.agree);
  ready = λ e. g.ready (sym (ap (λ o. o.state) h) ∙ e);
}

-- A node that is not in ResetSync wants no reset, and is not disconnected.
not_required : (t : CoordinatorState) (r : Bool) → t ≢ reset_sync → StateMatches t r → r ≡ false
not_required reset_sync r h m = absurd (h refl)
not_required idle r h m = m
not_required issue_grant r h m = m
not_required active_rx r h m = m

module _ {W : Type 0} (dev : Device W) where
  -- An iteration of a connected node is an exchange.
  iteration-exchanges :
      (fuel : ℕ) (c : Coordinator) (w : W)
      → c.disconnected ≡ false
      → c.connection_reset_required ≡ false
      → let c1 = record c { current_poll_interval_us = poll_interval c } in
        let w1 = dev.sleep_us (poll_interval c) (dev.time_now_us w).1 in
        run_iteration dev fuel [] [] c w ≡ exchange_and_settle dev fuel [] [] c1 w1
  unfolding run_iteration
  iteration-exchanges fuel c w here free =
      let c1 = record c { current_poll_interval_us = poll_interval c } in
      let w1 = dev.sleep_us (poll_interval c) (dev.time_now_us w).1 in
      let P : Option (Coordinator × W) → Type 0 =
        λ o. o ≡ exchange_and_settle dev fuel [] [] c1 w1 in
      if-preserves P c.disconnected (λ gone. ground (arith, gone, here))
        (λ there.
          if-preserves P c.connection_reset_required (λ wanted. ground (arith, wanted, free))
            (λ ready. refl))

module _ {W : Type 0} {V : Type 0} (dev : Device W) (peer_dev : Device V)
    (antenna : Antenna peer_dev) (medium : Medium dev peer_dev antenna)
    (loud : Loud peer_dev antenna) (lossless : Lossless dev peer_dev antenna medium)
    (clock : Clock dev) (reads : Reads dev) (polls : dev.has_irq_line ≡ false) (fuel : ℕ)
    (enough : exchange_fuel ≤ fuel) where
  open medium use {peer_of}

  -- The loops are where two linked programs are, and nothing is lost.
  pub record Follows (c : Coordinator) (w : W) (s : System) : Type 0 where
    pub valid : IsValid c
    pub quiet : IsCalm dev peer_dev antenna medium loud lossless w
    pub linked : IsLinked s
    pub like : Like (both c (peer_of w)) s

  abbrev pub FollowsAfter : System → Coordinator × W → Type 0
  FollowsAfter s (c, w) = Follows c w s

  pub iterated-IsValid :
      (c c1 : Coordinator) (w w1 : W)
      → run_iteration dev fuel [] [] c w ≡ some (c1, w1)
      → IsValid c
      → IsValid c1
  iterated-IsValid c c1 w w1 e v =
      let ((c2, w2), e2, v2) =
        run_iteration-Returns dev clock reads polls fuel enough [] [] c w tt tt v in
      let same : c2 ≡ c1 = ground (arith, e, e2) in subst (λ o. IsValid o) same v2

  exchange-Follows :
      (c c1 : Coordinator) (w w1 : W) (s : System)
      → run_iteration dev fuel [] [] c w ≡ some (c1, w1)
      → Follows c w s
      → IsCalm dev peer_dev antenna medium loud lossless w1
      → Like (both c1 (peer_of w1)) (exchange both_heard s)
      → Follows c1 w1 (exchange both_heard s)
  exchange-Follows c c1 w w1 s e f h l = record {
    valid = iterated-IsValid c c1 w w1 e f.valid;
    quiet = h;
    linked = exchange-IsLinked both_heard s f.linked;
    like = l;
  }

  settled-Like :
      (c : Coordinator) (w : W) (s t : System)
      → IsCalm dev peer_dev antenna medium loud lossless w
      → Like (both c (peer_of w)) s
      → Like s t
      → let (c1, w1) = settle dev success c w in
        let (now_us, w2) = dev.time_now_us w1 in
        let c2 = record c1 { last_stat_print_us = stat_time now_us c1.last_stat_print_us } in
        IsCalm dev peer_dev antenna medium loud lossless w2 × Like (both c2 (peer_of w2)) t
  unfolding settle
  settled-Like c w s t h (a, b) (x, y) = (
    now-IsCalm dev peer_dev antenna medium loud lossless w h,
    (a ∙ x, ap bare_peer (medium.time_now_us_stays w).0.0 ∙ (b ∙ y)),
  )

  -- One iteration.
  pub iterates-Follows :
      (c : Coordinator) (w : W) (s : System)
      → Follows c w s
      → Returns (FollowsAfter (exchange both_heard s)) (run_iteration dev fuel [] [] c w)
  iterates-Follows c w s f =
      let (h, k) = f.like in
      let ready : c.state ≢ reset_sync = λ e. f.linked.ready (sym (ap (λ o. o.state) h) ∙ e) in
      let free = not_required c.state c.connection_reset_required ready f.valid.matches in
      let here : c.disconnected ≡ false = ground (arith, f.valid.required, free) in
      let c0 = record c { current_poll_interval_us = poll_interval c } in
      let v0 = with_interval c (poll_interval c) f.valid in
      let w0 = (dev.time_now_us w).1 in
      let w1 = dev.sleep_us (poll_interval c) w0 in
      let h1 =
        slept-IsCalm dev peer_dev antenna medium loud lossless (poll_interval c) w0
          (now-IsCalm dev peer_dev antenna medium loud lossless w f.quiet) in
      let slept : peer_of w1 ≡ peer_of w =
        (medium.sleep_us_stays (poll_interval c) w0).0.0 ∙ (medium.time_now_us_stays w).0.0 in
      let l0 : Like (both c0 (peer_of w1)) s = (h, ap bare_peer slept ∙ k) in
      let (g, x) =
        linked-Exchanges (record s { coordinator = c0; peer = peer_of w1 })
          (like-IsLinked c0 (peer_of w1) s l0 f.linked) v0 free in
      let (c2, w2, performs, h2, l) =
        perform-Succeeds dev peer_dev antenna medium loud lossless clock reads fuel enough c0 w1 g
          h1 polls x in
      let (c3, w3) = settle dev success c2 w2 in
      let (now_us, w4) = dev.time_now_us w3 in
      let c4 = record c3 { last_stat_print_us = stat_time now_us c3.last_stat_print_us } in
      let runs : run_iteration dev fuel [] [] c w ≡ some (c4, w4) =
        iteration-exchanges dev fuel c w here free
        ∙ settled dev fuel [] c0 c2 w1 w2 [] success performs in
      let out =
        settled-Like c2 w2 (exchange both_heard (both c0 (peer_of w1))) (exchange both_heard s) h2 l
          (exchange-Like both_heard (both c0 (peer_of w1)) s l0) in
      ((c4, w4), runs, exchange-Follows c c4 w w4 s runs f out.0 out.1)
