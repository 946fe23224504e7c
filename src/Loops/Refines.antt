-- ===== src/Loops/Refines.antt =====
-- Run of both programs (nerfnet/net/primary_radio_interface.cc and secondary_radio_interface.cc)
-- against the turns of System/Reset.
use n_rf24_module.Prelude.{
  Returns, ℕ, ◌≤◌, ◌≡◌, ◌∙◌, inl, inr, none, refl, sym, ap, subst, false, List, [], ◌∷◌, All,
}
use n_rf24_module.Frame.RoundTrip.{IsByte}
use n_rf24_module.RadioInterface.Valid
use n_rf24_module.Session.{Node}
use n_rf24_module.Session.Agree.{tunnel_read-IsValid}
use n_rf24_module.Driver.{Device, Clock, Reads}
use n_rf24_module.Coordinator.{Coordinator, new_coordinator}
use n_rf24_module.Coordinator.Valid.{IsValid, with_link, new_coordinator-IsValid}
use n_rf24_module.Coordinator.Returns.{exchange_fuel}
use n_rf24_module.Coordinator.Iteration.{run_iteration-Returns}
use n_rf24_module.Peer.{Peer, new_peer}
use n_rf24_module.System.{
  System, here, there, coordinator_reads, peer_reads, exchanges, system_step,
}
use n_rf24_module.System.Reset.{start_system, Turn, event, gives_up, take_turn, history}
use n_rf24_module.System.Reconnect.{TurnIsBytes}
use n_rf24_module.System.Written.{coordinator_takes, peer_takes}
use n_rf24_module.Loops.Bare.{bare_coordinator, bare_peer}
use n_rf24_module.Loops.Turns.{
  Like, Like-trans, turn-Like, history-Like, take_packet, tunnel_read-radio,
}
use n_rf24_module.Loops.Heard.{After, Antenna}
use n_rf24_module.Loops.Medium.{Medium, Ready}
use n_rf24_module.Peer.Valid.{with_peer_link, new_peer-IsValid}
use n_rf24_module.Peer.Valid as PeerValid
use n_rf24_module.Loops.Exchanged.{both}
use n_rf24_module.Loops.Runs.{
  Happening, coordinator_gets, peer_gets, iterates, coordinator_got, peer_got, HappeningIsBytes,
  run_loops, loops_iterate,
}
use n_rf24_module.Loops.Iterated.{Iterated, waits, turns, loses, turns_of, IteratedAfter}
use n_rf24_module.Loops.Iterations.{run_iteration-Iterated}

module _ {W : Type 0} {V : Type 0} (dev : Device W) (peer_dev : Device V)
    (antenna : Antenna peer_dev) (medium : Medium dev peer_dev antenna) where
  open medium use {peer_of, on_air, let_read, let_read_is, let_read_on_air, let_read_listens}

  -- The turns that the loops have taken from a state, with the packets that they have read.
  abbrev pub Refines : List Happening → System → Coordinator × W → Type 0
  Refines hs s (c1, w1) =
      (ts : List Turn) × All TurnIsBytes ts
      × (coordinator_takes ts ≡ coordinator_got hs)
      × (peer_takes ts ≡ peer_got hs)
      × Like (both c1 (peer_of w1)) (history ts s)

  coordinator_gets-Refines :
      (packet : List ℕ) (hs : List Happening) (s : System) (out : Coordinator × W)
      → All IsByte packet
      → Refines hs (take_turn (event (coordinator_reads packet)) s) out
      → Refines (coordinator_gets packet ∷ hs) s out
  unfolding history
  coordinator_gets-Refines packet hs s out b (ts, bytes, mine, theirs, l) =
      (event (coordinator_reads packet) ∷ ts, (b, bytes), ap (λ o. packet ∷ o) mine, theirs, l)

  peer_gets-Refines :
      (packet : List ℕ) (hs : List Happening) (s : System) (out : Coordinator × W)
      → All IsByte packet
      → Refines hs (take_turn (event (peer_reads packet)) s) out
      → Refines (peer_gets packet ∷ hs) s out
  unfolding history
  peer_gets-Refines packet hs s out b (ts, bytes, mine, theirs, l) =
      (event (peer_reads packet) ∷ ts, (b, bytes), mine, ap (λ o. packet ∷ o) theirs, l)

  iterates-Refines :
      (o : Iterated) (hs : List Happening) (s : System) (out : Coordinator × W)
      → Refines hs (history (turns_of o) s) out
      → Refines (iterates ∷ hs) s out
  unfolding history
  iterates-Refines waits hs s out r = r
  iterates-Refines (turns air) hs s out (ts, bytes, mine, theirs, l) =
      (event (exchanges air) ∷ ts, (tt, bytes), mine, theirs, l)
  iterates-Refines (loses air) hs s out (ts, bytes, mine, theirs, l) =
      (event (exchanges air) ∷ gives_up ∷ ts, (tt, (tt, bytes)), mine, theirs, l)

  read_coordinator :
      (packet : List ℕ) (t : System)
      → bare_coordinator (take_turn (event (coordinator_reads packet)) t).coordinator
        ≡ bare_coordinator
            (record (t.coordinator) { radio = take_packet packet t.coordinator.radio })
  unfolding take_turn system_step
  read_coordinator packet t = rw (tunnel_read-radio packet (here t)) refl

  pub reads-Like :
      (packet : List ℕ) (c : Coordinator) (w : W) (s : System)
      → Like (both c (peer_of w)) s
      → Like
          (both (record c { radio = take_packet packet c.radio }) (peer_of w))
          (take_turn (event (coordinator_reads packet)) s)
  unfolding take_turn system_step
  reads-Like packet c w s l =
      let t = both c (peer_of w) in
      let (h, k) = turn-Like (event (coordinator_reads packet)) t s l in
      (sym (read_coordinator packet t) ∙ h, k)

  read_peer :
      (packet : List ℕ) (t : System)
      → bare_peer (take_turn (event (peer_reads packet)) t).peer
        ≡ bare_peer (record (t.peer) { radio = take_packet packet t.peer.radio })
  unfolding take_turn system_step
  read_peer packet t = rw (tunnel_read-radio packet (there t)) refl

  pub let_read-Like :
      (packet : List ℕ) (c : Coordinator) (w : W) (s : System)
      → Like (both c (peer_of w)) s
      → Like (both c (peer_of (let_read packet w))) (take_turn (event (peer_reads packet)) s)
  unfolding take_turn system_step
  let_read-Like packet c w s l =
      let t = both c (peer_of w) in
      let (h, k) = turn-Like (event (peer_reads packet)) t s l in
      (h, ap bare_peer (let_read_is packet w) ∙ (sym (read_peer packet t) ∙ k))

  pub gets-IsValid :
      (packet : List ℕ) (c : Coordinator)
      → All IsByte packet
      → IsValid c
      → IsValid (record c { radio = take_packet packet c.radio })
  gets-IsValid packet c b v =
      let n : Node = record { radio = c.radio; accepted = [] } in
      with_link c (take_packet packet c.radio) c.counters c.last_tx_was_data
        (subst (λ o. Valid.IsValid o) (tunnel_read-radio packet n)
          (tunnel_read-IsValid packet n b v.link))
        v

  pub let_read-Ready :
      (packet : List ℕ) (w : W)
      → All IsByte packet
      → Ready dev peer_dev antenna medium w
      → Ready dev peer_dev antenna medium (let_read packet w)
  let_read-Ready packet w b (silent, v) =
      let p = peer_of w in
      let n : Node = record { radio = p.radio; accepted = [] } in
      let link : Valid.IsValid (take_packet packet p.radio) =
        subst (λ o. Valid.IsValid o) (tunnel_read-radio packet n)
          (tunnel_read-IsValid packet n b v.link) in
      let valid =
        with_peer_link p (take_packet packet p.radio) p.counters p.last_stat_print_us link v in
      (
        elim silent [
          | inl quiet ↦ inl (let_read_on_air packet w ∙ quiet)
          | inr deaf ↦ inr (let_read_listens packet w ∙ deaf)
        ],
        subst PeerValid.IsValid (sym (let_read_is packet w)) valid,
      )

  module _ (clock : Clock dev) (reads : Reads dev) (polls : dev.has_irq_line ≡ false) (fuel : ℕ)
      (enough : exchange_fuel ≤ fuel) where
    run-Refines :
        (hs : List Happening) (c : Coordinator) (w : W) (s : System)
        → All HappeningIsBytes hs
        → IsValid c
        → Ready dev peer_dev antenna medium w
        → Like (both c (peer_of w)) s
        → Returns (Refines hs s) (run_loops dev peer_dev antenna medium fuel hs c w)
    unfolding run_loops history
    run-Refines [] c w s h v ready l = ((c, w), refl, ([], tt, refl, refl, l))
    run-Refines (coordinator_gets packet ∷ hs) c w s h v ready l =
        let c1 = record c { radio = take_packet packet c.radio } in
        let (out, e, r) =
          run-Refines hs c1 w (take_turn (event (coordinator_reads packet)) s) h.1
            (gets-IsValid packet c h.0 v) ready (reads-Like packet c w s l) in
        (out, e, coordinator_gets-Refines packet hs s out h.0 r)
    run-Refines (peer_gets packet ∷ hs) c w s h v ready l =
        let (out, e, r) =
          run-Refines hs c (let_read packet w) (take_turn (event (peer_reads packet)) s) h.1 v
            (let_read-Ready packet w h.0 ready) (let_read-Like packet c w s l) in
        (out, e, peer_gets-Refines packet hs s out h.0 r)
    run-Refines (iterates ∷ hs) c w s h v ready l =
        let ((c1, w1), e, v1) =
          run_iteration-Returns dev clock reads polls fuel enough [] [] c w tt tt v in
        let p = peer_of w in
        let ((o, k), ready1) =
          subst (λ o. After (IteratedAfter dev peer_dev antenna medium c p) o) e
            (run_iteration-Iterated dev peer_dev antenna medium fuel c w polls v ready) in
        let s1 = history (turns_of o) s in
        let l1 =
          Like-trans (both c1 (peer_of w1)) (history (turns_of o) (both c p)) s1 k
            (history-Like (turns_of o) (both c p) s l) in
        let (out, f, r) = run-Refines hs c1 w1 s1 h.1 v1 ready1 l1 in
        (
          out,
          loops_iterate dev peer_dev antenna medium fuel hs c c1 w w1 e ∙ f,
          iterates-Refines o hs s out r,
        )

    start-Like :
        (poll_interval_us : ℕ) (p : Peer)
        → p ≡ new_peer
        → Like (both (new_coordinator poll_interval_us) p) start_system
    unfolding new_coordinator
    start-Like poll_interval_us p e = (refl, ap bare_peer e)

    pub run_loops-Refines :
        (hs : List Happening) (poll_interval_us : ℕ) (w : W)
        → All HappeningIsBytes hs
        → peer_of w ≡ new_peer
        → on_air w ≡ none
        → Returns
            (Refines hs start_system)
            (run_loops dev peer_dev antenna medium fuel hs (new_coordinator poll_interval_us) w)
    run_loops-Refines hs poll_interval_us w h e silent =
        run-Refines hs (new_coordinator poll_interval_us) w start_system h
          (new_coordinator-IsValid poll_interval_us)
          (inl silent, subst PeerValid.IsValid (sym e) new_peer-IsValid)
          (start-Like poll_interval_us (peer_of w) e)
