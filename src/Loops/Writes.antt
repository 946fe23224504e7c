-- ===== src/Loops/Writes.antt =====
-- What Run of both programs (nerfnet/net/primary_radio_interface.cc and
-- secondary_radio_interface.cc) may write to the tunnels.
use n_rf24_module.Prelude.{Returns, ℕ, ◌≤◌, ◌≡◌, sym, ap, subst, false, List, All, none}
use n_rf24_module.Packet.Keep.{IsIp}
use n_rf24_module.Driver.{Device, Clock, Reads}
use n_rf24_module.Coordinator.{Coordinator, new_coordinator}
use n_rf24_module.Coordinator.Returns.{exchange_fuel}
use n_rf24_module.Peer.{new_peer}
use n_rf24_module.System.Reset.{start_system, history}
use n_rf24_module.System.Written.{coordinator_takes, peer_takes, IsRest, history-Writes}
use n_rf24_module.Loops.Heard.{Antenna}
use n_rf24_module.Loops.Medium.{Medium}
use n_rf24_module.Loops.Runs.{Happening, coordinator_got, peer_got, HappeningIsBytes, run_loops}
use n_rf24_module.Loops.Refines.{Refines, run_loops-Refines}

module _ {W : Type 0} {V : Type 0} (dev : Device W) (peer_dev : Device V)
    (antenna : Antenna peer_dev) (medium : Medium dev peer_dev antenna) where
  open medium use {peer_of, on_air}

  -- What each node has written to its tunnel.
  abbrev pub Writes : List Happening → Coordinator × W → Type 0
  Writes hs (c, w) =
      let theirs = (peer_of w).radio.tunnel_written in
      All IsIp theirs
      × All (IsRest (coordinator_got hs)) theirs
      × All IsIp c.radio.tunnel_written
      × All (IsRest (peer_got hs)) c.radio.tunnel_written

  Refines-Writes :
      (hs : List Happening) (c : Coordinator) (w : W)
      → Refines dev peer_dev antenna medium hs start_system (c, w)
      → Writes hs (c, w)
  Refines-Writes hs c w (ts, bytes, mine, theirs, (h, k)) =
      let s = history ts start_system in
      let (a, b, x, y) = history-Writes ts bytes in
      let here_same : s.coordinator.radio.tunnel_written ≡ c.radio.tunnel_written =
        sym (ap (λ o. o.radio.tunnel_written) h) in
      let there_same : s.peer.radio.tunnel_written ≡ (peer_of w).radio.tunnel_written =
        sym (ap (λ o. o.radio.tunnel_written) k) in
      (
        subst (All IsIp) there_same a,
        subst (λ o. All (IsRest o) (peer_of w).radio.tunnel_written) mine
            (subst (All (IsRest (coordinator_takes ts))) there_same b),
        subst (All IsIp) here_same x,
        subst (λ o. All (IsRest o) c.radio.tunnel_written) theirs
            (subst (All (IsRest (peer_takes ts))) here_same y),
      )

  module _ (clock : Clock dev) (reads : Reads dev) (polls : dev.has_irq_line ≡ false) (fuel : ℕ)
      (enough : exchange_fuel ≤ fuel) where
    -- However the two loops go on from the start of both programs, with whatever frames and answers are
    -- lost and however often the coordinator gives the connection up: they return, with fuel for 2002 rounds
    -- of a loop or more, and each packet that a node has then written to its tunnel is a valid IP
    -- packet, and one that the other node's tunnel thread has read, or what is left of one when some
    -- bytes at its front are taken off. The radio carries the coordinator's packets to the peer
    -- and the peer's answers back, or loses them, and keeps an answer until it is read or flushed. The
    -- peer must be prompt: where a poll finds nothing and the 100 ms are over that the coordinator waits,
    -- no answer comes any more, and none comes while the radio does not listen. At the start nothing is there to be
    -- read. Both clocks must go on, the radio fill its buffer with bytes, and no IRQ line be in use. The
    -- tunnel threads read packets of bytes, between two iterations.
    pub run_loops-Writes :
        (hs : List Happening) (poll_interval_us : ℕ) (w : W)
        → All HappeningIsBytes hs
        → peer_of w ≡ new_peer
        → on_air w ≡ none
        → Returns
            (Writes hs)
            (run_loops dev peer_dev antenna medium fuel hs (new_coordinator poll_interval_us) w)
    run_loops-Writes hs poll_interval_us w h e silent =
        let ((c1, w1), f, r) =
          run_loops-Refines dev peer_dev antenna medium clock reads polls fuel enough hs
            poll_interval_us w h e silent in
        ((c1, w1), f, Refines-Writes hs c1 w1 r)
