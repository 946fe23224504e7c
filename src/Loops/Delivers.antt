-- ===== src/Loops/Delivers.antt =====
-- What Run of both programs (nerfnet/net/primary_radio_interface.cc and
-- secondary_radio_interface.cc) delivers while nothing is lost on the air.
use n_rf24_module.Prelude.{
  inl, none, sym, ℕ, zero, suc, ◌≤◌, ◌≡◌, ◌∙◌, refl, ap, subst, false, List, [], ◌∷◌, ◌++◌, All,
  Returns, replicate, All-append, All-replicate,
}
use n_rf24_module.Packet.Keep.{keep_ip}
use n_rf24_module.Driver.{Device, Clock, Reads}
use n_rf24_module.Coordinator.{Coordinator, new_coordinator}
use n_rf24_module.Coordinator.Returns.{exchange_fuel}
use n_rf24_module.Peer.{new_peer}
use n_rf24_module.System.{
  System, fresh_system, both_heard, Event, coordinator_reads, peer_reads, exchanges, exchange,
  system_step, system_run,
}
use n_rf24_module.System.Reads.{coordinator_packets, peer_packets}
use n_rf24_module.System.Delivery.{EventIsBytes, step-IsLinked}
use n_rf24_module.System.Drain.{work}
use n_rf24_module.System.Drained.{heard_exchanges, system_run-Drains}
use n_rf24_module.System.Reset.{take_turn}
use n_rf24_module.Loops.Turns.{Like, take_packet}
use n_rf24_module.Loops.Heard.{Antenna}
use n_rf24_module.Loops.Medium.{Medium}
use n_rf24_module.Loops.Exchanged.{both}
use n_rf24_module.Loops.Speaks.{Loud}
use n_rf24_module.Loops.Lossless.{Lossless}
use n_rf24_module.Loops.Runs.{
  Happening, coordinator_gets, peer_gets, iterates, coordinator_got, peer_got, HappeningIsBytes,
  run_loops, loops_iterate,
}
use n_rf24_module.Loops.Refines.{gets-IsValid, reads-Like, let_read-Like, let_read-Ready}
use n_rf24_module.Peer.Valid.{IsValid, new_peer-IsValid}
use n_rf24_module.Loops.Calmly.{Follows, iterates-Follows}
use n_rf24_module.Loops.Connects.{connects-Follows}

-- The same in System: nothing is lost.
abbrev pub event_of : Happening → Event
event_of (coordinator_gets packet) = coordinator_reads packet
event_of (peer_gets packet) = peer_reads packet
event_of iterates = exchanges both_heard

abbrev pub events_of : List Happening → List Event
events_of [] = []
events_of (h ∷ hs) = event_of h ∷ events_of hs

event_of-EventIsBytes : (h : Happening) → HappeningIsBytes h → EventIsBytes (event_of h)
event_of-EventIsBytes (coordinator_gets packet) b = b
event_of-EventIsBytes (peer_gets packet) b = b
event_of-EventIsBytes iterates b = tt

events_of-EventIsBytes :
    (hs : List Happening) → All HappeningIsBytes hs → All EventIsBytes (events_of hs)
events_of-EventIsBytes [] b = tt
events_of-EventIsBytes (h ∷ hs) b = (event_of-EventIsBytes h b.0, events_of-EventIsBytes hs b.1)

-- The packets that are read are the same.
coordinator_packets-events :
    (hs : List Happening) → coordinator_packets (events_of hs) ≡ coordinator_got hs
coordinator_packets-events [] = refl
coordinator_packets-events (coordinator_gets p ∷ hs) =
    ap (λ o. p ∷ o) (coordinator_packets-events hs)
coordinator_packets-events (peer_gets p ∷ hs) = coordinator_packets-events hs
coordinator_packets-events (iterates ∷ hs) = coordinator_packets-events hs

peer_packets-events : (hs : List Happening) → peer_packets (events_of hs) ≡ peer_got hs
peer_packets-events [] = refl
peer_packets-events (coordinator_gets p ∷ hs) = peer_packets-events hs
peer_packets-events (peer_gets p ∷ hs) = ap (λ o. p ∷ o) (peer_packets-events hs)
peer_packets-events (iterates ∷ hs) = peer_packets-events hs

-- Iterations at the end.
run-heard :
    (n : ℕ) (s : System)
    → system_run (events_of (replicate n iterates)) s ≡ system_run (heard_exchanges n) s
unfolding system_run
run-heard zero s = refl
run-heard (suc n) s = run-heard n (system_step (exchanges both_heard) s)

run-then-heard :
    (hs : List Happening) (n : ℕ) (s : System)
    → system_run (events_of (hs ++ replicate n iterates)) s
      ≡ system_run (heard_exchanges n) (system_run (events_of hs) s)
unfolding system_run
run-then-heard [] n s = run-heard n s
run-then-heard (h ∷ hs) n s = run-then-heard hs n (system_step (event_of h) s)

module _ {W : Type 0} {V : Type 0} (dev : Device W) (peer_dev : Device V)
    (antenna : Antenna peer_dev) (medium : Medium dev peer_dev antenna) where
  open medium use {peer_of}

  -- Nothing is left in the queues, and everything that was read has been written.
  abbrev pub Delivered : List Happening → Coordinator × W → Type 0
  Delivered hs (c, w) =
      (c.radio.read_buffer ≡ [])
      × ((peer_of w).radio.read_buffer ≡ [])
      × ((peer_of w).radio.tunnel_written ≡ keep_ip (coordinator_got hs))
      × (c.radio.tunnel_written ≡ keep_ip (peer_got hs))

  drained-Delivered :
      (hs : List Happening) (k : ℕ) (c : Coordinator) (w : W)
      → All HappeningIsBytes hs
      → work (system_run (events_of hs) fresh_system) ≤ suc k
      → Like
          (both c (peer_of w))
          (system_run (heard_exchanges (suc k)) (system_run (events_of hs) fresh_system))
      → Delivered hs (c, w)
  drained-Delivered hs k c w b enough (x, y) =
      let (here, there, forth, back) =
        system_run-Drains (events_of hs) k (events_of-EventIsBytes hs b) enough in
      (
        ap (λ o. o.radio.read_buffer) x ∙ here,
        ap (λ o. o.radio.read_buffer) y ∙ there,
        ap (λ o. o.radio.tunnel_written) y ∙ (forth ∙ ap keep_ip (coordinator_packets-events hs)),
        ap (λ o. o.radio.tunnel_written) x ∙ (back ∙ ap keep_ip (peer_packets-events hs)),
      )

module _ {W : Type 0} {V : Type 0} (dev : Device W) (peer_dev : Device V)
    (antenna : Antenna peer_dev) (medium : Medium dev peer_dev antenna)
    (loud : Loud peer_dev antenna) (lossless : Lossless dev peer_dev antenna medium)
    (clock : Clock dev) (reads : Reads dev) (polls : dev.has_irq_line ≡ false) (fuel : ℕ)
    (enough : exchange_fuel ≤ fuel) where
  open medium use {peer_of, on_air, let_read}
  open lossless use {calm}

  abbrev FollowsHere : Coordinator → W → System → Type 0
  FollowsHere c w s =
      Follows dev peer_dev antenna medium loud lossless clock reads polls fuel enough c w s

  abbrev EndsAt : System → Coordinator × W → Type 0
  EndsAt s (c, w) = FollowsHere c w s

  run-Follows :
      (hs : List Happening) (c : Coordinator) (w : W) (s : System)
      → All HappeningIsBytes hs
      → FollowsHere c w s
      → Returns
          (EndsAt (system_run (events_of hs) s))
          (run_loops dev peer_dev antenna medium fuel hs c w)
  unfolding run_loops system_run system_step take_turn
  run-Follows [] c w s h f = ((c, w), refl, f)
  run-Follows (coordinator_gets packet ∷ hs) c w s h f =
      let c1 = record c { radio = take_packet packet c.radio } in
      run-Follows hs c1 w (system_step (coordinator_reads packet) s) h.1 (record {
        valid = gets-IsValid dev peer_dev antenna medium packet c h.0 f.valid;
        quiet = f.quiet;
        linked = step-IsLinked (coordinator_reads packet) s h.0 f.linked;
        like = reads-Like dev peer_dev antenna medium packet c w s f.like;
      })
  run-Follows (peer_gets packet ∷ hs) c w s h f =
      run-Follows hs c (let_read packet w) (system_step (peer_reads packet) s) h.1 (record {
        valid = f.valid;
        quiet = (
          lossless.let_read_calm packet w f.quiet.0,
          let_read-Ready dev peer_dev antenna medium packet w h.0 f.quiet.1,
        );
        linked = step-IsLinked (peer_reads packet) s h.0 f.linked;
        like = let_read-Like dev peer_dev antenna medium packet c w s f.like;
      })
  run-Follows (iterates ∷ hs) c w s h f =
      let ((c1, w1), e, f1) =
        iterates-Follows dev peer_dev antenna medium loud lossless clock reads polls fuel enough c w
          s f in
      let (out, e1, g) = run-Follows hs c1 w1 (exchange both_heard s) h.1 f1 in
      (out, loops_iterate dev peer_dev antenna medium fuel hs c c1 w w1 e ∙ e1, g)

  -- While nothing is lost on the air, both loops return from the start of both programs, with fuel
  -- for 2002 rounds of a loop or more. One iteration connects them; let them go on, with whatever
  -- packets of bytes are read in whatever order, and then at least `work` times more and at least
  -- once: three for each fragment that is queued and whose receipt the other side cannot tell yet,
  -- and up to two more. Then both queues are empty, and each node has written to its tunnel exactly
  -- the valid IP packets that the other one has read, in their order. The radios must carry every
  -- packet to the peer and every answer back, in time: a packet is sent in the 20 ms that Send waits,
  -- and a poll finds the answer, the first or a later one, before the 100 ms are over that the
  -- coordinator waits. At the start nothing is there to be read. Both clocks must go on, the radio fill its buffer with bytes, and no
  -- IRQ line be in use. The tunnel threads read between two iterations.
  pub run_loops-Delivers :
      (hs : List Happening) (k poll_interval_us : ℕ) (w : W)
      → All HappeningIsBytes hs
      → calm w
      → peer_of w ≡ new_peer
      → on_air w ≡ none
      → work (system_run (events_of hs) fresh_system) ≤ suc k
      → Returns (Delivered dev peer_dev antenna medium hs) (
          run_loops dev peer_dev antenna medium fuel
            (iterates ∷ hs ++ replicate (suc k) iterates)
            (new_coordinator poll_interval_us)
            w)
  run_loops-Delivers hs k poll_interval_us w b h e silent bound =
      let ((c1, w1), e1, f1) =
        connects-Follows dev peer_dev antenna medium loud lossless clock reads polls fuel enough
          poll_interval_us w (h, (inl silent, subst IsValid (sym e) new_peer-IsValid)) e in
      let all = hs ++ replicate (suc k) iterates in
      let bytes =
        All-append HappeningIsBytes hs (replicate (suc k) iterates) b
          (All-replicate HappeningIsBytes (suc k) iterates tt) in
      let ((c2, w2), e2, f2) = run-Follows all c1 w1 fresh_system bytes f1 in
      let l =
        subst (λ o. Like (both c2 (peer_of w2)) o) (run-then-heard hs (suc k) fresh_system)
          f2.like in
      (
        (c2, w2),
        loops_iterate dev peer_dev antenna medium fuel all (new_coordinator poll_interval_us) c1 w
              w1 e1
            ∙ e2,
        drained-Delivered dev peer_dev antenna medium hs k c2 w2 b bound l,
      )
