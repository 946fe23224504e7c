-- ===== src/System/Drained.antt =====
-- What the coordinator and the peer (nerfnet/net/primary_radio_interface.cc and
-- secondary_radio_interface.cc) have delivered once enough exchanges are heard.
use n_rf24_module.Prelude.{
  ℕ, zero, suc, ◌≤◌, ◌≡◌, ◌∙◌, inl, inr, refl, sym, ap, List, [], ◌∷◌, ◌++◌, arith, All, append-nil,
}
use n_rf24_module.Packet.Keep.{keep_ip, keep_ip_same, keep_ip-IsIp}
use n_rf24_module.Session.{Node}
use n_rf24_module.Session.Sync.{outgoing, incoming, Sync}
use n_rf24_module.Session.Delivery.{Sync-DeliversValid}
use n_rf24_module.Session.Progress.{fragments-zero}
use n_rf24_module.Coordinator.{new_coordinator}
use n_rf24_module.System.{
  System, fresh_system, here, there, both_heard, Event, coordinator_reads, peer_reads, exchanges,
  exchange, system_step, system_run,
}
use n_rf24_module.System.Reads.{
  coordinator_packets, peer_packets, exchange-accepted, system_run-accepted,
}
use n_rf24_module.System.Delivery.{
  IsLinked, EventIsBytes, exchange-IsLinked, step-IsLinked, system_run-IsLinked,
  fresh_system-IsLinked,
}
use n_rf24_module.System.Quiet.{IsQuiet, exchange-IsQuiet}
use n_rf24_module.System.Drain.{work, mine-falls, peer-queued}
use n_rf24_module.System.Works.{exchange-Works}

-- Exchanges of which both frames are heard, and nothing that is read.
abbrev pub heard_exchanges : ℕ → List Event
heard_exchanges zero = []
heard_exchanges (suc k) = exchanges both_heard ∷ heard_exchanges k

-- Both queues are empty, and nothing else was accepted meanwhile.
record IsDrained (s u : System) : Type 0 where
  linked : IsLinked u
  here_empty : u.coordinator.radio.read_buffer ≡ []
  there_empty : u.peer.radio.read_buffer ≡ []
  here_same : u.coordinator_accepted ≡ s.coordinator_accepted
  there_same : u.peer_accepted ≡ s.peer_accepted

last_exchange-IsDrained :
    (s : System) → IsLinked s → work s ≤ 1 → IsDrained s (exchange both_heard s)
last_exchange-IsDrained s g h =
    let s' = exchange both_heard s in
    let linked = exchange-IsLinked both_heard s g in
    record {
      linked = linked;
      here_empty =
          fragments-zero s'.coordinator.radio.read_buffer linked.agree.here_valid.queue
            (omega (arith, mine-falls s g));
      there_empty =
          fragments-zero s'.peer.radio.read_buffer linked.agree.there_valid.queue
            (omega (arith, peer-queued s g));
      here_same = (exchange-accepted both_heard s).0;
      there_same = (exchange-accepted both_heard s).1;
    }

run-IsDrained :
    (k : ℕ) (s : System)
    → IsLinked s
    → IsQuiet s.coordinator
    → work s ≤ suc k
    → IsDrained s (system_run (heard_exchanges (suc k)) s)
unfolding system_run system_step
run-IsDrained zero s g q h = last_exchange-IsDrained s g (omega arith)
run-IsDrained (suc k) s g q h =
    let s' = exchange both_heard s in
    let less : work s' ≤ suc k = elim (exchange-Works s g q) [
      | inl little ↦ omega (arith, little)
      | inr fewer ↦ omega (arith, fewer)
    ] in
    let done =
      run-IsDrained k s' (exchange-IsLinked both_heard s g) (exchange-IsQuiet both_heard s g q)
        less in
    record {
      linked = done.linked;
      here_empty = done.here_empty;
      there_empty = done.there_empty;
      here_same = done.here_same ∙ (exchange-accepted both_heard s).0;
      there_same = done.there_same ∙ (exchange-accepted both_heard s).1;
    }

system_run-IsQuiet :
    (es : List Event) (s : System)
    → All EventIsBytes es
    → IsLinked s
    → IsQuiet s.coordinator
    → IsQuiet (system_run es s).coordinator
unfolding system_run system_step
system_run-IsQuiet [] s h g q = q
system_run-IsQuiet (coordinator_reads p ∷ es) s h g q =
    system_run-IsQuiet es (system_step (coordinator_reads p) s) h.1
      (step-IsLinked (coordinator_reads p) s h.0 g) q
system_run-IsQuiet (peer_reads p ∷ es) s h g q =
    system_run-IsQuiet es (system_step (peer_reads p) s) h.1 (step-IsLinked (peer_reads p) s h.0 g)
      q
system_run-IsQuiet (exchanges air ∷ es) s h g q =
    system_run-IsQuiet es (exchange air s) h.1 (exchange-IsLinked air s g)
      (exchange-IsQuiet air s g q)

fresh_system-IsQuiet : IsQuiet fresh_system.coordinator
unfolding new_coordinator
fresh_system-IsQuiet = λ i. refl

-- After any history of tunnel reads and of exchanges with lost frames between the connected coordinator
-- and peer, let at least `work` exchanges follow of which both frames are heard: three for each fragment
-- that is queued and whose receipt the other side cannot tell yet, and up to two more. Then both queues
-- are empty, and each node has written to its tunnel exactly the valid IP packets that the other one has
-- read, in their order.
pub system_run-Drains :
    (es : List Event) (k : ℕ)
    → All EventIsBytes es
    → work (system_run es fresh_system) ≤ suc k
    → let u = system_run (heard_exchanges (suc k)) (system_run es fresh_system) in
      (u.coordinator.radio.read_buffer ≡ [])
      × (u.peer.radio.read_buffer ≡ [])
      × (u.peer.radio.tunnel_written ≡ keep_ip (coordinator_packets es))
      × (u.coordinator.radio.tunnel_written ≡ keep_ip (peer_packets es))
system_run-Drains es k h enough =
    let s = system_run es fresh_system in
    let u = system_run (heard_exchanges (suc k)) s in
    let g = system_run-IsLinked es fresh_system h fresh_system-IsLinked in
    let q = system_run-IsQuiet es fresh_system h fresh_system-IsLinked fresh_system-IsQuiet in
    let done = run-IsDrained k s g q enough in
    let (c, p) = system_run-accepted es fresh_system in
    (
      done.here_empty,
      done.there_empty,
      all_written (here u) (there u) (coordinator_packets es) done.linked.agree.forth
          done.here_empty (done.here_same ∙ c),
      all_written (there u) (here u) (peer_packets es) done.linked.agree.back done.there_empty
          (done.there_same ∙ p),
    )
  where
    all_written :
        (m n : Node) (packets : List (List ℕ))
        → Sync (outgoing m.radio) (incoming n.radio) m.accepted
        → m.radio.read_buffer ≡ []
        → m.accepted ≡ keep_ip packets
        → n.radio.tunnel_written ≡ keep_ip packets
    all_written m n packets sync empty same =
        let (rest, all, tail) = Sync-DeliversValid m n sync in
        sym (append-nil n.radio.tunnel_written)
        ∙ (ap (λ r. n.radio.tunnel_written ++ r) (sym (tail empty))
            ∙ (all ∙ (ap keep_ip same ∙ keep_ip_same (keep_ip packets) (keep_ip-IsIp packets))))
