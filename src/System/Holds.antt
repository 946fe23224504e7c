-- ===== src/System/Holds.antt =====
-- A predicate on packets that holds of what a tunnel thread reads, and of what is left of a packet,
-- holds of what the other node writes (nerfnet/net/primary_radio_interface.cc and
-- secondary_radio_interface.cc), however often the connection is lost.
use n_rf24_module.Prelude.{
  ℕ, ◌≡◌, refl, sym, subst, List, [], ◌∷◌, arith, All, All-append, drop, if-preserves,
}
use n_rf24_module.Packet.Keep.{keep_ip-All}
use n_rf24_module.Session.{Node, tunnel_read}
use n_rf24_module.System.{
  System, here, there, Air, request_lost, answer_lost, both_heard, coordinator_reads, peer_reads,
  exchanges, exchange, system_step,
}
use n_rf24_module.System.Reads.{exchange-accepted}
use n_rf24_module.System.Delivery.{IsLinked, exchange-IsLinked}
use n_rf24_module.System.Reset.{
  reset_connection, recount, radio_turn, Turn, event, gives_up, take_turn, history,
}
use n_rf24_module.System.Reconnect.{TurnIsBytes, IsSound, turn-IsSound, reset_arrives, written-All}
use n_rf24_module.System.Queues.{HoldQueues, exchange-HoldQueues}

module _ (P Q : List ℕ → Type 0) (rest_P : (n : ℕ) (p : List ℕ) → P p → P (drop n p))
    (rest_Q : (n : ℕ) (p : List ℕ) → Q p → Q (drop n p)) where
  -- Every packet that came from the coordinator's tunnel, and from the peer's.
  pub record Holds (s : System) : Type 0 where
    pub queues : HoldQueues P Q rest_P rest_Q s
    pub there_written : All P s.peer.radio.tunnel_written
    pub here_written : All Q s.coordinator.radio.tunnel_written
    pub here_accepted : All P s.coordinator_accepted
    pub there_accepted : All Q s.peer_accepted

  abbrev pub TurnHolds : Turn → Type 0
  TurnHolds (event (coordinator_reads p)) = P p
  TurnHolds (event (peer_reads p)) = Q p
  TurnHolds (event (exchanges air)) = Unit {0}
  TurnHolds gives_up = Unit {0}

  tunnel_read-All :
      (R : List ℕ → Type 0) (p : List ℕ) (m : Node)
      → R p
      → All R m.accepted
      → All R m.radio.read_buffer
      → All R (tunnel_read p m).accepted
        × All R (tunnel_read p m).radio.read_buffer
        × ((tunnel_read p m).radio.tunnel_written ≡ m.radio.tunnel_written)
  unfolding tunnel_read
  tunnel_read-All R p m r h k = ground (
    arith,
    All-append R m.accepted (p ∷ []) h (r, tt),
    All-append R m.radio.read_buffer (p ∷ []) k (r, tt),
  )

  exchange-Holds : (air : Air) (s : System) → IsLinked s → Holds s → Holds (exchange air s)
  exchange-Holds air s g h =
      let s' = exchange air s in
      let agree = (exchange-IsLinked air s g).agree in
      let same = exchange-accepted air s in
      let c = subst (All P) (sym same.0) h.here_accepted in
      let p = subst (All Q) (sym same.1) h.there_accepted in
      record {
        queues = exchange-HoldQueues P Q rest_P rest_Q air s h.queues;
        there_written =
            written-All P (here s') (there s') (keep_ip-All P s'.coordinator_accepted c)
              agree.forth;
        here_written =
            written-All Q (there s') (here s') (keep_ip-All Q s'.peer_accepted p) agree.back;
        here_accepted = c;
        there_accepted = p;
      }

  recount-Holds :
      (s t : System)
      → (t.coordinator.radio.read_buffer ≡ s.coordinator.radio.read_buffer)
        × (t.coordinator.radio.tunnel_written ≡ s.coordinator.radio.tunnel_written)
        × (t.peer.radio.read_buffer ≡ s.peer.radio.read_buffer)
        × (t.peer.radio.tunnel_written ≡ s.peer.radio.tunnel_written)
      → Holds s
      → Holds (recount t)
  recount-Holds s t (cq, cw, pq, pw) h =
      let here_queue = subst (All P) (sym cq) h.queues.0 in
      let there_queue = subst (All Q) (sym pq) h.queues.1 in
      let here_out = subst (All Q) (sym cw) h.here_written in
      let there_out = subst (All P) (sym pw) h.there_written in
      record {
        queues = (here_queue, there_queue);
        there_written = there_out;
        here_written = here_out;
        here_accepted =
            All-append P t.peer.radio.tunnel_written t.coordinator.radio.read_buffer there_out
              here_queue;
        there_accepted =
            All-append Q t.coordinator.radio.tunnel_written t.peer.radio.read_buffer here_out
              there_queue;
      }

  reset-Holds : (air : Air) (s : System) → Holds s → Holds (recount (reset_connection air s))
  unfolding reset_connection
  reset-Holds request_lost s h =
      recount-Holds s (reset_connection request_lost s) (refl, refl, refl, refl) h
  reset-Holds answer_lost s h =
      recount-Holds s (reset_connection answer_lost s) (rw reset_arrives (refl, refl, refl, refl)) h
  reset-Holds both_heard s h =
      recount-Holds s (reset_connection both_heard s) (rw reset_arrives (refl, refl, refl, refl)) h

  turn-Holds : (t : Turn) (s : System) → TurnHolds t → IsSound s → Holds s → Holds (take_turn t s)
  unfolding take_turn radio_turn system_step
  turn-Holds gives_up s p g h = record {
    queues = h.queues;
    there_written = h.there_written;
    here_written = h.here_written;
    here_accepted = h.here_accepted;
    there_accepted = h.there_accepted;
  }
  turn-Holds (event (exchanges air)) s p g h =
      if-preserves (λ o. Holds o) s.coordinator.connection_reset_required
        (λ lost. reset-Holds air s h) (λ connected. exchange-Holds air s (g.linked connected) h)
  turn-Holds (event (coordinator_reads packet)) s p g h =
      let (accepted, queue, same) =
        tunnel_read-All P packet (here s) p h.here_accepted h.queues.0 in
      record {
        queues = (queue, h.queues.1);
        there_written = h.there_written;
        here_written = subst (All Q) (sym same) h.here_written;
        here_accepted = accepted;
        there_accepted = h.there_accepted;
      }
  turn-Holds (event (peer_reads packet)) s p g h =
      let (accepted, queue, same) =
        tunnel_read-All Q packet (there s) p h.there_accepted h.queues.1 in
      record {
        queues = (h.queues.0, queue);
        there_written = subst (All P) (sym same) h.there_written;
        here_written = h.here_written;
        here_accepted = h.here_accepted;
        there_accepted = accepted;
      }

  pub history-Holds :
      (ts : List Turn) (s : System)
      → All TurnIsBytes ts
      → All TurnHolds ts
      → IsSound s
      → Holds s
      → Holds (history ts s)
  unfolding history
  history-Holds [] s b p g h = h
  history-Holds (t ∷ ts) s b p g h =
      history-Holds ts (take_turn t s) b.1 p.1 (turn-IsSound t s b.0 g) (turn-Holds t s p.0 g h)
