-- ===== src/System/Reconnect.antt =====
-- The links of the coordinator and the peer agree again after every reset that succeeds
-- (nerfnet/net/primary_radio_interface.cc and secondary_radio_interface.cc).
use n_rf24_module.Prelude.{
  ℕ, ◌≡◌, refl, sym, subst, true, false, List, [], ◌∷◌, ◌++◌, arith, All, if-preserves,
}
use n_rf24_module.Frame.RoundTrip.{IsByte}
use n_rf24_module.Frame.Codec.{encode_mac_frame, decode_mac_frame, from_byte, to_byte}
use n_rf24_module.Packet.Keep.{IsIp, keep_ip, keep_ip-append, keep_ip_same, keep_ip-IsIp}
use n_rf24_module.RadioInterface.{RadioInterface, reset_link}
use n_rf24_module.RadioInterface.Valid.{IsValid, initial-IsValid, reset_link-IsValid}
use n_rf24_module.Session.{Node, tunnel_read}
use n_rf24_module.Session.Sync.{outgoing, incoming, Sync, expecting}
use n_rf24_module.Session.Contents.{glue_nil, IsSettled-nil}
use n_rf24_module.Session.Agree.{tunnel_read-IsValid}
use n_rf24_module.Session.Delivery.{Sync-DeliversValid}
use n_rf24_module.Coordinator.{new_coordinator}
use n_rf24_module.Coordinator.Exchange.{reset_frame, is_reset}
use n_rf24_module.System.{
  System, here, there, over_air, Air, request_lost, answer_lost, both_heard, coordinator_reads,
  peer_reads, exchanges, exchange, system_step,
}
use n_rf24_module.System.Delivery.{IsLinked, EventIsBytes, exchange-IsLinked, step-IsLinked}
use n_rf24_module.System.Reset.{
  start_system, reset_connection, recount, radio_turn, Turn, event, gives_up, take_turn, history,
}

-- Always: both links are valid and only valid packets were written. Once the connection has been
-- reset, the links agree.
pub record IsSound (s : System) : Type 0 where
  pub here_valid : IsValid s.coordinator.radio
  pub there_valid : IsValid s.peer.radio
  pub here_written : All IsIp s.coordinator.radio.tunnel_written
  pub there_written : All IsIp s.peer.radio.tunnel_written
  pub linked : s.coordinator.connection_reset_required ≡ false → IsLinked s

All-front {κ} : (P : List ℕ → Type κ) (xs ys : List (List ℕ)) → All P (xs ++ ys) → All P xs
All-front P [] ys h = tt
All-front P (x ∷ xs) ys h = (h.0, All-front P xs ys h.1)

-- A receiver that agrees has written what satisfies a predicate that the accepted packets satisfy.
pub written-All {κ} :
    (P : List ℕ → Type κ) (m n : Node)
    → All P (keep_ip m.accepted)
    → Sync (outgoing m.radio) (incoming n.radio) m.accepted
    → All P n.radio.tunnel_written
written-All P m n h g =
    let (rest, all, _) = Sync-DeliversValid m n g in
    All-front P n.radio.tunnel_written rest (subst (All P) (sym all) h)

linked-IsSound : (s : System) → IsLinked s → IsSound s
linked-IsSound s g = record {
  here_valid = g.agree.here_valid;
  there_valid = g.agree.there_valid;
  here_written = written-All IsIp (there s) (here s) (keep_ip-IsIp s.peer_accepted) g.agree.back;
  there_written =
      written-All IsIp (here s) (there s) (keep_ip-IsIp s.coordinator_accepted) g.agree.forth;
  linked = λ e. g;
}

-- Two links that have both been reset agree.
reset-Sync :
    (a b : RadioInterface)
    → All IsIp b.tunnel_written
    → Sync (outgoing (reset_link a)) (incoming (reset_link b)) (b.tunnel_written ++ a.read_buffer)
reset-Sync a b h = expecting tt (
  IsSettled-nil a.read_buffer,
  rw (
    glue_nil a.read_buffer,
    keep_ip-append b.tunnel_written a.read_buffer,
    keep_ip_same b.tunnel_written h,
  ),
)

pub reset_arrives : is_reset (over_air reset_frame).type ≡ true
unfolding encode_mac_frame decode_mac_frame from_byte to_byte
reset_arrives = refl

-- A ConnectionReset that succeeds.
pub reset-IsLinked : (s : System) → IsSound s → IsLinked (recount (reset_connection both_heard s))
unfolding reset_connection
reset-IsLinked s g = rw reset_arrives (record {
  agree = record {
    here_valid = reset_link-IsValid s.coordinator.radio g.here_valid;
    there_valid = reset_link-IsValid s.peer.radio g.there_valid;
    forth = reset-Sync s.coordinator.radio s.peer.radio g.there_written;
    back = reset-Sync s.peer.radio s.coordinator.radio g.here_written;
  };
  ready = ground arith;
})

reset-IsSound :
    (air : Air) (s : System)
    → s.coordinator.connection_reset_required ≡ true
    → IsSound s
    → IsSound (recount (reset_connection air s))
unfolding reset_connection
reset-IsSound both_heard s e g =
    linked-IsSound (recount (reset_connection both_heard s)) (reset-IsLinked s g)
reset-IsSound answer_lost s e g = rw reset_arrives (record {
  here_valid = reset_link-IsValid s.coordinator.radio g.here_valid;
  there_valid = reset_link-IsValid s.peer.radio g.there_valid;
  here_written = g.here_written;
  there_written = g.there_written;
  linked = λ l. ground (arith, e, l);
})
reset-IsSound request_lost s e g = record {
  here_valid = reset_link-IsValid s.coordinator.radio g.here_valid;
  there_valid = g.there_valid;
  here_written = g.here_written;
  there_written = g.there_written;
  linked = λ l. ground (arith, e, l);
}

tunnel_read-written :
    (p : List ℕ) (m : Node) → (tunnel_read p m).radio.tunnel_written ≡ m.radio.tunnel_written
unfolding tunnel_read
tunnel_read-written p m = ground arith

coordinator_reads-IsSound :
    (p : List ℕ) (s : System)
    → All IsByte p
    → IsSound s
    → IsSound (system_step (coordinator_reads p) s)
unfolding system_step
coordinator_reads-IsSound p s b g = record {
  here_valid = tunnel_read-IsValid p (here s) b g.here_valid;
  there_valid = g.there_valid;
  here_written = subst (All IsIp) (sym (tunnel_read-written p (here s))) g.here_written;
  there_written = g.there_written;
  linked = λ e. step-IsLinked (coordinator_reads p) s b (g.linked e);
}

peer_reads-IsSound :
    (p : List ℕ) (s : System) → All IsByte p → IsSound s → IsSound (system_step (peer_reads p) s)
unfolding system_step
peer_reads-IsSound p s b g = record {
  here_valid = g.here_valid;
  there_valid = tunnel_read-IsValid p (there s) b g.there_valid;
  here_written = g.here_written;
  there_written = subst (All IsIp) (sym (tunnel_read-written p (there s))) g.there_written;
  linked = λ e. step-IsLinked (peer_reads p) s b (g.linked e);
}

radio_turn-IsSound : (air : Air) (s : System) → IsSound s → IsSound (radio_turn air s)
unfolding radio_turn
radio_turn-IsSound air s g =
    if-preserves (λ o. IsSound o) s.coordinator.connection_reset_required
      (λ required. reset-IsSound air s required g)
      (λ connected. linked-IsSound (exchange air s) (exchange-IsLinked air s (g.linked connected)))

-- The tunnel threads read bytes.
abbrev pub TurnIsBytes : Turn → Type 0
TurnIsBytes (event e) = EventIsBytes e
TurnIsBytes gives_up = Unit {0}

pub turn-IsSound : (t : Turn) (s : System) → TurnIsBytes t → IsSound s → IsSound (take_turn t s)
unfolding take_turn
turn-IsSound gives_up s h g = record {
  here_valid = g.here_valid;
  there_valid = g.there_valid;
  here_written = g.here_written;
  there_written = g.there_written;
  linked = λ e. ground arith;
}
turn-IsSound (event (exchanges air)) s h g = radio_turn-IsSound air s g
turn-IsSound (event (coordinator_reads p)) s h g = coordinator_reads-IsSound p s h g
turn-IsSound (event (peer_reads p)) s h g = peer_reads-IsSound p s h g

pub history-IsSound :
    (ts : List Turn) (s : System) → All TurnIsBytes ts → IsSound s → IsSound (history ts s)
unfolding history
history-IsSound [] s h g = g
history-IsSound (t ∷ ts) s h g = history-IsSound ts (take_turn t s) h.1 (turn-IsSound t s h.0 g)

pub start-IsSound : IsSound start_system
unfolding new_coordinator
start-IsSound = record {
  here_valid = initial-IsValid;
  there_valid = initial-IsValid;
  here_written = tt;
  there_written = tt;
  linked = λ e. ground arith;
}
