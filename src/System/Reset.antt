-- ===== src/System/Reset.antt =====
-- A connection of the coordinator and the peer that is lost and reset: ConnectionReset and Run of
-- nerfnet/net/primary_radio_interface.cc against HandleReset of
-- nerfnet/net/secondary_radio_interface.cc.
use n_rf24_module.Prelude.{true, List, [], ◌∷◌, ◌++◌, if◌then◌else◌}
use n_rf24_module.Coordinator.{Coordinator, reset_sync, new_coordinator}
use n_rf24_module.Coordinator.Exchange.{cleared, reset_frame, is_reset}
use n_rf24_module.Coordinator.Loop.{reconnected}
use n_rf24_module.Peer.{new_peer}
use n_rf24_module.Peer.Loop.{peer_cleared}
use n_rf24_module.System.{
  System, over_air, Air, request_lost, both_heard, Event, coordinator_reads, peer_reads, exchanges,
  exchange, system_step,
}

-- Both programs when they start.
abbrev pub start_system : System
start_system = record {
  coordinator = new_coordinator 0;
  coordinator_accepted = [];
  peer = new_peer;
  peer_accepted = [];
}

-- The coordinator hears the peer's Reset, or not.
abbrev pub hear_reset_answer : Air → Coordinator → Coordinator
hear_reset_answer both_heard c = if is_reset (over_air reset_frame).type then reconnected c else c
hear_reset_answer _ c = c

-- The peer hears the coordinator's Reset, or not.
abbrev pub hear_reset : Air → System → System
hear_reset request_lost s = s
hear_reset air s =
    if is_reset (over_air reset_frame).type
    then record s { peer = peer_cleared s.peer; coordinator = hear_reset_answer air s.coordinator }
    else s

unfoldable pub reset_connection : Air → System → System
reset_connection air s = hear_reset air (record s { coordinator = cleared s.coordinator })

-- What the other node has written counts as accepted before, and what is queued is accepted anew.
abbrev pub recount : System → System
recount s = record s {
  coordinator_accepted = s.peer.radio.tunnel_written ++ s.coordinator.radio.read_buffer;
  peer_accepted = s.coordinator.radio.tunnel_written ++ s.peer.radio.read_buffer;
}

-- HandleTransactionFailure, where it disconnects.
abbrev pub lose_connection : Coordinator → Coordinator
lose_connection c = record c {
  disconnected = true;
  connection_reset_required = true;
  state = reset_sync;
}

-- One iteration of Run on both sides. `disconnected_` is set only where `connection_reset_required_`
-- is set, and both lead to ConnectionReset. `recount` is not in the code: it is what a theorem on a whole
-- history counts from.
unfoldable pub radio_turn : Air → System → System
radio_turn air s =
    if s.coordinator.connection_reset_required
    then recount (reset_connection air s)
    else exchange air s

-- What happens next; in the code a connection is lost after a number of failures.
pub data Turn : Type 0 where
  event : Event → Turn
  gives_up : Turn

unfoldable pub take_turn : Turn → System → System
take_turn gives_up s = record s { coordinator = lose_connection s.coordinator }
take_turn (event (exchanges air)) s = radio_turn air s
take_turn (event (coordinator_reads packet)) s = system_step (coordinator_reads packet) s
take_turn (event (peer_reads packet)) s = system_step (peer_reads packet) s

unfoldable pub history : List Turn → System → System
history [] s = s
history (t ∷ ts) s = history ts (take_turn t s)
