-- ===== src/System.antt =====
-- The coordinator (nerfnet/net/primary_radio_interface.cc) and the peer
-- (nerfnet/net/secondary_radio_interface.cc) against each other: PerformExchange on one side and the
-- handling of a packet in Run on the other, with frames that may be lost. The statistics and the
-- failure streaks stay out of it.
pub mod Frames
pub mod Reads
pub mod Delivery
pub mod Accepted
pub mod Reset
pub mod Reconnect
pub mod Epoch
pub mod Queues
pub mod Holds
pub mod Written
pub mod Quiet
pub mod Outcome
pub mod Counting
pub mod Roles
pub mod Drain
pub mod Works
pub mod Drained
use n_rf24_module.Prelude.{ℕ, Bool, true, false, List, [], ◌∷◌, ◌++◌, if◌then◌else◌}
use n_rf24_module.Frame.{FrameType, MacFrame, empty_frame}
use n_rf24_module.Frame.Codec.{encode_mac_frame, decode_mac_frame}
use n_rf24_module.Session.{Node, tunnel_read}
use n_rf24_module.Coordinator.{Coordinator, new_coordinator}
use n_rf24_module.Coordinator.Choose.{choose_coordinator_tx_frame}
use n_rf24_module.Coordinator.Apply.{apply_peer_response}
use n_rf24_module.Coordinator.Exchange.{is_reset, count_data_frames}
use n_rf24_module.Coordinator.Loop.{reconnected}
use n_rf24_module.Peer.{Peer, new_peer}
use n_rf24_module.Peer.Request.{apply_coordinator_request, choose_peer_response}
use n_rf24_module.Peer.Loop.{peer_cleared}

-- The two programs, each with the packets that its tunnel thread has queued so far.
pub record System : Type 0 where
  pub coordinator : Coordinator
  pub coordinator_accepted : List (List ℕ)
  pub peer : Peer
  pub peer_accepted : List (List ℕ)

-- After the first reset.
abbrev pub fresh_system : System
fresh_system = record {
  coordinator = reconnected (new_coordinator 0);
  coordinator_accepted = [];
  peer = new_peer;
  peer_accepted = [];
}

-- The links of the two programs.
abbrev pub here : System → Node
here s = record { radio = s.coordinator.radio; accepted = s.coordinator_accepted }

abbrev pub there : System → Node
there s = record { radio = s.peer.radio; accepted = s.peer_accepted }

-- What the receiver decodes of a frame.
abbrev pub over_air : MacFrame → MacFrame
over_air frame = (decode_mac_frame (encode_mac_frame frame).1 empty_frame).1

-- What becomes of the two frames of an exchange.
pub data Air : Type 0 where
  request_lost answer_lost both_heard : Air

pub data Event : Type 0 where
  coordinator_reads peer_reads : List ℕ → Event
  exchanges : Air → Event

-- The coordinator hears the peer's frame, or not; `sent` is the type of its own frame.
abbrev pub hear_answer : Air → FrameType → MacFrame → Coordinator → Coordinator
hear_answer both_heard sent frame c =
    let rx = over_air frame in
    let (applied, c1) = apply_peer_response rx c in
    record c1 {
      consecutive_local_data_frames =
          count_data_frames applied sent rx.type c1.consecutive_local_data_frames;
    }
hear_answer _ sent frame c = c

-- From ChoosePeerResponse on.
abbrev pub answer_request : Air → FrameType → System → System
answer_request air sent s =
    let (chosen, frame, p) = choose_peer_response [] s.peer in
    if chosen
    then record s { peer = p; coordinator = hear_answer air sent frame s.coordinator }
    else record s { peer = p }

-- From the packet that the peer received on. HandleReset answers a Reset, which no exchange sends.
abbrev pub take_request : Air → FrameType → MacFrame → System → System
take_request air sent rx s =
    if is_reset rx.type
    then record s { peer = peer_cleared s.peer }
    else (let (applied, p) = apply_coordinator_request rx s.peer in
        if applied then answer_request air sent (record s { peer = p }) else record s { peer = p })

abbrev pub hear_request : Air → MacFrame → System → System
hear_request request_lost frame s = s
hear_request air frame s = take_request air frame.type (over_air frame) s

unfoldable pub exchange : Air → System → System
exchange air s =
    let (chosen, frame, c) = choose_coordinator_tx_frame [] s.coordinator in
    if chosen
    then hear_request air frame (record s { coordinator = c })
    else record s { coordinator = c }

unfoldable pub system_step : Event → System → System
system_step (coordinator_reads packet) s =
    let n = tunnel_read packet (here s) in
    record s {
      coordinator = record (s.coordinator) { radio = n.radio };
      coordinator_accepted = n.accepted;
    }
system_step (peer_reads packet) s =
    let n = tunnel_read packet (there s) in
    record s { peer = record (s.peer) { radio = n.radio }; peer_accepted = n.accepted }
system_step (exchanges air) s = exchange air s

unfoldable pub system_run : List Event → System → System
system_run [] s = s
system_run (e ∷ es) s = system_run es (system_step e s)
