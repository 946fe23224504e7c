-- ===== src/Session.antt =====
-- Two nodes over a channel that loses frames: the rules by which the methods of
-- nerfnet/net/radio_interface.cc work together, whoever of the two is the coordinator.
pub mod Sync
pub mod Contents
pub mod Receive
pub mod Commit
pub mod Hearing
pub mod Agree
pub mod Delivery
pub mod Progress
use n_rf24_module.Prelude.{ℕ, Bool, true, false, List, [], ◌∷◌, ◌++◌, if◌then◌else◌, value_or}
use n_rf24_module.Frame.{FrameType, MacFrame, empty_frame}
use n_rf24_module.Frame.Codec.{is_data, encode_mac_frame, decode_mac_frame}
use n_rf24_module.Packet.{is_valid_ip_packet}
use n_rf24_module.RadioInterface.{RadioInterface, initial, no_seq}
use n_rf24_module.RadioInterface.Transmit.{
  build_next_data_frame_locked, commit_ack_locked, push_back,
}
use n_rf24_module.RadioInterface.Assembly.{consume_data_frame_locked}

-- One node, with the packets that its tunnel thread has queued so far, oldest first.
pub record Node : Type 0 where
  pub radio : RadioInterface
  pub accepted : List (List ℕ)

abbrev pub fresh_node : Node
fresh_node = record { radio = initial; accepted = [] }

-- One iteration of the loop of TunnelThread that read `packet`: an invalid one is dropped.
unfoldable pub tunnel_read : List ℕ → Node → Node
tunnel_read packet n =
    if is_valid_ip_packet packet
    then record { radio = push_back packet n.radio; accepted = n.accepted ++ packet ∷ [] }
    else n

-- The locked region of ApplyPeerResponse and the start of ApplyCoordinatorRequest: the ACK first,
-- then the DATA. A frame of another type passes through ConsumeDataFrameLocked unchanged.
unfoldable pub receive_frame : MacFrame → RadioInterface → RadioInterface
receive_frame frame r = (consume_data_frame_locked frame (commit_ack_locked frame.ack r)).1

-- A frame that carries no DATA, as both nodes send it: the ACK is that of the last DATA received.
abbrev pub control_frame : FrameType → ℕ → ℕ → RadioInterface → MacFrame
control_frame type pending arg r = record empty_frame {
  type = type;
  ack = value_or r.last_rx_seq no_seq;
  pending = pending;
  arg = arg;
}

-- What one node does; the other one may hear it.
pub data Act : Type 0 where
  -- the tunnel thread reads a packet
  reads : List ℕ → Act
  -- a DATA frame goes out; the flag says whether the other node hears it
  sends_data : Bool → Act
  -- a frame of another type is heard
  sends_control : FrameType → ℕ → ℕ → Act

-- The other node gets what EncodeMacFrame and DecodeMacFrame make of the frame.
unfoldable pub heard : MacFrame → RadioInterface → RadioInterface
heard frame r = receive_frame (decode_mac_frame (encode_mac_frame frame).1 empty_frame).1 r

-- The acting node, and the other one.
unfoldable pub act : Act → Node → Node → Node × Node
act (reads packet) n other = (tunnel_read packet n, other)
act (sends_data arrives) n other =
    let (built, frame, r) = build_next_data_frame_locked n.radio in
    let sender = record n { radio = r } in
    if built
    then (if arrives
        then (sender, record other { radio = heard frame other.radio })
        else (sender, other))
    else (sender, other)
act (sends_control type pending arg) n other =
    (n, record other { radio = heard (control_frame type pending arg n.radio) other.radio })

-- Whose turn it is.
pub data Event : Type 0 where
  left right : Act → Event

unfoldable pub step : Event → Node × Node → Node × Node
step (left a) (m, n) = act a m n
step (right a) (m, n) = let (n', m') = act a n m in (m', n')

unfoldable pub run : List Event → Node × Node → Node × Node
run [] s = s
run (e ∷ es) s = run es (step e s)
