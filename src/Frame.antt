-- ===== src/Frame.antt =====
-- The MAC frame and its codec: nerfnet/net/radio_interface.h (FrameType, MacFrame, the packet
-- sizes) and EncodeMacFrame, DecodeMacFrame of nerfnet/net/radio_interface.cc.
pub mod Codec
pub mod Layout
pub mod RoundTrip
use n_rf24_module.Prelude.{ℕ, ◌-◌, List, []}

-- `enum class FrameType : uint8_t`. A cast from a byte can leave any value in it: `other n`.
pub data FrameType : Type 0 where
  invalid pending grant data_frame ack reset : FrameType
  other : ℕ → FrameType

pub record MacFrame : Type 0 where
  pub type : FrameType
  pub seq : ℕ
  pub ack : ℕ
  pub pending : ℕ
  pub arg : ℕ
  pub payload : List ℕ

-- `MacFrame{}`
abbrev pub empty_frame : MacFrame
empty_frame = record {
  type = FrameType.invalid;
  seq = 0;
  ack = 0;
  pending = 0;
  arg = 0;
  payload = [];
}

abbrev pub max_packet_size : ℕ
max_packet_size = 32

abbrev pub header_size : ℕ
header_size = 5

abbrev pub max_payload_size : ℕ
max_payload_size = max_packet_size - header_size
