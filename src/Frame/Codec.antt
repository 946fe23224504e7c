-- ===== src/Frame/Codec.antt =====
-- EncodeMacFrame and DecodeMacFrame of nerfnet/net/radio_interface.cc.
use n_rf24_module.Prelude.{
  ℕ, ◌+◌, Bool, true, false, ◌&&◌, List, [], ◌∷◌, ltb, ◌==◌, if◌then◌else◌, length, get_or, set,
  take, drop, replicate, min,
}
use n_rf24_module.Frame.{
  FrameType, invalid, pending, grant, data_frame, ack, reset, other, MacFrame, max_packet_size,
  header_size, max_payload_size,
}

-- `static_cast<uint8_t>(frame.type)`
unfoldable pub to_byte : FrameType → ℕ
to_byte invalid = 0
to_byte pending = 1
to_byte grant = 2
to_byte data_frame = 3
to_byte ack = 4
to_byte reset = 5
to_byte (other n) = n

-- `static_cast<FrameType>(packet[0])`
unfoldable pub from_byte : ℕ → FrameType
from_byte b =
    if b == 0
    then invalid
    else if b == 1
    then pending
    else if b == 2
    then grant
    else if b == 3
    then data_frame
    else if b == 4
    then ack
    else if b == 5
    then reset
    else other b

-- `type == FrameType::Data`
abbrev pub is_data : FrameType → Bool
is_data data_frame = true
is_data _ = false

-- The loop `packet[kHeaderSize + i] = frame.payload[i]`, from index `i` on.
unfoldable pub copy_payload : List ℕ → ℕ → List ℕ → List ℕ
copy_payload packet i [] = packet
copy_payload packet i (b ∷ bs) = copy_payload (set packet (header_size + i) b) (i + 1) bs

-- The flag that is returned, and what is left in `packet`.
unfoldable pub encode_mac_frame : MacFrame → Bool × List ℕ
unfolding copy_payload
encode_mac_frame frame =
    let blank = replicate max_packet_size 0 in
    if ltb max_payload_size (length frame.payload)
    then (false, blank)
    else (let p0 = set blank 0 (to_byte frame.type) in
        let p1 = set p0 1 frame.seq in
        let p2 = set p1 2 frame.ack in
        let p3 = set p2 3 frame.pending in
        let p4 = set p3 4 frame.arg in (true, copy_payload p4 0 frame.payload))

-- What the decoder puts in `payload`, for a type and an `arg`: the front of the bytes that follow
-- the header.
abbrev pub read_payload : FrameType → ℕ → List ℕ → List ℕ
read_payload type arg rest =
    if is_data type && ltb 0 arg then take (min arg max_payload_size) rest else []

-- The fields that the decoder reads out of a packet.
abbrev pub read_frame : List ℕ → MacFrame
read_frame packet =
    let type = from_byte (get_or packet 0 0) in
    let arg = get_or packet 4 0 in
    record {
      type = type;
      seq = get_or packet 1 0;
      ack = get_or packet 2 0;
      pending = get_or packet 3 0;
      arg = arg;
      payload = read_payload type arg (drop header_size packet);
    }

-- The flag that is returned, and what is left in `frame`.
unfoldable pub decode_mac_frame : List ℕ → MacFrame → Bool × MacFrame
decode_mac_frame packet frame =
    if length packet == max_packet_size then (true, read_frame packet) else (false, frame)
