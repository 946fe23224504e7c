-- ===== src/Examples/Frames.antt =====
-- The codec and the frames of nerfnet/net/radio_interface.cc at concrete inputs.
use n_rf24_module.Prelude.{
  ℕ, ◌≤◌, ◌≡◌, ◌≢◌, ◌⊎◌, ◌↔◌, refl, true, false, List, [], ◌∷◌, arith, length, All, replicate,
}
use n_rf24_module.Frame.{MacFrame, data_frame, empty_frame, max_payload_size, max_packet_size}
use n_rf24_module.Frame.Codec.{encode_mac_frame, decode_mac_frame, from_byte, to_byte}
use n_rf24_module.Frame.RoundTrip.{
  IsByte, IsSendable, decode-encode, decode-IsSendable, encode_bounds,
}
use n_rf24_module.RadioInterface.{RadioInterface, initial}
use n_rf24_module.RadioInterface.Transmit.{build_next_data_frame_locked, push_back}
use n_rf24_module.RadioInterface.Valid.{IsValid, initial-IsValid, push_back-IsValid}
use n_rf24_module.RadioInterface.Fragment.{build-decode-encode}
use n_rf24_module.Examples.Packets.{ping, ping_bytes}

-- A DATA frame with the last three bytes of a packet.
abbrev last_bytes : MacFrame
last_bytes = record {
  type = data_frame;
  seq = 31;
  ack = 4;
  pending = 1;
  arg = 3;
  payload = 9 ∷ 8 ∷ 7 ∷ [];
}

abbrev last_bytes_packet : List ℕ
last_bytes_packet = 3 ∷ 31 ∷ 4 ∷ 1 ∷ 3 ∷ 9 ∷ 8 ∷ 7 ∷ replicate 24 0

last_bytes_tested :
    (encode_mac_frame last_bytes ≡ (true, last_bytes_packet))
    × (decode_mac_frame last_bytes_packet empty_frame ≡ (true, last_bytes))
    × (decode_mac_frame (3 ∷ []) empty_frame ≡ (false, empty_frame))
unfolding encode_mac_frame decode_mac_frame to_byte from_byte
last_bytes_tested = (refl, refl, refl)

last_bytes-IsSendable : IsSendable last_bytes
last_bytes-IsSendable = record {
  type_value = tt;
  seq_byte = omega arith;
  ack_byte = omega arith;
  pending_byte = omega arith;
  arg_byte = omega arith;
  payload_bytes = omega arith;
  payload_fits = refl;
}

decode-encode_example :
    ((encode_mac_frame last_bytes).0 ≡ true)
    × (decode_mac_frame (encode_mac_frame last_bytes).1 empty_frame ≡ (true, last_bytes))
decode-encode_example = decode-encode last_bytes empty_frame last_bytes-IsSendable

decode-IsSendable_example :
    ((length last_bytes_packet ≡ max_packet_size)
      × ((decode_mac_frame last_bytes_packet empty_frame).0 ≡ true)
      × IsSendable (decode_mac_frame last_bytes_packet empty_frame).1)
    ⊎ ((length last_bytes_packet ≢ max_packet_size)
        × (decode_mac_frame last_bytes_packet empty_frame ≡ (false, empty_frame)))
decode-IsSendable_example = decode-IsSendable last_bytes_packet empty_frame (omega arith)

encode_bounds_example :
    (((encode_mac_frame last_bytes).0 ≡ true) ↔ (length last_bytes.payload ≤ max_payload_size))
    × (length (encode_mac_frame last_bytes).1 ≡ max_packet_size)
    × All IsByte (encode_mac_frame last_bytes).1
encode_bounds_example = encode_bounds last_bytes tt (omega arith)

-- A node with one packet to send.
abbrev loaded : RadioInterface
loaded = push_back ping initial

loaded-IsValid : IsValid loaded
loaded-IsValid = push_back-IsValid ping initial (refl, ping_bytes) initial-IsValid

loaded_builds : (build_next_data_frame_locked loaded).0 ≡ true
unfolding build_next_data_frame_locked
loaded_builds = refl

build-decode-encode_example :
    let frame = (build_next_data_frame_locked loaded).1 in
    ((encode_mac_frame frame).0 ≡ true)
    × (decode_mac_frame (encode_mac_frame frame).1 empty_frame ≡ (true, frame))
build-decode-encode_example = build-decode-encode loaded empty_frame loaded-IsValid loaded_builds
