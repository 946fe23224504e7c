-- ===== src/Examples/Packets.antt =====
-- Packets for the examples, and IsValidIpPacket of nerfnet/net/radio_interface.cc on them.
use n_rf24_module.Prelude.{
  ℕ, ◌<◌, ◌≡◌, ◌↔◌, refl, true, false, List, [], ◌∷◌, arith, All, replicate,
}
use n_rf24_module.Packet.{is_valid_ip_packet}
use n_rf24_module.Packet.Spec.{IsIpPacket, is_valid_ip_packet_iff}

-- An IPv4 packet of 28 bytes, one more than a fragment holds.
abbrev pub ping : List ℕ
ping = 0x45 ∷ 0 ∷ 0 ∷ 28 ∷ replicate 24 7

-- An IPv4 packet that is only a header.
abbrev pub bare : List ℕ
bare = 0x45 ∷ 0 ∷ 0 ∷ 20 ∷ replicate 16 1

-- An IPv6 packet with four bytes of payload.
abbrev pub v6 : List ℕ
v6 = 0x60 ∷ 0 ∷ 0 ∷ 0 ∷ 0 ∷ 4 ∷ replicate 38 0

-- A total length that is not the size.
abbrev cut_short : List ℕ
cut_short = 0x45 ∷ 0 ∷ 0 ∷ 28 ∷ replicate 16 7

pub ping_bytes : All (λ b. b < 256) ping
ping_bytes = omega arith

pub bare_bytes : All (λ b. b < 256) bare
bare_bytes = omega arith

packets_tested :
    (is_valid_ip_packet ping ≡ true)
    × (is_valid_ip_packet bare ≡ true)
    × (is_valid_ip_packet v6 ≡ true)
    × (is_valid_ip_packet cut_short ≡ false)
    × (is_valid_ip_packet [] ≡ false)
unfolding is_valid_ip_packet
packets_tested = (refl, refl, refl, refl, refl)

is_valid_ip_packet_iff_example : (is_valid_ip_packet ping ≡ true) ↔ IsIpPacket ping
is_valid_ip_packet_iff_example = is_valid_ip_packet_iff ping ping_bytes
