-- ===== src/Packet.antt =====
-- IsValidIpPacket of nerfnet/net/radio_interface.cc.
pub mod Spec
pub mod Keep
use n_rf24_module.Prelude.{
  ℕ, ◌+◌, ◌*◌, ◌/◌, ◌%◌, ◌^◌, Bool, true, false, ◌||◌, List, ltb, ◌==◌, if◌then◌else◌, u8, u16,
  length, is_empty, get_or,
}

-- `(uint16_t(hi) << 8) | uint16_t(lo)` for bytes: the two have no bit in common.
abbrev pub be16 : ℕ → ℕ → ℕ
be16 hi lo = u16 (hi * 2 ^ 8 + lo)

-- The IPv4 branch.
abbrev pub is_valid_ipv4 : List ℕ → Bool
is_valid_ipv4 packet =
    if ltb (length packet) 20
    then false
    else (let ihl = get_or packet 0 0 % 2 ^ 4 * 4 in
        if ltb ihl 20 || ltb (length packet) ihl
        then false
        else (let total_len = be16 (get_or packet 2 0) (get_or packet 3 0) in
            if ltb total_len ihl then false else length packet == total_len))

-- The IPv6 branch.
abbrev pub is_valid_ipv6 : List ℕ → Bool
is_valid_ipv6 packet =
    if ltb (length packet) 40
    then false
    else length packet == 40 + be16 (get_or packet 4 0) (get_or packet 5 0)

unfoldable pub is_valid_ip_packet : List ℕ → Bool
is_valid_ip_packet packet =
    if is_empty packet
    then false
    else (let version = u8 (get_or packet 0 0 / 2 ^ 4) in
        if version == 4
        then is_valid_ipv4 packet
        else if version == 6
        then is_valid_ipv6 packet
        else false)
