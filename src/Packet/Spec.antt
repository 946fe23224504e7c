-- ===== src/Packet/Spec.antt =====
-- What IsValidIpPacket of nerfnet/net/radio_interface.cc accepts, told by the header formats.
use n_rf24_module.Prelude.{
  ℕ, ◌+◌, ◌*◌, ◌≤◌, ◌<◌, ◌≡◌, ◌/◌, ◌^◌, ◌-◌, ◌↔◌, inl, inr, ap, sym, subst, Bool-cases, ==_iff,
  ◌==◌, u8, true, List, [], ◌∷◌, arith, length, All,
}
use n_rf24_module.Packet.{is_valid_ip_packet}

-- A packet whose header gives its own length: IPv4 with a header of 5 to 15 words that the packet
-- holds and a total length, or IPv6 with the length of what follows its 40 bytes.
pub data IsIpPacket (p : List ℕ) : Type 0 where
  ipv4 :
      (words tos hi lo : ℕ) (rest : List ℕ)
      → p ≡ (64 + words) ∷ tos ∷ hi ∷ lo ∷ rest
      → 5 ≤ words
      → words < 16
      → 4 * words ≤ length p
      → length p ≡ 256 * hi + lo
      → IsIpPacket p
  ipv6 :
      (class label flow1 flow2 hi lo : ℕ) (rest : List ℕ)
      → p ≡ (96 + class) ∷ label ∷ flow1 ∷ flow2 ∷ hi ∷ lo ∷ rest
      → class < 16
      → length p ≡ 40 + (256 * hi + lo)
      → IsIpPacket p

IsIpPacket-is_valid :
    (p : List ℕ) → All (λ b. b < 256) p → IsIpPacket p → is_valid_ip_packet p ≡ true
unfolding is_valid_ip_packet
IsIpPacket-is_valid p b (ipv4 words tos hi lo rest e h1 h2 h3 h4) =
    subst
      (λ q.
        All (λ b. b < 256) q
        → 4 * words ≤ length q
        → length q ≡ 256 * hi + lo
        → is_valid_ip_packet q ≡ true)
      (sym e) (λ b' h3' h4'. ground arith) b h3 h4
IsIpPacket-is_valid p b (ipv6 c l f g hi lo rest e h1 h2) =
    subst
      (λ q. All (λ b. b < 256) q → length q ≡ 40 + (256 * hi + lo) → is_valid_ip_packet q ≡ true)
      (sym e) (λ b' h2'. ground arith) b h2

is_valid-IsIpPacket :
    (p : List ℕ) → All (λ b. b < 256) p → is_valid_ip_packet p ≡ true → IsIpPacket p
unfolding is_valid_ip_packet
is_valid-IsIpPacket [] b h = ground arith
is_valid-IsIpPacket (b0 ∷ []) b h = ground arith
is_valid-IsIpPacket (b0 ∷ b1 ∷ []) b h = ground arith
is_valid-IsIpPacket (b0 ∷ b1 ∷ b2 ∷ []) b h = ground arith
is_valid-IsIpPacket (b0 ∷ b1 ∷ b2 ∷ b3 ∷ []) b h = ground arith
is_valid-IsIpPacket (b0 ∷ b1 ∷ b2 ∷ b3 ∷ b4 ∷ []) b h = ground arith
is_valid-IsIpPacket (b0 ∷ b1 ∷ b2 ∷ b3 ∷ b4 ∷ b5 ∷ rest) b h =
    elim (Bool-cases (u8 (b0 / 2 ^ 4) == 4)) [
      | inl v4 ↦
          let e : b0 ≡ 64 + (b0 - 64) = omega (arith, (==_iff (u8 (b0 / 2 ^ 4)) 4).0 v4) in
          ipv4 (b0 - 64) b1 b2 b3 (b4 ∷ b5 ∷ rest) (ap (λ t. t ∷ b1 ∷ b2 ∷ b3 ∷ b4 ∷ b5 ∷ rest) e)
            (ground arith) (ground arith) (ground arith) (ground arith)
      | inr other ↦
          let e : b0 ≡ 96 + (b0 - 96) = ground arith in
          ipv6 (b0 - 96) b1 b2 b3 b4 b5 rest (ap (λ t. t ∷ b1 ∷ b2 ∷ b3 ∷ b4 ∷ b5 ∷ rest) e)
            (ground arith) (ground arith)
    ]

-- The check accepts exactly the packets of bytes whose header gives their own length.
pub is_valid_ip_packet_iff :
    (p : List ℕ) → All (λ b. b < 256) p → (is_valid_ip_packet p ≡ true) ↔ IsIpPacket p
is_valid_ip_packet_iff p b = (is_valid-IsIpPacket p b, IsIpPacket-is_valid p b)
