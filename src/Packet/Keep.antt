-- ===== src/Packet/Keep.antt =====
-- The packets that IsValidIpPacket (nerfnet/net/radio_interface.cc) lets through.
use n_rf24_module.Prelude.{
  ℕ, inl, inr, ◌≡◌, refl, ap, true, List, [], ◌∷◌, ◌++◌, arith, All, if◌then◌else◌, Bool-cases,
}
use n_rf24_module.Packet.{is_valid_ip_packet}

abbrev pub IsIp : List ℕ → Type 0
IsIp p = is_valid_ip_packet p ≡ true

unfoldable pub keep_ip : List (List ℕ) → List (List ℕ)
keep_ip [] = []
keep_ip (p ∷ ps) = let rest = keep_ip ps in if is_valid_ip_packet p then p ∷ rest else rest

pub keep_ip_nil : keep_ip [] ≡ []
unfolding keep_ip
keep_ip_nil = refl

pub keep_ip-append : (ps qs : List (List ℕ)) → keep_ip (ps ++ qs) ≡ keep_ip ps ++ keep_ip qs
unfolding keep_ip
keep_ip-append [] qs = refl
keep_ip-append (p ∷ ps) qs = ground (arith, keep_ip-append ps qs)

pub keep_ip_same : (ps : List (List ℕ)) → All IsIp ps → keep_ip ps ≡ ps
unfolding keep_ip
keep_ip_same [] h = refl
keep_ip_same (p ∷ ps) h = rw (h.0) (ap (◌∷◌ p) (keep_ip_same ps h.1))

pub keep_ip-All {κ} : (P : List ℕ → Type κ) (ps : List (List ℕ)) → All P ps → All P (keep_ip ps)
unfolding keep_ip
keep_ip-All P [] h = tt
keep_ip-All P (p ∷ ps) h = elim (Bool-cases (is_valid_ip_packet p)) [
  | inl ip ↦ rw ip (h.0, keep_ip-All P ps h.1)
  | inr bad ↦ rw bad (keep_ip-All P ps h.1)
]

pub keep_ip-IsIp : (ps : List (List ℕ)) → All IsIp (keep_ip ps)
unfolding keep_ip
keep_ip-IsIp [] = tt
keep_ip-IsIp (p ∷ ps) = elim (Bool-cases (is_valid_ip_packet p)) [
  | inl ip ↦ rw ip (ip, keep_ip-IsIp ps)
  | inr bad ↦ rw bad (keep_ip-IsIp ps)
]
