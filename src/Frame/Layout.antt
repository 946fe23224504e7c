-- ===== src/Frame/Layout.antt =====
-- The bytes that EncodeMacFrame of nerfnet/net/radio_interface.cc leaves in the packet.
use n_rf24_module.Prelude.{
  ℕ, zero, suc, ◌+◌, ◌-◌, ◌≤◌, ◌<◌, ◌≡◌, refl, ap, ◌∙◌, true, false, List, [], ◌∷◌, ◌++◌, arith,
  append_assoc, length, set, drop, replicate, length-append, length-replicate, le→not-ltb,
}
use n_rf24_module.Frame.{MacFrame, max_packet_size, max_payload_size}
use n_rf24_module.Frame.Codec.{to_byte, copy_payload, encode_mac_frame}

set-append {ℓ} :
    {A : Type ℓ} (pre : List A) (z b : A) (zs : List A) (i : ℕ)
    → i ≡ length pre
    → set (pre ++ z ∷ zs) i b ≡ (pre ++ b ∷ []) ++ zs
set-append [] z b zs zero e = refl
set-append [] z b zs (suc i) e = absurd (omega arith)
set-append (x ∷ pre) z b zs zero e = absurd (omega arith)
set-append (x ∷ pre) z b zs (suc i) e = ap (◌∷◌ x) (set-append pre z b zs i (omega arith))

copy_payload_lem :
    (pre zs bs : List ℕ) (i : ℕ)
    → length pre ≡ 5 + i
    → length bs ≤ length zs
    → copy_payload (pre ++ zs) i bs ≡ pre ++ (bs ++ drop (length bs) zs)
unfolding copy_payload
copy_payload_lem pre zs [] i e h = refl
copy_payload_lem pre [] (b ∷ bs) i e h = absurd (omega arith)
copy_payload_lem pre (z ∷ zs) (b ∷ bs) i e h = rw (set-append pre z b zs (5 + i) (omega arith)) (
    copy_payload_lem (pre ++ b ∷ []) zs bs (i + 1) (omega (arith, length-append pre (b ∷ [])))
      (omega arith)
    ∙ append_assoc pre (b ∷ []) _)

pub drop-replicate {ℓ} :
    {A : Type ℓ} (n m : ℕ) (a : A) → drop n (replicate m a) ≡ replicate (m - n) a
drop-replicate zero m a = let e : m ≡ m - 0 = omega arith in ap (λ k. replicate k a) e
drop-replicate (suc n) zero a = let e : 0 ≡ 0 - suc n = omega arith in ap (λ k. replicate k a) e
drop-replicate (suc n) (suc m) a =
    let e : m - n ≡ suc m - suc n = omega arith in drop-replicate n m a ∙ ap (λ k. replicate k a) e

-- The packet as a list: header, payload, padding.
abbrev pub wire : MacFrame → List ℕ
wire f =
    to_byte f.type
    ∷ f.seq
    ∷ f.ack
    ∷ f.pending
    ∷ f.arg
    ∷ (f.payload ++ replicate (max_payload_size - length f.payload) 0)

-- A payload of at most 27 bytes is encoded: the five header bytes, the payload, and zeros up to
-- byte 32.
pub encode_layout :
    (f : MacFrame) → length f.payload ≤ max_payload_size → encode_mac_frame f ≡ (true, wire f)
unfolding encode_mac_frame
encode_layout f h = rw (le→not-ltb max_payload_size (length f.payload) h) (
    ap (λ p. (true, p))
      (copy_payload_lem header (replicate max_payload_size 0) f.payload 0 refl
          (omega (arith, length-replicate {A = ℕ} max_payload_size 0))
        ∙ ap (λ rest. header ++ (f.payload ++ rest)) (drop-replicate (length f.payload) _ 0)))
  where
    header : List ℕ
    header = to_byte f.type ∷ f.seq ∷ f.ack ∷ f.pending ∷ f.arg ∷ []

pub encode_too_large :
    (f : MacFrame)
    → max_payload_size < length f.payload
    → encode_mac_frame f ≡ (false, replicate max_packet_size 0)
unfolding encode_mac_frame
encode_too_large f h = ground arith
