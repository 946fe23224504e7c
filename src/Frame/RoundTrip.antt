-- ===== src/Frame/RoundTrip.antt =====
-- What EncodeMacFrame and DecodeMacFrame of nerfnet/net/radio_interface.cc do to a frame.
use n_rf24_module.Prelude.{
  ℕ, ◌-◌, ◌≤◌, ◌<◌, ◌≡◌, ◌↔◌, ◌⊎◌, ◌≢◌, inl, inr, refl, ap, true, false, List, [], ◌∷◌, ◌++◌, arith,
  ◌==◌, leb, zero, suc, length, get_or, drop, replicate, All, min, length-append, length-replicate,
  length-take, length-drop, All-append, All-replicate, All-take, All-drop, take-append, Bool-cases,
}
use n_rf24_module.Frame.{
  FrameType, invalid, pending, grant, data_frame, ack, reset, other, MacFrame, max_packet_size,
  header_size, max_payload_size,
}
use n_rf24_module.Frame.Codec.{
  to_byte, from_byte, read_payload, read_frame, encode_mac_frame, decode_mac_frame,
}
use n_rf24_module.Frame.Layout.{wire, encode_layout, encode_too_large}

abbrev pub IsByte : ℕ → Type 0
IsByte b = b < 256

-- A value that a cast from a byte can give.
abbrev pub IsTypeValue : FrameType → Type 0
IsTypeValue (other n) = (6 ≤ n) × (n < 256)
IsTypeValue _ = Unit {0}

-- The payload that the decoder reads for a type and an `arg`.
abbrev pub PayloadFits : FrameType → ℕ → List ℕ → Type 0
PayloadFits data_frame arg payload = length payload ≡ min arg max_payload_size
PayloadFits _ arg payload = payload ≡ []

-- The frames that one packet can carry.
pub record IsSendable (f : MacFrame) : Type 0 where
  pub type_value : IsTypeValue f.type
  pub seq_byte : IsByte f.seq
  pub ack_byte : IsByte f.ack
  pub pending_byte : IsByte f.pending
  pub arg_byte : IsByte f.arg
  pub payload_bytes : All IsByte f.payload
  pub payload_fits : PayloadFits f.type f.arg f.payload

from_byte-to_byte : (t : FrameType) → IsTypeValue t → from_byte (to_byte t) ≡ t
unfolding from_byte to_byte
from_byte-to_byte invalid h = refl
from_byte-to_byte pending h = refl
from_byte-to_byte grant h = refl
from_byte-to_byte data_frame h = refl
from_byte-to_byte ack h = refl
from_byte-to_byte reset h = refl
from_byte-to_byte (other n) h = ground arith

to_byte-from_byte : (b : ℕ) → to_byte (from_byte b) ≡ b
unfolding from_byte to_byte
to_byte-from_byte b = ground arith

from_byte-IsTypeValue : (b : ℕ) → IsByte b → IsTypeValue (from_byte b)
unfolding from_byte
from_byte-IsTypeValue b h = ground arith

to_byte-IsByte : (t : FrameType) → IsTypeValue t → IsByte (to_byte t)
unfolding to_byte
to_byte-IsByte (other n) h = h.1
to_byte-IsByte _ h = omega arith

payload_le :
    (t : FrameType) (arg : ℕ) (p : List ℕ) → PayloadFits t arg p → length p ≤ max_payload_size
payload_le data_frame arg p h = omega arith
payload_le _ arg p h = ground arith

read_payload_lem :
    (t : FrameType) (arg : ℕ) (p rest : List ℕ)
    → PayloadFits t arg p
    → read_payload t arg (p ++ rest) ≡ p
read_payload_lem data_frame arg [] rest h =
    ground (arith, take-append [] rest (min arg max_payload_size))
read_payload_lem data_frame arg (b ∷ p) rest h =
    ground (arith, take-append (b ∷ p) rest (min arg max_payload_size))
read_payload_lem _ arg p rest h = ground arith

wire_size :
    (f : MacFrame)
    → length f.payload ≤ max_payload_size
    → (length (wire f) == max_packet_size) ≡ true
wire_size f h = ground (
  arith,
  length-append f.payload (replicate (max_payload_size - length f.payload) 0),
  length-replicate {A = ℕ} (max_payload_size - length f.payload) 0,
)

-- Every frame that fits one packet comes back unchanged: encoding succeeds, and decoding the
-- packet succeeds with the same type, numbers and payload, whatever the frame variable held before.
pub decode-encode :
    (f before : MacFrame)
    → IsSendable f
    → ((encode_mac_frame f).0 ≡ true) × (decode_mac_frame (encode_mac_frame f).1 before ≡ (true, f))
unfolding decode_mac_frame
decode-encode f before s =
    let fits : length f.payload ≤ max_payload_size =
      payload_le f.type f.arg f.payload s.payload_fits in
    rw (encode_layout f fits, wire_size f fits, from_byte-to_byte f.type s.type_value)
      (
        refl,
        ap (λ p. (true, record f { payload = p }))
            (read_payload_lem f.type f.arg f.payload _ s.payload_fits),
      )

get_or-IsByte : (p : List ℕ) (i : ℕ) → All IsByte p → IsByte (get_or p i 0)
get_or-IsByte [] i h = omega arith
get_or-IsByte (b ∷ p) zero h = h.0
get_or-IsByte (b ∷ p) (suc i) h = get_or-IsByte p i h.1

read_payload-Fits :
    (t : FrameType) (arg : ℕ) (rest : List ℕ)
    → length rest ≡ max_payload_size
    → All IsByte rest
    → PayloadFits t arg (read_payload t arg rest) × All IsByte (read_payload t arg rest)
read_payload-Fits data_frame arg rest h b = ground (
  arith,
  length-take (min arg max_payload_size) rest,
  All-take IsByte (min arg max_payload_size) rest b,
)
read_payload-Fits _ arg rest h b = (ground arith, ground arith)

read_frame-IsSendable :
    (p : List ℕ) → length p ≡ max_packet_size → All IsByte p → IsSendable (read_frame p)
read_frame-IsSendable p e h =
    let r =
      read_payload-Fits (from_byte (get_or p 0 0)) (get_or p 4 0) (drop header_size p)
        (omega (arith, length-drop header_size p)) (All-drop IsByte header_size p h) in
    record {
      type_value = from_byte-IsTypeValue (get_or p 0 0) (get_or-IsByte p 0 h);
      seq_byte = get_or-IsByte p 1 h;
      ack_byte = get_or-IsByte p 2 h;
      pending_byte = get_or-IsByte p 3 h;
      arg_byte = get_or-IsByte p 4 h;
      payload_bytes = r.1;
      payload_fits = r.0;
    }

-- A packet of 32 bytes always decodes, to a frame that fits one packet; a packet of any other
-- length is refused and leaves the frame as it was.
pub decode-IsSendable :
    (p : List ℕ) (before : MacFrame)
    → All IsByte p
    → ((length p ≡ max_packet_size)
        × ((decode_mac_frame p before).0 ≡ true)
        × IsSendable (decode_mac_frame p before).1)
      ⊎ ((length p ≢ max_packet_size) × (decode_mac_frame p before ≡ (false, before)))
unfolding decode_mac_frame
decode-IsSendable p before h = elim (Bool-cases (length p == max_packet_size)) [
  | inl e ↦ inl (ground arith, rw e, rw e (read_frame-IsSendable p (ground arith) h))
  | inr e ↦ inr (ground arith, rw e)
]

wire-IsByte :
    (f : MacFrame)
    → IsTypeValue f.type
    → All IsByte (f.seq ∷ f.ack ∷ f.pending ∷ f.arg ∷ f.payload)
    → All IsByte (wire f)
wire-IsByte f t h = (
  to_byte-IsByte f.type t,
  (
    h.0,
    (
      h.1.0,
      (
        h.1.1.0,
        (
          h.1.1.1.0,
          All-append IsByte f.payload _ h.1.1.1.1
              (All-replicate IsByte (max_payload_size - length f.payload) 0 (omega arith)),
        ),
      ),
    ),
  ),
)

-- The encoder refuses exactly the payloads of more than 27 bytes; what it leaves is 32 bytes long
-- in both cases, and each of its entries is a byte where the frame's fields are.
pub encode_bounds :
    (f : MacFrame)
    → IsTypeValue f.type
    → All IsByte (f.seq ∷ f.ack ∷ f.pending ∷ f.arg ∷ f.payload)
    → (((encode_mac_frame f).0 ≡ true) ↔ (length f.payload ≤ max_payload_size))
      × (length (encode_mac_frame f).1 ≡ max_packet_size)
      × All IsByte (encode_mac_frame f).1
encode_bounds f t h = elim (Bool-cases (leb (length f.payload) max_payload_size)) [
  | inl e ↦
      let fits : length f.payload ≤ max_payload_size = ground arith in
      rw (encode_layout f fits)
        ((λ _. fits, λ _. refl), ground (arith, wire_size f fits), wire-IsByte f t h)
  | inr e ↦
      let large : max_payload_size < length f.payload = ground arith in
      rw (encode_too_large f large) (
        (λ q. cc, λ q. absurd (omega arith)),
        refl,
        All-replicate IsByte max_packet_size 0 (omega arith),
      )
]
