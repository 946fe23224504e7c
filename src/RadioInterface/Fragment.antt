-- ===== src/RadioInterface/Fragment.antt =====
-- The DATA frames that BuildNextDataFrameLocked (nerfnet/net/radio_interface.cc) makes.
use n_rf24_module.Prelude.{
  ℕ, ◌≡◌, ◌⊎◌, inl, inr, Bool, true, false, List, [], ◌∷◌, Option, none, some, arith, length, All,
  min, All-take, length-take, value_or,
}
use n_rf24_module.Frame.{MacFrame, data_frame, max_payload_size}
use n_rf24_module.Frame.Codec.{encode_mac_frame, decode_mac_frame}
use n_rf24_module.Frame.RoundTrip.{IsByte, IsSendable, decode-encode}
use n_rf24_module.RadioInterface.{RadioInterface, no_seq}
use n_rf24_module.RadioInterface.Transmit.{
  get_transfer_size, pending_hint_locked, build_next_data_frame_locked,
}
use n_rf24_module.RadioInterface.Valid.{
  IsValid, IsQueued, IsFragment, IsReceived, FlightIsValid, build-IsValid,
}

-- The frame for the fragment in flight.
abbrev pub flight_frame : RadioInterface → MacFrame
flight_frame r = record {
  type = data_frame;
  seq = r.tx_inflight_seq;
  ack = value_or r.last_rx_seq no_seq;
  pending = pending_hint_locked r;
  arg = r.tx_inflight_bytes_left;
  payload = r.tx_inflight_payload;
}

-- Where there is something to send, the frame carries the fragment that is in flight afterwards.
-- Only an empty queue with nothing in flight has no frame, and then nothing changes.
pub build_cases :
    (r : RadioInterface)
    → let out = build_next_data_frame_locked r in
      ((out.0 ≡ true) × (out.1 ≡ flight_frame out.2) × (out.2.tx_in_flight ≡ true))
      ⊎ ((out.0 ≡ false) × (out.2 ≡ r) × (r.tx_in_flight ≡ false) × (r.read_buffer ≡ []))
unfolding build_next_data_frame_locked
build_cases r = ground arith

fragment_fits :
    (q : List (List ℕ)) (payload : List ℕ) (left : ℕ)
    → All IsQueued q
    → IsFragment q payload left
    → All IsByte payload × (length payload ≡ min left max_payload_size) × IsByte left
fragment_fits [] payload left h k = absurd k
fragment_fits (f ∷ q) payload left h k = rw (k.0) (
  All-take IsByte (get_transfer_size f) f h.0.1,
  omega (arith, k.1, length-take (get_transfer_size f) f),
  omega (arith, k.1),
)

pub ack_IsByte : (o : Option ℕ) → IsReceived o → IsByte (value_or o no_seq)
ack_IsByte none h = omega arith
ack_IsByte (some s) h = h.1

-- in flight, so `FlightIsValid` is its first clause
in_flight : (b : Bool) (r : RadioInterface) → b ≡ true → FlightIsValid b r → FlightIsValid true r
in_flight true r e h = h
in_flight false r e h = cc

pub flight_IsFragment :
    (r : RadioInterface) → IsValid r → r.tx_in_flight ≡ true → FlightIsValid true r
flight_IsFragment r v e = in_flight r.tx_in_flight r e v.flight

pub flight_frame-IsSendable :
    (r : RadioInterface) → IsValid r → r.tx_in_flight ≡ true → IsSendable (flight_frame r)
flight_frame-IsSendable r v e =
    let flight = flight_IsFragment r v e in
    let fits =
      fragment_fits r.read_buffer r.tx_inflight_payload r.tx_inflight_bytes_left v.queue flight.1 in
    record {
      type_value = tt;
      seq_byte = omega (arith, v.sequence, flight.0);
      ack_byte = ack_IsByte r.last_rx_seq v.received;
      pending_byte = omega arith;
      arg_byte = fits.2;
      payload_bytes = fits.0;
      payload_fits = fits.1;
    }

-- Every DATA frame that a node builds can be encoded, and arrives as it was built.
pub build-decode-encode :
    (r : RadioInterface) (before : MacFrame)
    → IsValid r
    → (build_next_data_frame_locked r).0 ≡ true
    → let frame = (build_next_data_frame_locked r).1 in
      ((encode_mac_frame frame).0 ≡ true)
      × (decode_mac_frame (encode_mac_frame frame).1 before ≡ (true, frame))
build-decode-encode r before v e = elim (build_cases r) [
  | inl (_, same, flight) ↦
      rw same (decode-encode _ before (flight_frame-IsSendable _ (build-IsValid r v) flight))
  | inr (never, _, _, _) ↦ cc
]
