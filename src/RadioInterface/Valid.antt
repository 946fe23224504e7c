-- ===== src/RadioInterface/Valid.antt =====
-- The invariant of `class RadioInterface` (nerfnet/net/radio_interface.h), kept by the methods that
-- nerfnet/net/radio_interface.cc runs under read_buffer_mutex_.
use n_rf24_module.Prelude.{
  ℕ, ◌≡◌, ◌≢◌, refl, Bool, true, false, List, [], ◌∷◌, ◌++◌, Option, none, some, arith, length,
  take, All, min, is_empty, All-append, All-drop,
}
use n_rf24_module.Frame.{MacFrame}
use n_rf24_module.Frame.RoundTrip.{IsByte}
use n_rf24_module.RadioInterface.{RadioInterface, reset_link, initial}
use n_rf24_module.RadioInterface.Sequence.{IsSeq}
use n_rf24_module.RadioInterface.Transmit.{
  get_transfer_size, build_next_data_frame_locked, commit_ack_locked, consume_front, push_back,
  bytes_left,
}
use n_rf24_module.RadioInterface.Assembly.{
  consume_data_frame_locked, accept_data_frame, write_tunnel,
}

-- A packet that may stand in the queue: some bytes, at least one.
abbrev pub IsQueued : List ℕ → Type 0
IsQueued packet = (is_empty packet ≡ false) × All IsByte packet

-- The fragment in flight is the front of the front packet.
abbrev pub IsFragment : List (List ℕ) → List ℕ → ℕ → Type 0
IsFragment [] payload left = ⊥
IsFragment (current ∷ rest) payload left =
    (payload ≡ take (get_transfer_size current) current) × (left ≡ bytes_left current)

abbrev pub FlightIsValid : Bool → RadioInterface → Type 0
FlightIsValid true r =
    (r.tx_inflight_seq ≡ r.next_tx_seq)
    × IsFragment r.read_buffer r.tx_inflight_payload r.tx_inflight_bytes_left
FlightIsValid false r =
    (r.tx_inflight_seq ≡ 0) × (r.tx_inflight_bytes_left ≡ 0) × (r.tx_inflight_payload ≡ [])

abbrev pub IsReceived : Option ℕ → Type 0
IsReceived none = Unit {0}
IsReceived (some seq) = (seq ≢ 0) × IsByte seq

pub record IsValid (r : RadioInterface) : Type 0 where
  pub sequence : IsSeq r.next_tx_seq
  pub queue : All IsQueued r.read_buffer
  pub flight : FlightIsValid r.tx_in_flight r
  pub received : IsReceived r.last_rx_seq

pub initial-IsValid : IsValid initial
initial-IsValid = record {
  sequence = omega arith;
  queue = tt;
  flight = (refl, refl, refl);
  received = tt;
}

pub reset_link-IsValid : (r : RadioInterface) → IsValid r → IsValid (reset_link r)
reset_link-IsValid r v = record {
  sequence = omega arith;
  queue = v.queue;
  flight = (refl, refl, refl);
  received = tt;
}

IsFragment-push :
    (q : List (List ℕ)) (packet payload : List ℕ) (left : ℕ)
    → IsFragment q payload left
    → IsFragment (q ++ packet ∷ []) payload left
IsFragment-push [] packet payload left h = absurd h
IsFragment-push (current ∷ q) packet payload left h = h

FlightIsValid-push :
    (b : Bool) (packet : List ℕ) (r : RadioInterface)
    → FlightIsValid b r
    → FlightIsValid b (push_back packet r)
FlightIsValid-push true packet r h =
    (h.0, IsFragment-push r.read_buffer packet r.tx_inflight_payload r.tx_inflight_bytes_left h.1)
FlightIsValid-push false packet r h = h

pub push_back-IsValid :
    (packet : List ℕ) (r : RadioInterface)
    → IsQueued packet
    → IsValid r
    → IsValid (push_back packet r)
push_back-IsValid packet r p v = record {
  sequence = v.sequence;
  queue = All-append IsQueued r.read_buffer (packet ∷ []) v.queue (p, tt);
  flight = FlightIsValid-push r.tx_in_flight packet r v.flight;
  received = v.received;
}

pub build-IsValid : (r : RadioInterface) → IsValid r → IsValid (build_next_data_frame_locked r).2
unfolding build_next_data_frame_locked
build-IsValid r v = ground arith

consume_front-All : (n : ℕ) (q : List (List ℕ)) → All IsQueued q → All IsQueued (consume_front n q)
consume_front-All n [] h = tt
consume_front-All n (f ∷ q) h = ground (arith, All-drop IsByte (min (length f) n) f h.0.1)

pub commit_ack-IsValid : (a : ℕ) (r : RadioInterface) → IsValid r → IsValid (commit_ack_locked a r)
unfolding commit_ack_locked
commit_ack-IsValid a r v =
    ground (arith, consume_front-All (length r.tx_inflight_payload) r.read_buffer v.queue)

accept-IsValid :
    (f : MacFrame) (r : RadioInterface)
    → f.seq ≢ 0
    → IsByte f.seq
    → IsValid r
    → IsValid (accept_data_frame f r)
unfolding accept_data_frame write_tunnel
accept-IsValid f r h b v = ground arith

pub consume_data-IsValid :
    (f : MacFrame) (r : RadioInterface)
    → IsByte f.seq
    → IsValid r
    → IsValid (consume_data_frame_locked f r).1
unfolding consume_data_frame_locked
consume_data-IsValid f r b v = ground (arith, accept-IsValid f r)
