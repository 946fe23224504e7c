-- ===== src/RadioInterface/Transmit.antt =====
-- The sending half: GetTransferSize, PendingHintLocked, BuildNextDataFrameLocked and
-- CommitAckLocked of nerfnet/net/radio_interface.cc. Each runs under read_buffer_mutex_, so it is
-- one step of the state.
use n_rf24_module.Prelude.{
  ℕ, Bool, true, false, not, List, [], ◌∷◌, min, ◌==◌, if◌then◌else◌, value_or, u8, length,
  is_empty, take, drop, ◌++◌,
}
use n_rf24_module.Frame.{MacFrame, data_frame, empty_frame, max_payload_size}
use n_rf24_module.RadioInterface.{RadioInterface, no_seq}
use n_rf24_module.RadioInterface.Sequence.{advance_tx_seq}

abbrev pub get_transfer_size : List ℕ → ℕ
get_transfer_size frame = min (length frame) max_payload_size

abbrev pub pending_hint_locked : RadioInterface → ℕ
pending_hint_locked r = u8 (min (length r.read_buffer) 255)

-- `std::min<size_t>(current.size(), 255)`, cast to a byte.
abbrev pub bytes_left : List ℕ → ℕ
bytes_left current = u8 (min (length current) 255)

-- The members that the second half of BuildNextDataFrameLocked sets for the front packet.
abbrev pub launch : RadioInterface → List ℕ → RadioInterface
launch r current = record r {
  tx_in_flight = true;
  tx_inflight_seq = r.next_tx_seq;
  tx_inflight_bytes_left = bytes_left current;
  tx_inflight_payload = take (get_transfer_size current) current;
}

-- The frame that carries the fragment in flight.
abbrev pub load_inflight : MacFrame → RadioInterface → MacFrame
load_inflight frame r = record frame {
  seq = r.tx_inflight_seq;
  arg = r.tx_inflight_bytes_left;
  payload = r.tx_inflight_payload;
}

-- The flag that is returned, what is left in `frame`, and the new state.
unfoldable pub build_next_data_frame_locked : RadioInterface → Bool × MacFrame × RadioInterface
build_next_data_frame_locked r =
    let frame = record empty_frame {
      type = data_frame;
      ack = value_or r.last_rx_seq no_seq;
      pending = pending_hint_locked r;
    } in
    if r.tx_in_flight then (true, load_inflight frame r, r) else elim r.read_buffer [
      | [] ↦ (false, frame, r)
      | current ∷ rest ↦ (true, load_inflight frame (launch r current), launch r current)
    ]

-- The front packet loses the bytes that were sent, and leaves the queue when it is empty.
abbrev pub consume_front : ℕ → List (List ℕ) → List (List ℕ)
consume_front n [] = []
consume_front n (frame ∷ rest) =
    let left = drop (min (length frame) n) frame in if is_empty left then rest else left ∷ rest

unfoldable pub commit_ack_locked : ℕ → RadioInterface → RadioInterface
unfolding advance_tx_seq
commit_ack_locked ack_seq r =
    if not r.tx_in_flight
    then r
    else if not (ack_seq == r.tx_inflight_seq)
    then r
    else advance_tx_seq (record r {
      read_buffer = consume_front (length r.tx_inflight_payload) r.read_buffer;
      tx_in_flight = false;
      tx_inflight_seq = 0;
      tx_inflight_bytes_left = 0;
      tx_inflight_payload = [];
    })

-- `read_buffer_.push_back`, the locked region of TunnelThread.
abbrev pub push_back : List ℕ → RadioInterface → RadioInterface
push_back packet r = record r { read_buffer = r.read_buffer ++ packet ∷ [] }
