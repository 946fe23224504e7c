-- ===== src/Session/Receive.antt =====
-- ConsumeDataFrameLocked (nerfnet/net/radio_interface.cc) keeps the two sides of a direction in
-- agreement.
use n_rf24_module.Prelude.{
  ℕ, suc, ◌-◌, ◌≤◌, ◌<◌, ◌≡◌, ◌≢◌, inl, inr, refl, sym, ap, subst, true, false, List, [], ◌∷◌, ◌++◌,
  some, arith, append-nil, take, is_empty, All, Option-cases,
}
use n_rf24_module.Frame.{MacFrame, data_frame, max_payload_size}
use n_rf24_module.Packet.Keep.{keep_ip}
use n_rf24_module.RadioInterface.{RadioInterface}
use n_rf24_module.RadioInterface.Sequence.{next_seq, next_seq-ne}
use n_rf24_module.RadioInterface.Transmit.{get_transfer_size}
use n_rf24_module.RadioInterface.Assembly.{
  write_tunnel, accept_data_frame, consume_data_frame_locked,
}
use n_rf24_module.RadioInterface.Valid.{IsValid, IsQueued, IsFragment}
use n_rf24_module.RadioInterface.Fragment.{flight_frame, flight_IsFragment}
use n_rf24_module.Session.Contents.{receive-Content}
use n_rf24_module.Session.Sync.{outgoing, incoming, Content, Expects, Sync, expecting, delivered}

-- A frame with the number that was received last changes nothing.
consume_duplicate :
    (f : MacFrame) (b : RadioInterface)
    → b.last_rx_seq ≡ some f.seq
    → f.seq ≢ 0
    → (consume_data_frame_locked f b).1 ≡ b
unfolding consume_data_frame_locked
consume_duplicate f b l h = ground arith

consume_expected :
    (f : MacFrame) (b : RadioInterface)
    → f.type ≡ data_frame
    → Expects b.last_rx_seq f.seq
    → f.seq ≢ 0
    → (consume_data_frame_locked f b).1 ≡ accept_data_frame f b
unfolding consume_data_frame_locked
consume_expected f b t e h = elim (Option-cases b.last_rx_seq) [
  | inl first ↦ ground arith
  | inr (last, known) ↦
      let follows : f.seq ≡ next_seq last = subst (λ o. Expects o f.seq) known e in
      ground (arith, next_seq-ne last)
]

module _ (f : MacFrame) (b : RadioInterface) (some_bytes : is_empty f.payload ≡ false) where
  accept_last :
      f.arg ≤ max_payload_size
      → incoming (accept_data_frame f b) ≡ record {
        last = some f.seq;
        buffer = [];
        written = b.tunnel_written ++ keep_ip ((b.frame_buffer ++ f.payload) ∷ []);
      }
  unfolding accept_data_frame write_tunnel keep_ip
  accept_last h = ground (arith, append-nil b.tunnel_written)

  accept_more :
      max_payload_size < f.arg
      → incoming (accept_data_frame f b) ≡ record {
        last = some f.seq;
        buffer = b.frame_buffer ++ f.payload;
        written = b.tunnel_written;
      }
  unfolding accept_data_frame
  accept_more h = ground arith

fragment_some : (f : List ℕ) → is_empty f ≡ false → is_empty (take (get_transfer_size f) f) ≡ false
fragment_some [] h = h
fragment_some (b ∷ f) h =
    let e : get_transfer_size (b ∷ f) ≡ suc (get_transfer_size (b ∷ f) - 1) = omega arith in
    ap (λ n. is_empty (take n (b ∷ f))) e

receive_some :
    (q : List (List ℕ)) (payload : List ℕ) (left : ℕ)
    → IsFragment q payload left
    → All IsQueued q
    → is_empty payload ≡ false
receive_some [] payload left k v = absurd k
receive_some (f ∷ q) payload left k v = rw (k.0) (fragment_some f v.0.0)

module _ (a b : RadioInterface) (accepted : List (List ℕ)) (v : IsValid a)
    (busy : a.tx_in_flight ≡ true) where
  flight_seq : (a.tx_inflight_seq ≡ a.next_tx_seq) × (a.tx_inflight_seq ≢ 0)
  flight_seq =
      let flight = flight_IsFragment a v busy in (flight.0, omega (arith, flight.0, v.sequence))

  -- The fragment in flight reaches a receiver that expects it.
  receive_expected :
      Expects b.last_rx_seq a.next_tx_seq
      → Content b.frame_buffer a.read_buffer b.tunnel_written accepted
      → Sync (outgoing a) (incoming (accept_data_frame (flight_frame a) b)) accepted
  receive_expected e c =
      let flight = flight_IsFragment a v busy in
      let some_bytes =
        receive_some a.read_buffer a.tx_inflight_payload a.tx_inflight_bytes_left flight.1
          v.queue in
      let cases =
        receive-Content a.read_buffer a.tx_inflight_payload a.tx_inflight_bytes_left b.frame_buffer
          b.tunnel_written accepted flight.1 c in
      elim cases [
        | inl (last, rest) ↦
            rw (accept_last (flight_frame a) b some_bytes last) (delivered busy refl rest)
        | inr (more, rest) ↦
            rw (accept_more (flight_frame a) b some_bytes more) (delivered busy refl rest)
      ]

  -- A DATA frame that is heard keeps the agreement, the first time and every further time.
  pub receive-Sync :
      Sync (outgoing a) (incoming b) accepted
      → Sync (outgoing a) (incoming (consume_data_frame_locked (flight_frame a) b).1) accepted
  receive-Sync (expecting e c) =
      let expects : Expects b.last_rx_seq a.tx_inflight_seq =
        subst (Expects b.last_rx_seq) (sym flight_seq.0) e in
      rw (consume_expected (flight_frame a) b refl expects flight_seq.1) (receive_expected e c)
  receive-Sync (delivered f l c) =
      rw (consume_duplicate (flight_frame a) b l flight_seq.1) (delivered f l c)

accept_last_seq :
    (f : MacFrame) (b : RadioInterface) → (accept_data_frame f b).last_rx_seq ≡ some f.seq
unfolding accept_data_frame write_tunnel
accept_last_seq f b = ground arith

-- Once the fragment in flight has been heard, the receiver's ACK is its number.
pub receive-last_rx_seq :
    (a b : RadioInterface) (accepted : List (List ℕ))
    → IsValid a
    → a.tx_in_flight ≡ true
    → Sync (outgoing a) (incoming b) accepted
    → (consume_data_frame_locked (flight_frame a) b).1.last_rx_seq ≡ some a.tx_inflight_seq
receive-last_rx_seq a b accepted v busy (expecting e c) =
    let seq = flight_seq a b accepted v busy in
    let expects : Expects b.last_rx_seq a.tx_inflight_seq =
      subst (Expects b.last_rx_seq) (sym seq.0) e in
    rw (consume_expected (flight_frame a) b refl expects seq.1) (accept_last_seq (flight_frame a) b)
receive-last_rx_seq a b accepted v busy (delivered f l c) =
    rw (consume_duplicate (flight_frame a) b l (flight_seq a b accepted v busy).1) l
