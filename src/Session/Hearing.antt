-- ===== src/Session/Hearing.antt =====
-- What a node makes of a frame that it hears (nerfnet/net/radio_interface.cc): a fragment in flight, or
-- a frame of another type.
use n_rf24_module.Prelude.{ℕ, ◌≡◌, refl, sym, ap, subst, true, false, List, [], arith, All}
use n_rf24_module.Frame.{FrameType, data_frame, MacFrame, empty_frame}
use n_rf24_module.Frame.Codec.{is_data}
use n_rf24_module.Frame.RoundTrip.{IsByte, IsTypeValue, PayloadFits, IsSendable, decode-encode}
use n_rf24_module.RadioInterface.{RadioInterface}
use n_rf24_module.RadioInterface.Transmit.{commit_ack_locked}
use n_rf24_module.RadioInterface.Assembly.{consume_data_frame_locked}
use n_rf24_module.RadioInterface.Valid.{IsValid, commit_ack-IsValid, consume_data-IsValid}
use n_rf24_module.RadioInterface.Fragment.{flight_frame, flight_frame-IsSendable, ack_IsByte}
use n_rf24_module.Session.Sync.{outgoing, incoming, Sync, outgoing-consume, incoming-commit}
use n_rf24_module.Session.Commit.{commit-Sync}
use n_rf24_module.Session.Receive.{receive-Sync}
use n_rf24_module.Session.{
  receive_frame, control_frame, Act, reads, sends_data, sends_control, heard,
}

abbrev pub ActIsValid : Act → Type 0
ActIsValid (reads packet) = All IsByte packet
ActIsValid (sends_data arrives) = Unit {0}
ActIsValid (sends_control type pending arg) =
    (is_data type ≡ false) × IsTypeValue type × IsByte pending × IsByte arg

pub heard-receive :
    (f : MacFrame) (r : RadioInterface) → IsSendable f → heard f r ≡ receive_frame f r
unfolding heard
heard-receive f r s = ap (λ d. receive_frame d.1 r) (decode-encode f empty_frame s).1

pub receive_data :
    (a b : RadioInterface) (there here : List (List ℕ))
    → IsValid a
    → IsValid b
    → a.tx_in_flight ≡ true
    → Sync (outgoing a) (incoming b) here
    → Sync (outgoing b) (incoming a) there
    → let b' = receive_frame (flight_frame a) b in
      IsValid b' × Sync (outgoing a) (incoming b') here × Sync (outgoing b') (incoming a) there
unfolding receive_frame
receive_data a b there here va vb busy forth back =
    let committed = commit_ack_locked (flight_frame a).ack b in
    let vc = commit_ack-IsValid (flight_frame a).ack b vb in
    (
      consume_data-IsValid (flight_frame a) committed (flight_frame-IsSendable a va busy).seq_byte
          vc,
      receive-Sync a committed here va busy (
          subst (λ i. Sync (outgoing a) i here) (sym (incoming-commit (flight_frame a).ack b))
            forth),
      subst (λ o. Sync o (incoming a) there) (sym (outgoing-consume (flight_frame a) committed))
          (commit-Sync b (incoming a) there vb back),
    )

-- A frame of another type only carries its ACK.
pub receive_control :
    (f : MacFrame) (b : RadioInterface)
    → is_data f.type ≡ false
    → receive_frame f b ≡ commit_ack_locked f.ack b
unfolding receive_frame consume_data_frame_locked
receive_control f b h = ground arith

no_payload : (t : FrameType) (arg : ℕ) → is_data t ≡ false → PayloadFits t arg []
no_payload data_frame arg h = cc
no_payload _ arg h = refl

pub control-IsSendable :
    (type : FrameType) (pending arg : ℕ) (r : RadioInterface)
    → ActIsValid (sends_control type pending arg)
    → IsValid r
    → IsSendable (control_frame type pending arg r)
control-IsSendable type pending arg r h v = record {
  type_value = h.1;
  seq_byte = omega arith;
  ack_byte = ack_IsByte r.last_rx_seq v.received;
  pending_byte = h.2;
  arg_byte = h.3;
  payload_bytes = tt;
  payload_fits = no_payload type arg h.0;
}
