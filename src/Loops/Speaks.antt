-- ===== src/Loops/Speaks.antt =====
-- What the peer sends (the handling of a packet in Run of nerfnet/net/secondary_radio_interface.cc)
-- while nothing is lost on the air.
use n_rf24_module.Prelude.{
  ℕ, ◌≡◌, ◌∙◌, refl, ap, subst, true, false, not, List, [], Option, none, some, arith, suc, zero,
  length, All, ltb→lt, ltb, leb, u64, ◌+◌, Bool, if-preserves,
}
use n_rf24_module.Frame.{FrameType, MacFrame, empty_frame, max_packet_size}
use n_rf24_module.Frame.Codec.{encode_mac_frame, decode_mac_frame}
use n_rf24_module.Frame.RoundTrip.{IsByte, IsSendable, decode-encode, encode_bounds}
use n_rf24_module.Driver.{Device, RequestResult, tx_standby_timeout_us}
use n_rf24_module.Driver.Send.{recover_after_transmit_failure, stand_by_loop, send}
use n_rf24_module.Coordinator.Exchange.{is_reset, reset_frame}
use n_rf24_module.Coordinator.Loop.{stat_time}
use n_rf24_module.Coordinator.Returns.{encode-size}
use n_rf24_module.Coordinator.Resets.{reset_frame-IsSendable}
use n_rf24_module.Peer.{Peer}
use n_rf24_module.Peer.Request.{apply_coordinator_request, choose_peer_response, record_rx}
use n_rf24_module.Peer.Loop.{
  count_sent, after_reset_answer, handle_reset, respond, serve, handle_packet, peer_cleared,
}
use n_rf24_module.System.{over_air}
use n_rf24_module.Loops.Heard.{
  After, Antenna, served, served_refused, served_nothing, served_request, served-Like,
}

-- The peer's radio sends a packet of 32 bytes that is written.
pub record Loud {V : Type 0} (dev : Device V) (antenna : Antenna dev) : Type 0 where
  pub write_puts :
      (packet : List ℕ) (v : V)
      → length packet ≡ max_packet_size
      → All IsByte packet
      → antenna.sent (dev.write packet v).1 ≡ some packet

-- A frame that can be encoded becomes bytes.
pub sendable-bytes : (f : MacFrame) → IsSendable f → All IsByte (encode_mac_frame f).1
sendable-bytes f s =
    let (_, _, bytes) =
      encode_bounds f s.type_value
        (s.seq_byte, (s.ack_byte, (s.pending_byte, (s.arg_byte, s.payload_bytes)))) in
    bytes

-- The peer takes the frame and answers with a frame that can be encoded.
abbrev pub Answers : MacFrame → Peer → MacFrame → Type 0
Answers frame p f =
    ((decode_mac_frame (encode_mac_frame frame).1 empty_frame).0 ≡ true)
    × ((served (over_air frame) p).0 ≡ some f)
    × IsSendable f

module _ {V : Type 0} (dev : Device V) (antenna : Antenna dev) (loud : Loud dev antenna) where
  -- Something was sent.
  abbrev pub Speaks : V → Type 0
  Speaks v = (packet : List ℕ) × (antenna.sent v ≡ some packet)

  Speaks-stays : (v v1 : V) → antenna.sent v1 ≡ antenna.sent v → Speaks v → Speaks v1
  Speaks-stays v v1 e (packet, h) = (packet, e ∙ h)

  abbrev SpeaksAfter : RequestResult × V → Type 0
  SpeaksAfter out = Speaks out.1

  recover-Speaks : (v : V) → Speaks v → Speaks (recover_after_transmit_failure dev v)
  unfolding recover_after_transmit_failure
  recover-Speaks v h =
      let v1 = dev.flush_tx v in
      Speaks-stays v1 (dev.sleep_us 200 v1) (antenna.sleep_us_sends 200 v1)
        (Speaks-stays v v1 (antenna.flush_tx_sends v) h)

  stand_by-Speaks :
      (fuel deadline : ℕ) (v : V) → Speaks v → After SpeaksAfter (stand_by_loop dev fuel deadline v)
  unfolding stand_by_loop
  stand_by-Speaks zero deadline v h = tt
  stand_by-Speaks (suc fuel) deadline v h =
      let v1 = (dev.tx_stand_by v).1 in
      let (now, v2) = dev.time_now_us v1 in
      let v3 = dev.sleep_us 50 v2 in
      let h1 = Speaks-stays v v1 (antenna.tx_stand_by_sends v) h in
      let h2 = Speaks-stays v1 v2 (antenna.time_now_us_sends v1) h1 in
      let again =
        stand_by-Speaks fuel deadline v3 (Speaks-stays v2 v3 (antenna.sleep_us_sends 50 v2) h2) in
      let P : Option (RequestResult × V) → Type 0 = λ o. After SpeaksAfter o in
      if-preserves P (dev.tx_stand_by v).0 (λ ready. h1)
        (λ not_ready.
          if-preserves P (leb deadline now) (λ late. recover-Speaks v2 h2) (λ early. again))

  send-Speaks :
      (fuel : ℕ) (packet : List ℕ) (v : V)
      → length packet ≡ max_packet_size
      → All IsByte packet
      → After SpeaksAfter (send dev fuel packet v)
  unfolding send
  send-Speaks fuel packet v fits bytes =
      let v0 = dev.stop_listening v in
      let (written, v1) = dev.write packet v0 in
      let (now, v2) = dev.time_now_us v1 in
      let out : Speaks v1 = (packet, loud.write_puts packet v0 fits bytes) in
      let P : Option (RequestResult × V) → Type 0 = λ o. After SpeaksAfter o in
      if-preserves P (ltb max_packet_size (length packet))
        (λ large.
          let more = ltb→lt max_packet_size (length packet) large in
          absurd (omega (arith, more, fits)))
        (λ small.
          if-preserves P (not written) (λ unwritten. recover-Speaks v1 out)
            (λ done.
              stand_by-Speaks fuel (u64 (now + tx_standby_timeout_us)) v2
                (Speaks-stays v1 v2 (antenna.time_now_us_sends v1) out)))

  abbrev pub AnsweredAfter : Peer × V → Type 0
  AnsweredAfter out = Speaks out.1

  respond_result-Speaks :
      (t : FrameType) (f : MacFrame) (p : Peer) (o : Option (RequestResult × V))
      → After SpeaksAfter o
      → After AnsweredAfter (elim o [
        | none ↦ none
        | some (result, v1) ↦
            let (now_us, v2) = dev.time_now_us v1 in
            some (
              record p {
                counters = count_sent result t f.type p.counters;
                last_stat_print_us = stat_time now_us p.last_stat_print_us;
              },
              v2,
            )
      ])
  respond_result-Speaks t f p none h = tt
  respond_result-Speaks t f p (some (r, v1)) h =
      Speaks-stays v1 (dev.time_now_us v1).1 (antenna.time_now_us_sends v1) h

  respond-Speaks :
      (fuel : ℕ) (t : FrameType) (f : MacFrame) (p : Peer) (v : V)
      → IsSendable f
      → After AnsweredAfter (respond dev fuel t f p v)
  unfolding respond
  respond-Speaks fuel t f p v s =
      let request = (encode_mac_frame f).1 in
      let size = encode-size f s in
      let bytes = sendable-bytes f s in
      let whole = (decode-encode f empty_frame s).0 in
      if-preserves (λ o. After AnsweredAfter o) (not (encode_mac_frame f).0)
        (λ failed. ground (arith, failed, whole))
        (λ encoded.
          respond_result-Speaks t f p (send dev fuel request v)
            (send-Speaks fuel request v size bytes))

  serve-Speaks :
      (fuel : ℕ) (rx f : MacFrame) (p : Peer) (v : V)
      → is_reset rx.type ≡ false
      → (served rx p).0 ≡ some f
      → IsSendable f
      → After AnsweredAfter (serve dev fuel [] rx p v)
  unfolding serve
  serve-Speaks fuel rx f p v other e s =
      let (applied, p1) = apply_coordinator_request rx p in
      let (chosen, tx, p2) = choose_peer_response [] p1 in
      let P : Option (Peer × V) → Type 0 = λ o. After AnsweredAfter o in
      if-preserves P (not applied)
        (λ refused.
          let k = ap (λ o. o.0) (served_refused rx p other refused) in ground (arith, k, e))
        (λ taken.
          if-preserves P (not chosen)
            (λ nothing.
              let k = ap (λ o. o.0) (served_nothing rx p other taken nothing) in
              ground (arith, k, e))
            (λ found.
              let k = ap (λ o. o.0) (served_request rx p other taken found) in
              let same : f ≡ tx = ground (arith, k, e) in
              respond-Speaks fuel rx.type tx p2 v (subst IsSendable same s)))

  abbrev ResetAnsweredAfter : Bool × Peer × V → Type 0
  ResetAnsweredAfter (ok, p, v) = Speaks v

  reset_result-Speaks :
      (p : Peer) (o : Option (RequestResult × V))
      → After SpeaksAfter o
      → After ResetAnsweredAfter
          (elim o [ none ↦ none | some (result, v1) ↦ some (after_reset_answer result p v1) ])
  reset_result-Speaks p none h = tt
  reset_result-Speaks p (some (RequestResult.success, v1)) h = h
  reset_result-Speaks p (some (RequestResult.timeout, v1)) h = h
  reset_result-Speaks p (some (RequestResult.malformed, v1)) h = h
  reset_result-Speaks p (some (RequestResult.transmit_error, v1)) h = h

  handle_reset-Speaks :
      (fuel : ℕ) (p : Peer) (v : V) → After ResetAnsweredAfter (handle_reset dev fuel p v)
  unfolding handle_reset
  handle_reset-Speaks fuel p v =
      let request = (encode_mac_frame reset_frame).1 in
      let size = encode-size reset_frame reset_frame-IsSendable in
      let bytes = sendable-bytes reset_frame reset_frame-IsSendable in
      let whole = (decode-encode reset_frame empty_frame reset_frame-IsSendable).0 in
      let P : Option (Bool × Peer × V) → Type 0 = λ o. After ResetAnsweredAfter o in
      if-preserves P (not (encode_mac_frame reset_frame).0)
        (λ failed. ground (arith, failed, whole))
        (λ encoded.
          reset_result-Speaks (peer_cleared p) (send dev fuel request v)
            (send-Speaks fuel request v size bytes))

  skip-Speaks :
      (o : Option (Bool × Peer × V))
      → After ResetAnsweredAfter o
      → After AnsweredAfter (elim o [ none ↦ none | some (ok, p1, v1) ↦ some (p1, v1) ])
  skip-Speaks none h = tt
  skip-Speaks (some (ok, p1, v1)) h = h

  -- The peer that takes a frame and has an answer sends something.
  pub handle_packet-Speaks :
      (fuel : ℕ) (frame f : MacFrame) (p : Peer) (v : V)
      → Answers frame p f
      → After AnsweredAfter (handle_packet dev fuel [] (encode_mac_frame frame).1 p v)
  unfolding handle_packet
  handle_packet-Speaks fuel frame f p v (whole, e, s) =
      let rx = over_air frame in
      let p1 = record p { counters = record_rx rx.type p.counters } in
      let e1 : (served rx p1).0 ≡ some f = (served-Like rx p1 p refl).0 ∙ e in
      let P : Option (Peer × V) → Type 0 = λ o. After AnsweredAfter o in
      if-preserves P (not (decode_mac_frame (encode_mac_frame frame).1 empty_frame).0)
        (λ odd. ground (arith, odd, whole))
        (λ decoded.
          if-preserves P (is_reset rx.type)
            (λ resets. skip-Speaks (handle_reset dev fuel p1 v) (handle_reset-Speaks fuel p1 v))
            (λ other. serve-Speaks fuel rx f p1 v other e1 s))
