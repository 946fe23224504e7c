-- ===== src/Loops/Talks.antt =====
-- Send and Receive (nerfnet/net/radio_interface.cc), one after the other, while nothing is lost on the
-- air.
use n_rf24_module.Prelude.{ℕ, ◌≤◌, ◌≡◌, ◌∙◌, sym, ap, subst, false, [], some, arith, inl}
use n_rf24_module.Frame.{MacFrame, max_packet_size}
use n_rf24_module.Frame.Codec.{encode_mac_frame}
use n_rf24_module.Frame.RoundTrip.{IsSendable}
use n_rf24_module.Driver.{RequestResult, Device, Clock, Reads}
use n_rf24_module.Driver.Send.{send}
use n_rf24_module.Driver.Receive.{receive}
use n_rf24_module.Driver.Timely.{send-returns}
use n_rf24_module.Driver.Waiting.{receive-returns}
use n_rf24_module.Coordinator.Exchange.{receive_timeout_us}
use n_rf24_module.Coordinator.Returns.{exchange_fuel, encode-size}
use n_rf24_module.Peer.Valid.{IsValid}
use n_rf24_module.Peer.Returns.{handle_packet-Returns}
use n_rf24_module.System.{over_air}
use n_rf24_module.Loops.Bare.{bare_peer, SamePeer}
use n_rf24_module.Loops.Heard.{After, Antenna, served}
use n_rf24_module.Loops.Medium.{Medium}
use n_rf24_module.Loops.Calls.{stopped-silent}
use n_rf24_module.Loops.Speaks.{Loud, Answers, sendable-bytes}
use n_rf24_module.Loops.Calm.{handle_packet-Answers}
use n_rf24_module.Loops.Lossless.{Lossless, IsCalm}
use n_rf24_module.Loops.Stands.{StandsAfter, written, send-Stands}
use n_rf24_module.Loops.Gets.{GetsAfter, receive-Gets}

module _ {W : Type 0} {V : Type 0} (dev : Device W) (peer_dev : Device V)
    (antenna : Antenna peer_dev) (medium : Medium dev peer_dev antenna)
    (loud : Loud peer_dev antenna) (lossless : Lossless dev peer_dev antenna medium) where
  open medium use {peer_of, on_air}
  open lossless use {calm, written_at}

  -- Send and then Receive: the coordinator gets the peer's answer.
  abbrev pub Talks : ℕ → MacFrame → MacFrame → W → Type 0
  Talks fuel frame f w =
      (w1 : W) × (w2 : W) × (send dev fuel (encode_mac_frame frame).1 w
        ≡ some (RequestResult.success, w1))
      × (receive dev fuel max_packet_size receive_timeout_us w1
          ≡ some (RequestResult.success, (encode_mac_frame f).1, w2))
      × IsCalm dev peer_dev antenna medium loud lossless w2
      × SamePeer (peer_of w2) (served (over_air frame) (peer_of w)).1

  -- The peer has handled the packet, and its answer is on the air.
  abbrev Answered : MacFrame → MacFrame → W → Type 0
  Answered frame f w =
      let w1 = written dev peer_dev antenna medium loud lossless (encode_mac_frame frame).1 w in
      SamePeer (peer_of w1) (served (over_air frame) (peer_of w)).1
      × IsValid (peer_of w1)
      × (on_air w1 ≡ some (encode_mac_frame f).1)

  write-Answered :
      (frame f : MacFrame) (w : W)
      → IsSendable frame
      → IsCalm dev peer_dev antenna medium loud lossless w
      → Answers frame (peer_of w) f
      → Answered frame f w
  write-Answered frame f w sendable (h, ready) answers =
      let packet = (encode_mac_frame frame).1 in
      let w0 = dev.stop_listening w in
      let w1 = written dev peer_dev antenna medium loud lossless packet w in
      let (_, _, _, (inner, v, enough, quiet, after)) =
        lossless.write_answered packet w0 (lossless.stop_listening_calm w h)
          (stopped-silent dev peer_dev antenna medium w ready) in
      let same : peer_of w0 ≡ peer_of w = (medium.stop_listening_passes w).0 in
      let answers0 = subst (λ o. Answers frame o f) (sym same) answers in
      let valid0 = subst IsValid (sym same) ready.1 in
      let ((p2, v1), e, valid) =
        handle_packet-Returns peer_dev antenna.clock inner enough [] packet (peer_of w0) v tt
          (sendable-bytes frame sendable) valid0 in
      let (is, put) =
        subst (λ o. After (λ (p2, v1). (peer_of w1 ≡ p2) × (on_air w1 ≡ antenna.sent v1)) o) e
          after in
      let (left, says) =
        handle_packet-Answers peer_dev antenna loud inner frame f (peer_of w0) p2 v v1 quiet e
          answers0 in
      let left0 = subst (λ o. SamePeer p2 (served (over_air frame) o).1) same left in
      (ap bare_peer is ∙ left0, subst IsValid (sym is) valid, put ∙ says)

  pub send-Talks :
      (clock : Clock dev)
      → Reads dev
      → dev.has_irq_line ≡ false
      → (fuel : ℕ) → exchange_fuel ≤ fuel
      → (frame f : MacFrame) (w : W) → IsSendable frame
      → IsCalm dev peer_dev antenna medium loud lossless w
      → Answers frame (peer_of w) f
      → Talks fuel frame f w
  send-Talks clock reads polls fuel enough frame f w sendable h answers =
      let packet = (encode_mac_frame frame).1 in
      let size = encode-size frame sendable in
      let (left, valid, put) = write-Answered frame f w sendable h answers in
      let (r, w1, sent, _) = send-returns dev clock fuel packet w (omega (arith, enough)) in
      let (ok, h1, e1, same1) =
        subst
          (λ o.
            After
              (StandsAfter dev peer_dev antenna medium loud lossless
                (written dev peer_dev antenna medium loud lossless packet w))
              o)
          sent
          (send-Stands dev peer_dev antenna medium loud lossless packet w fuel h
            (omega (arith, size))) in
      let (r2, response, w2, got, _) =
        receive-returns dev clock fuel max_packet_size receive_timeout_us w1 (omega (arith, enough))
          reads polls (omega arith) in
      let (ok2, is, h2, silent, same2) =
        subst
          (λ o.
            After (GetsAfter dev peer_dev antenna medium loud lossless (encode_mac_frame f).1 w1) o)
          got
          (receive-Gets dev peer_dev antenna medium loud lossless fuel (encode_mac_frame f).1 w1
            polls h1 (e1 ∙ put)) in
      let same = same2 ∙ same1 in
      (
        w1,
        w2,
        sent ∙ ap (λ o. some (o, w1)) ok,
        got
            ∙ (ap (λ o. some (o, response, w2)) ok2
                ∙ ap (λ o. some (RequestResult.success, o, w2)) is),
        (h2, (inl silent, subst IsValid (sym same) valid)),
        ap bare_peer same ∙ left,
      )
