-- ===== src/Loops/Resets.antt =====
-- ConnectionReset (nerfnet/net/primary_radio_interface.cc) over a radio that the peer answers.
use n_rf24_module.Prelude.{
  ℕ, ◌≡◌, ◌∙◌, ◌⊎◌, inl, inr, refl, sym, ap, subst, Bool, true, false, not, List, [], Option, none,
  some, if-preserves, arith,
}
use n_rf24_module.Frame.{max_packet_size, empty_frame}
use n_rf24_module.Frame.Codec.{encode_mac_frame, decode_mac_frame}
use n_rf24_module.Driver.{RequestResult, Device}
use n_rf24_module.Driver.Send.{send}
use n_rf24_module.Driver.Receive.{receive}
use n_rf24_module.Coordinator.{Coordinator}
use n_rf24_module.Coordinator.Exchange.{
  receive_timeout_us, is_reset, reset_frame, cleared, finish_reset, connection_reset,
}
use n_rf24_module.Peer.{Peer}
use n_rf24_module.Peer.Loop.{peer_cleared}
use n_rf24_module.System.{over_air}
use n_rf24_module.System.Reconnect.{reset_arrives}
use n_rf24_module.Loops.Bare.{bare_peer, SamePeer}
use n_rf24_module.Loops.Heard.{After, Antenna, served_reset}
use n_rf24_module.Loops.Answers.{Hears}
use n_rf24_module.Loops.Medium.{Medium, Heard, Ready, Keeps-Ready}
use n_rf24_module.Coordinator.Resets.{reset_frame-IsSendable}
use n_rf24_module.Peer.Valid.{IsValid}
use n_rf24_module.Loops.Calls.{SentAfter, send-Sent, ReceivedAfter, receive-Received}

-- What a Reset leaves of the peer: it was lost, or the peer has taken it; it was taken where the
-- coordinator got an answer.
abbrev pub ResetTaken : Peer → Bool → Peer → Type 0
ResetTaken p ok p1 = ((ok ≡ false) × SamePeer p1 p) ⊎ SamePeer p1 (peer_cleared p)

taken-Reset :
    (p p1 : Peer) (answer : Option (List ℕ)) → Hears reset_frame p p1 answer → ResetTaken p false p1
taken-Reset p p1 answer (inl (h, e)) = inl (refl, h)
taken-Reset p p1 answer (inr (h, e)) =
    inr (h ∙ ap (λ o. bare_peer o.1) (served_reset (over_air reset_frame) p reset_arrives))

answered-Reset :
    (p p1 : Peer) (ok : Bool) (response : List ℕ) (answer : Option (List ℕ))
    → answer ≡ some response
    → Hears reset_frame p p1 answer
    → ResetTaken p ok p1
answered-Reset p p1 ok response answer here (inl (h, e)) = ground (arith, e, here)
answered-Reset p p1 ok response answer here (inr (h, e)) =
    inr (h ∙ ap (λ o. bare_peer o.1) (served_reset (over_air reset_frame) p reset_arrives))

module _ {W : Type 0} {V : Type 0} (dev : Device W) (peer_dev : Device V)
    (antenna : Antenna peer_dev) (medium : Medium dev peer_dev antenna) where
  open medium use {peer_of, on_air, flush_tx_stays, flush_rx_peer, flush_rx_empties}

  -- Both buffers are flushed.
  pub flushed-Ready :
      (w : W)
      → IsValid (peer_of w)
      → Ready dev peer_dev antenna medium (dev.flush_tx (dev.flush_rx w))
  flushed-Ready w v =
      let w1 = dev.flush_rx w in
      Keeps-Ready dev peer_dev antenna medium w1 (dev.flush_tx w1) (flush_tx_stays w1)
        (inl (flush_rx_empties w), subst IsValid (sym (flush_rx_peer w)) v)

  module _ (c : Coordinator) (p : Peer) where
    abbrev pub ResetAfter : Bool × Coordinator × W → Type 0
    ResetAfter (ok, c1, w1) =
        (c1 ≡ cleared c) × ResetTaken p ok (peer_of w1) × Ready dev peer_dev antenna medium w1

    finish-Reset :
        (response : List ℕ) (w w1 : W)
        → Heard dev peer_dev antenna medium reset_frame p w
        → peer_of w1 ≡ peer_of w
        → on_air w ≡ some response
        → Ready dev peer_dev antenna medium w1
        → ResetAfter (finish_reset dev response (cleared c) w1)
    unfolding finish_reset
    finish-Reset response w w1 h same here ready =
        let (decoded, rx) = decode_mac_frame response empty_frame in
        let w2 = dev.flush_rx w1 in
        let w3 = dev.flush_tx w2 in
        let left : peer_of w3 ≡ peer_of w = (flush_tx_stays w2).0.0 ∙ (flush_rx_peer w1 ∙ same) in
        let failed : ResetAfter (false, cleared c, w1) = (
          refl,
          subst (ResetTaken p false) (sym same)
              (answered-Reset p (peer_of w) false response (on_air w) here h),
          ready,
        ) in
        let P : Bool × Coordinator × W → Type 0 = λ o. ResetAfter o in
        if-preserves P (not decoded) (λ odd. failed)
          (λ whole.
            if-preserves P (not (is_reset rx.type)) (λ other. failed)
              (λ reset. (
                refl,
                subst (ResetTaken p true) (sym left)
                    (answered-Reset p (peer_of w) true response (on_air w) here h),
                flushed-Ready w1 ready.1,
              )))

    silent-Reset :
        (w w1 : W)
        → Heard dev peer_dev antenna medium reset_frame p w
        → peer_of w1 ≡ peer_of w
        → Ready dev peer_dev antenna medium w1
        → ResetAfter (false, cleared c, w1)
    silent-Reset w w1 h same ready = (
      refl,
      subst (ResetTaken p false) (sym same) (taken-Reset p (peer_of w) (on_air w) h),
      ready,
    )

    unsent-Reset :
        (r : RequestResult) (w : W)
        → SentAfter dev peer_dev antenna medium reset_frame p (r, w)
        → ResetAfter (false, cleared c, w)
    unsent-Reset r w (inl (e, same), deaf, v) = (refl, inl (refl, ap bare_peer same), (inr deaf, v))
    unsent-Reset r w (inr h, deaf, v) = silent-Reset w w h refl (inr deaf, v)

    received-Reset :
        (w : W) (o : Option (RequestResult × List ℕ × W))
        → Heard dev peer_dev antenna medium reset_frame p w
        → IsValid (peer_of w)
        → After (ReceivedAfter dev peer_dev antenna medium w) o
        → After ResetAfter (elim o [
          | none ↦ none
          | some (RequestResult.success, response, w2) ↦
              some (finish_reset dev response (cleared c) w2)
          | some (failed, response, w2) ↦ some (false, cleared c, w2)
        ])
    received-Reset w none h v k = tt
    received-Reset w (some (RequestResult.success, response, w1)) h v (same, _, inl late) =
        ground (arith, late)
    received-Reset w (some (RequestResult.success, response, w1)) h v
          (same, silent, inr (_, here)) =
        finish-Reset response w w1 h same here (inl silent, subst IsValid (sym same) v)
    received-Reset w (some (RequestResult.timeout, response, w1)) h v (same, silent, k) =
        silent-Reset w w1 h same (inl silent, subst IsValid (sym same) v)
    received-Reset w (some (RequestResult.malformed, response, w1)) h v (same, silent, k) =
        silent-Reset w w1 h same (inl silent, subst IsValid (sym same) v)
    received-Reset w (some (RequestResult.transmit_error, response, w1)) h v (same, silent, k) =
        silent-Reset w w1 h same (inl silent, subst IsValid (sym same) v)

    sent-Reset :
        (fuel : ℕ) (o : Option (RequestResult × W))
        → dev.has_irq_line ≡ false
        → After (SentAfter dev peer_dev antenna medium reset_frame p) o
        → After ResetAfter (elim o [
          | none ↦ none
          | some (RequestResult.success, w1) ↦
              elim (receive dev fuel max_packet_size receive_timeout_us w1) [
                | none ↦ none
                | some (RequestResult.success, response, w2) ↦
                    some (finish_reset dev response (cleared c) w2)
                | some (failed, response, w2) ↦ some (false, cleared c, w2)
              ]
          | some (failed, w1) ↦ some (false, cleared c, w1)
        ])
    sent-Reset fuel none polls h = tt
    sent-Reset fuel (some (RequestResult.success, w1)) polls (inl (e, same), deaf, v) =
        ground (arith, e)
    sent-Reset fuel (some (RequestResult.success, w1)) polls (inr h, deaf, v) =
        received-Reset w1 (receive dev fuel max_packet_size receive_timeout_us w1) h v
          (receive-Received dev peer_dev antenna medium fuel w1 polls)
    sent-Reset fuel (some (RequestResult.timeout, w1)) polls h =
        unsent-Reset RequestResult.timeout w1 h
    sent-Reset fuel (some (RequestResult.malformed, w1)) polls h =
        unsent-Reset RequestResult.malformed w1 h
    sent-Reset fuel (some (RequestResult.transmit_error, w1)) polls h =
        unsent-Reset RequestResult.transmit_error w1 h

  -- ConnectionReset clears the coordinator, and the peer where it hears the Reset; where it succeeds,
  -- the peer has heard it.
  pub connection_reset-Resets :
      (fuel : ℕ) (c : Coordinator) (w : W)
      → dev.has_irq_line ≡ false
      → IsValid (peer_of w)
      → After (ResetAfter c (peer_of w)) (connection_reset dev fuel [] c w)
  unfolding connection_reset
  connection_reset-Resets fuel c w polls valid =
      let w1 = dev.flush_rx w in
      let w2 = dev.flush_tx w1 in
      let p = peer_of w in
      let same : peer_of w2 ≡ p = (flush_tx_stays w1).0.0 ∙ flush_rx_peer w in
      let request = (encode_mac_frame reset_frame).1 in
      let P : Option (Bool × Coordinator × W) → Type 0 = λ o. After (ResetAfter c p) o in
      if-preserves P (not (encode_mac_frame reset_frame).0)
        (λ failed. (refl, inl (refl, ap bare_peer same), flushed-Ready w valid))
        (λ encoded. sent-Reset c p fuel (send dev fuel request w2) polls (
          send-Sent dev peer_dev antenna medium fuel reset_frame p w2 reset_frame-IsSendable
            (flushed-Ready w valid) same))
