-- ===== src/Loops/Medium.antt =====
-- A coordinator's radio that carries its packets to the peer (nerfnet/net/primary_radio_interface.cc
-- and secondary_radio_interface.cc) and brings the peer's answers back.
use n_rf24_module.Prelude.{
  ℕ, ◌+◌, ◌<◌, ◌≤◌, ◌≡◌, ◌∙◌, ◌⊎◌, inl, inr, refl, sym, ap, subst, true, false, List, [], Option,
  none, some, u64,
}
use n_rf24_module.Frame.{MacFrame, max_packet_size}
use n_rf24_module.Frame.Codec.{encode_mac_frame}
use n_rf24_module.Frame.RoundTrip.{IsSendable}
use n_rf24_module.Driver.{Device}
use n_rf24_module.Driver.Timely.{send_fuel}
use n_rf24_module.Coordinator.Exchange.{receive_timeout_us}
use n_rf24_module.Peer.{Peer}
use n_rf24_module.Peer.Loop.{handle_packet}
use n_rf24_module.Peer.Valid.{IsValid}
use n_rf24_module.Peer.Returns.{handle_packet-Returns}
use n_rf24_module.Loops.Bare.{bare_peer}
use n_rf24_module.Loops.Turns.{take_packet}
use n_rf24_module.Loops.Heard.{After, Antenna}
use n_rf24_module.Loops.Speaks.{sendable-bytes}
use n_rf24_module.Loops.Answers.{Hears, handle_packet-Hears}

-- What becomes of a packet that the coordinator writes: it is lost, or the peer handles it with a
-- radio that has not sent anything yet, and with fuel for one Send. An answer may be lost again. That
-- the handling returns is shown, not relied on.
abbrev pub Delivers :
    {V : Type 0} (peer_dev : Device V)
    → Antenna peer_dev
    → List ℕ
    → Peer
    → Peer
    → Option (List ℕ)
    → Type 0
Delivers {V} peer_dev antenna packet p p1 answer =
    ((p1 ≡ p) × (answer ≡ none))
    ⊎ ((fuel : ℕ) × (v : V) × (send_fuel ≤ fuel)
        × (antenna.sent v ≡ none)
        × After (λ (p2, v1). (p1 ≡ p2) × ((answer ≡ none) ⊎ (answer ≡ antenna.sent v1)))
            (handle_packet peer_dev fuel [] packet p v))

-- The peer is left alone, and what it has sent stays on the air or is lost.
abbrev pub Passes : {W : Type 0} → (W → Peer) → (W → Option (List ℕ)) → W → W → Type 0
Passes peer_of on_air w w1 =
    (peer_of w1 ≡ peer_of w) × ((on_air w1 ≡ on_air w) ⊎ (on_air w1 ≡ none))

-- The radio goes on listening, or not listening, too.
abbrev pub Stays :
    {W : Type 0} → (W → Peer) → (W → Option (List ℕ)) → (W → Option ℕ) → W → W → Type 0
Stays peer_of on_air listens w w1 = Passes peer_of on_air w w1 × (listens w1 ≡ listens w)

-- What is relied on of the two radios. The peer is part of the outside of the coordinator, and only
-- `write` reaches it. `on_air` is what the peer has sent and the coordinator's radio has not handed
-- over or thrown away: it may be there to be read, or still come, and the radio keeps it until it is
-- read or flushed. `listens` is since when the radio listens, if it does. Nothing comes in while it
-- does not listen, and the peer is prompt: where a poll finds nothing and the 100 ms are over that the
-- coordinator waits, no answer comes any more. `let_read` lets the peer's tunnel thread read a packet.
pub record Medium {W : Type 0} {V : Type 0} (dev : Device W) (peer_dev : Device V)
    (antenna : Antenna peer_dev) : Type 0 where
  pub peer_of : W → Peer
  pub on_air : W → Option (List ℕ)
  pub listens : W → Option ℕ
  pub let_read : List ℕ → W → W
  pub let_read_is :
      (packet : List ℕ) (w : W)
      → peer_of (let_read packet w)
        ≡ record (peer_of w) { radio = take_packet packet (peer_of w).radio }
  pub let_read_on_air : (packet : List ℕ) (w : W) → on_air (let_read packet w) ≡ on_air w
  pub let_read_listens : (packet : List ℕ) (w : W) → listens (let_read packet w) ≡ listens w
  pub write_delivers :
      (packet : List ℕ) (w : W)
      → on_air w ≡ none
      → let w1 = (dev.write packet w).1 in
        Delivers peer_dev antenna packet (peer_of w) (peer_of w1) (on_air w1)
  pub write_listens : (packet : List ℕ) (w : W) → listens (dev.write packet w).1 ≡ listens w
  pub available_is :
      (w : W)
      → (dev.available w).0 ≡ true
      → let w1 = (dev.available w).1 in on_air w1 ≡ some (dev.read max_packet_size w1).0
  pub read_peer : (n : ℕ) (w : W) → peer_of (dev.read n w).1 ≡ peer_of w
  pub read_takes :
      (w : W)
      → (dev.available w).0 ≡ true
      → on_air (dev.read max_packet_size (dev.available w).1).1 ≡ none
  pub is_prompt :
      (w : W) (start_us : ℕ)
      → listens w ≡ some start_us
      → (dev.available w).0 ≡ false
      → let (now, w1) = dev.time_now_us (dev.available w).1 in
        u64 (start_us + receive_timeout_us) < now → on_air w1 ≡ none
  pub flush_rx_peer : (w : W) → peer_of (dev.flush_rx w) ≡ peer_of w
  pub flush_rx_empties : (w : W) → on_air (dev.flush_rx w) ≡ none
  pub start_listening_passes : (w : W) → Passes peer_of on_air w (dev.start_listening w)
  pub start_listening_since :
      (w : W) → let w1 = dev.start_listening w in listens w1 ≡ some ((dev.time_now_us w1).0)
  pub stop_listening_passes : (w : W) → Passes peer_of on_air w (dev.stop_listening w)
  pub stop_listening_since : (w : W) → listens (dev.stop_listening w) ≡ none
  pub unheard : (w : W) → listens w ≡ none → on_air (dev.stop_listening w) ≡ none
  pub flush_tx_stays : (w : W) → Stays peer_of on_air listens w (dev.flush_tx w)
  pub tx_stand_by_stays : (w : W) → Stays peer_of on_air listens w (dev.tx_stand_by w).1
  pub available_stays : (w : W) → Stays peer_of on_air listens w (dev.available w).1
  pub time_now_us_stays : (w : W) → Stays peer_of on_air listens w (dev.time_now_us w).1
  pub sleep_us_stays : (d : ℕ) (w : W) → Stays peer_of on_air listens w (dev.sleep_us d w)

module _ {W : Type 0} {V : Type 0} (dev : Device W) (peer_dev : Device V)
    (antenna : Antenna peer_dev) (medium : Medium dev peer_dev antenna) where
  open medium use {peer_of, on_air, listens, write_delivers}

  abbrev pub Moves : W → W → Type 0
  Moves w w1 = Passes peer_of on_air w w1

  pub Moves-trans : (w w1 w2 : W) → Moves w w1 → Moves w1 w2 → Moves w w2
  Moves-trans w w1 w2 (p, a) (q, inr b) = (q ∙ p, inr b)
  Moves-trans w w1 w2 (p, inl a) (q, inl b) = (q ∙ p, inl (b ∙ a))
  Moves-trans w w1 w2 (p, inr a) (q, inl b) = (q ∙ p, inr (b ∙ a))

  abbrev pub Keeps : W → W → Type 0
  Keeps w w1 = Stays peer_of on_air listens w w1

  pub Keeps-trans : (w w1 w2 : W) → Keeps w w1 → Keeps w1 w2 → Keeps w w2
  Keeps-trans w w1 w2 (h, e) (k, f) = (Moves-trans w w1 w2 h k, f ∙ e)

  pub Moves-silent : (w w1 : W) → Moves w w1 → on_air w ≡ none → on_air w1 ≡ none
  Moves-silent w w1 (e, inl same) h = same ∙ h
  Moves-silent w w1 (e, inr lost) h = lost

  -- Between two exchanges: nothing is left to be read, or the radio does not listen; and the peer is
  -- in a valid state.
  abbrev pub Ready : W → Type 0
  Ready w = ((on_air w ≡ none) ⊎ (listens w ≡ none)) × IsValid (peer_of w)

  pub Keeps-Ready : (w w1 : W) → Keeps w w1 → Ready w → Ready w1
  Keeps-Ready w w1 (h, e) (inl silent, v) =
      (inl (Moves-silent w w1 h silent), subst IsValid (sym (h.0)) v)
  Keeps-Ready w w1 (h, e) (inr deaf, v) = (inr (e ∙ deaf), subst IsValid (sym (h.0)) v)

  -- The peer may have heard `frame`, and its answer may be on the air.
  abbrev pub Heard : MacFrame → Peer → W → Type 0
  Heard frame p w = Hears frame p (peer_of w) (on_air w)

  Hears-lost :
      (frame : MacFrame) (p p' : Peer) (answer : Option (List ℕ))
      → Hears frame p p' answer
      → Hears frame p p' none
  Hears-lost frame p p' answer (inl (h, e)) = inl (h, refl)
  Hears-lost frame p p' answer (inr (h, e)) = inr (h, inl refl)

  pub Keeps-Heard :
      (frame : MacFrame) (p : Peer) (w w1 : W) → Keeps w w1 → Heard frame p w → Heard frame p w1
  Keeps-Heard frame p w w1 ((e, inl same), _) h =
      subst (λ o. Hears frame p o (on_air w1)) (sym e)
        (subst (λ o. Hears frame p (peer_of w) o) (sym same) h)
  Keeps-Heard frame p w w1 ((e, inr lost), _) h =
      subst (λ o. Hears frame p o (on_air w1)) (sym e)
        (subst (λ o. Hears frame p (peer_of w) o) (sym lost)
          (Hears-lost frame p (peer_of w) (on_air w) h))

  -- The peer returns from the handling of a packet that is written, in a valid state.
  pub write-Heard :
      (frame : MacFrame) (w : W)
      → IsSendable frame
      → on_air w ≡ none
      → IsValid (peer_of w)
      → let w1 = (dev.write (encode_mac_frame frame).1 w).1 in
        Heard frame (peer_of w) w1 × IsValid (peer_of w1)
  write-Heard frame w sendable silent valid =
      let packet = (encode_mac_frame frame).1 in
      let w1 = (dev.write packet w).1 in
      let p = peer_of w in
      elim (write_delivers packet w silent) [
        | inl (same, lost) ↦ ((inl (ap bare_peer same, lost)), subst IsValid (sym same) valid)
        | inr (fuel, v, enough, quiet, h) ↦
            let ((p2, v1), e, valid1) =
              handle_packet-Returns peer_dev antenna.clock fuel enough [] packet p v tt
                (sendable-bytes frame sendable) valid in
            let served =
              subst (λ o. After (λ out. Hears frame p out.0 (antenna.sent out.1)) o) e
                (handle_packet-Hears peer_dev antenna fuel frame p v quiet) in
            let (same, answer) =
              subst
                (λ o.
                  After
                    (λ (p2, v1).
                      (peer_of w1 ≡ p2) × ((on_air w1 ≡ none) ⊎ (on_air w1 ≡ antenna.sent v1)))
                    o)
                e h in
            let heard : Hears frame p p2 (on_air w1) = elim answer [
              | inl lost ↦
                  subst (λ o. Hears frame p p2 o) (sym lost)
                    (Hears-lost frame p p2 (antenna.sent v1) served)
              | inr sent ↦ subst (λ o. Hears frame p p2 o) (sym sent) served
            ] in
            (
              subst (λ o. Hears frame p o (on_air w1)) (sym same) heard,
              subst IsValid (sym same) valid1,
            )
      ]
