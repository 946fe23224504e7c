-- ===== src/Loops/Calm.antt =====
-- The peer's answers (nerfnet/net/secondary_radio_interface.cc) while nothing is lost on the air.
use n_rf24_module.Prelude.{ℕ, ◌≡◌, ◌∙◌, inl, inr, ap, subst, List, [], Option, none, some, arith}
use n_rf24_module.Frame.{MacFrame}
use n_rf24_module.Frame.Codec.{encode_mac_frame}
use n_rf24_module.Driver.{Device}
use n_rf24_module.Peer.{Peer}
use n_rf24_module.Peer.Loop.{handle_packet}
use n_rf24_module.System.{over_air}
use n_rf24_module.Loops.Bare.{SamePeer}
use n_rf24_module.Loops.Heard.{After, Antenna, served}
use n_rf24_module.Loops.Answers.{Hears, handle_packet-Hears}
use n_rf24_module.Loops.Speaks.{Loud, Answers, AnsweredAfter, handle_packet-Speaks}

spoken :
    (frame f : MacFrame) (p p1 : Peer) (answer : Option (List ℕ))
    → Hears frame p p1 answer
    → (packet : List ℕ) → answer ≡ some packet
    → (served (over_air frame) p).0 ≡ some f
    → SamePeer p1 (served (over_air frame) p).1 × (answer ≡ some (encode_mac_frame f).1)
spoken frame f p p1 answer (inl (h, lost)) packet here takes = ground (arith, lost, here)
spoken frame f p p1 answer (inr (h, inl lost)) packet here takes = ground (arith, lost, here)
spoken frame f p p1 answer (inr (h, inr (g, e, put))) packet here takes =
    let same : g ≡ f = ground (arith, e, takes) in
    (h, put ∙ ap (λ o. some (encode_mac_frame o).1) same)

module _ {V : Type 0} (dev : Device V) (antenna : Antenna dev) (loud : Loud dev antenna) where
  -- The peer takes the frame, and the answer is what it sends.
  pub handle_packet-Answers :
      (fuel : ℕ) (frame f : MacFrame) (p p1 : Peer) (v v1 : V)
      → antenna.sent v ≡ none
      → handle_packet dev fuel [] (encode_mac_frame frame).1 p v ≡ some (p1, v1)
      → Answers frame p f
      → SamePeer p1 (served (over_air frame) p).1 × (antenna.sent v1 ≡ some (encode_mac_frame f).1)
  handle_packet-Answers fuel frame f p p1 v v1 silent e (whole, takes, s) =
      let hears =
        subst (λ o. After (λ out. Hears frame p out.0 (antenna.sent out.1)) o) e
          (handle_packet-Hears dev antenna fuel frame p v silent) in
      let speaks =
        subst (λ o. After (AnsweredAfter dev antenna loud) o) e
          (handle_packet-Speaks dev antenna loud fuel frame f p v (whole, takes, s)) in
      spoken frame f p p1 (antenna.sent v1) hears speaks.0 speaks.1 takes
