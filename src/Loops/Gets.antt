-- ===== src/Loops/Gets.antt =====
-- Receive (nerfnet/net/radio_interface.cc) of the coordinator gets the peer's answer while nothing is
-- lost on the air.
use n_rf24_module.Prelude.{
  none, ℕ, zero, suc, ◌+◌, ◌≡◌, ◌∙◌, refl, sym, subst, false, List, [], Option, some, arith, ltb,
  u64, ltb→lt, if-preserves,
}
use n_rf24_module.Frame.{max_packet_size}
use n_rf24_module.Driver.{RequestResult, success, Device}
use n_rf24_module.Driver.Receive.{poll_loop, wait_for_rx_ready, receive}
use n_rf24_module.Driver.Waiting.{wait-polls}
use n_rf24_module.Coordinator.Exchange.{receive_timeout_us}
use n_rf24_module.Loops.Heard.{After, Antenna}
use n_rf24_module.Loops.Medium.{Medium}
use n_rf24_module.Loops.Speaks.{Loud}
use n_rf24_module.Loops.Lossless.{Lossless}

module _ {W : Type 0} {V : Type 0} (dev : Device W) (peer_dev : Device V)
    (antenna : Antenna peer_dev) (medium : Medium dev peer_dev antenna)
    (loud : Loud peer_dev antenna) (lossless : Lossless dev peer_dev antenna medium) where
  open medium use {peer_of, on_air}
  open lossless use {calm, written_at}

  -- The answer is there in time, and is read.
  abbrev PollsAfter : List ℕ → W → RequestResult × W → Type 0
  PollsAfter packet w0 (r, w1) =
      (r ≡ success)
      × calm w1
      × (peer_of w1 ≡ peer_of w0)
      × ((dev.read max_packet_size w1).0 ≡ packet)
      × (on_air (dev.read max_packet_size w1).1 ≡ none)

  poll-Polls :
      (n start_us : ℕ) (packet : List ℕ) (w0 w : W)
      → calm w
      → on_air w ≡ some packet
      → peer_of w ≡ peer_of w0
      → medium.listens w ≡ some start_us
      → After (PollsAfter packet w0) (poll_loop dev n start_us receive_timeout_us w)
  unfolding poll_loop
  poll-Polls zero start_us packet w0 w h e same since = tt
  poll-Polls (suc n) start_us packet w0 w h e same since =
      let w1 = (dev.available w).1 in
      let (now, w2) = dev.time_now_us w1 in
      let w3 = dev.sleep_us 50 w1 in
      let w4 = dev.sleep_us 50 w2 in
      let (h1, e1) = lossless.available_calm w h in
      let (h2, e2, _) = lossless.time_now_us_calm w1 h1 in
      let (h3, e3, _) = lossless.sleep_us_calm 50 w1 h1 in
      let (h4, e4, _) = lossless.sleep_us_calm 50 w2 h2 in
      let (k1, s1) = medium.available_stays w in
      let (k2, s2) = medium.time_now_us_stays w1 in
      let (k3, s3) = medium.sleep_us_stays 50 w1 in
      let (k4, s4) = medium.sleep_us_stays 50 w2 in
      let same1 = k1.0 ∙ same in
      let same2 = k2.0 ∙ same1 in
      let here1 = e1 ∙ e in
      let here2 = e2 ∙ here1 in
      let since1 = s1 ∙ since in
      let forever =
        poll-Polls n start_us packet w0 w3 h3 (e3 ∙ here1) (k3.0 ∙ same1) (s3 ∙ since1) in
      let again =
        poll-Polls n start_us packet w0 w4 h4 (e4 ∙ here2) (k4.0 ∙ same2) (s4 ∙ (s2 ∙ since1)) in
      let P : Option (RequestResult × W) → Type 0 = λ o. After (PollsAfter packet w0) o in
      if-preserves P (dev.available w).0
        (λ ready.
          let got = medium.available_is w ready in
          (refl, h1, same1, ground (arith, got, here1), medium.read_takes w ready))
        (λ not_ready.
          if-preserves P (ltb (u64 (start_us + receive_timeout_us)) now)
            (λ late.
              let lost = medium.is_prompt w start_us since not_ready (ltb→lt _ _ late) in
              absurd (ground (arith, lost, here2)))
            (λ early. again))

  abbrev pub GetsAfter : List ℕ → W → RequestResult × List ℕ × W → Type 0
  GetsAfter packet w (r, response, w1) =
      (r ≡ success) × (response ≡ packet) × calm w1 × (on_air w1 ≡ none) × (peer_of w1 ≡ peer_of w)

  read-Gets :
      (packet : List ℕ) (w : W) (o : Option (RequestResult × W))
      → After (PollsAfter packet w) o
      → After (GetsAfter packet w) (elim o [
        | none ↦ none
        | some (RequestResult.success, w1) ↦
            let (response, w2) = dev.read max_packet_size w1 in
            some (RequestResult.success, response, w2)
        | some (other, w1) ↦ some (other, [], w1)
      ])
  read-Gets packet w none h = tt
  read-Gets packet w (some (RequestResult.success, w1)) (_, h, same, is, taken) =
      (refl, is, lossless.read_calm max_packet_size w1 h, taken, medium.read_peer _ w1 ∙ same)
  read-Gets packet w (some (RequestResult.timeout, w1)) h = absurd (ground (arith, h.0))
  read-Gets packet w (some (RequestResult.malformed, w1)) h = absurd (ground (arith, h.0))
  read-Gets packet w (some (RequestResult.transmit_error, w1)) h = absurd (ground (arith, h.0))

  pub receive-Gets :
      (fuel : ℕ) (packet : List ℕ) (w : W)
      → dev.has_irq_line ≡ false
      → calm w
      → on_air w ≡ some packet
      → After (GetsAfter packet w) (receive dev fuel max_packet_size receive_timeout_us w)
  unfolding receive
  receive-Gets fuel packet w polls h here =
      let w0 = dev.start_listening w in
      let (start_us, w1) = dev.time_now_us w0 in
      let (h0, e0) = lossless.start_listening_calm w h in
      let (h1, e1, _) = lossless.time_now_us_calm w0 h0 in
      let (k, s) = medium.time_now_us_stays w0 in
      read-Gets packet w (wait_for_rx_ready dev fuel receive_timeout_us w0) (
        subst (After (PollsAfter packet w)) (sym (wait-polls dev fuel receive_timeout_us w0 polls))
          (poll-Polls fuel start_us packet w w1 h1 (e1 ∙ (e0 ∙ here))
            (k.0 ∙ (medium.start_listening_passes w).0) (s ∙ medium.start_listening_since w)))
