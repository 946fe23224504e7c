-- ===== src/Loops/Stands.antt =====
-- Send (nerfnet/net/radio_interface.cc) of the coordinator succeeds while nothing is lost on the air.
use n_rf24_module.Prelude.{
  ℕ, zero, suc, ◌+◌, ◌≤◌, ◌≡◌, ◌∙◌, refl, sym, ap, not, List, Option, arith, length, ltb, leb, u64,
  if-preserves,
}
use n_rf24_module.Frame.{max_packet_size}
use n_rf24_module.Driver.{RequestResult, success, Device, tx_standby_timeout_us}
use n_rf24_module.Driver.Send.{stand_by_loop, send}
use n_rf24_module.Loops.Heard.{After, Antenna}
use n_rf24_module.Loops.Medium.{Medium}
use n_rf24_module.Loops.Calls.{stopped-silent}
use n_rf24_module.Loops.Speaks.{Loud}
use n_rf24_module.Loops.Lossless.{Lossless, IsCalm}

module _ {W : Type 0} {V : Type 0} (dev : Device W) (peer_dev : Device V)
    (antenna : Antenna peer_dev) (medium : Medium dev peer_dev antenna)
    (loud : Loud peer_dev antenna) (lossless : Lossless dev peer_dev antenna medium) where
  open medium use {peer_of, on_air}
  open lossless use {calm, written_at}

  -- Send succeeds; the peer and its answer are left alone meanwhile.
  abbrev pub StandsAfter : W → RequestResult × W → Type 0
  StandsAfter w0 (r, w1) =
      (r ≡ success) × calm w1 × (on_air w1 ≡ on_air w0) × (peer_of w1 ≡ peer_of w0)

  stand_by-Stands :
      (n deadline : ℕ) (w0 w : W)
      → calm w
      → on_air w ≡ on_air w0
      → peer_of w ≡ peer_of w0
      → deadline ≡ u64 (written_at w + tx_standby_timeout_us)
      → After (StandsAfter w0) (stand_by_loop dev n deadline w)
  unfolding stand_by_loop
  stand_by-Stands zero deadline w0 w h e same since = tt
  stand_by-Stands (suc n) deadline w0 w h e same since =
      let w1 = (dev.tx_stand_by w).1 in
      let (now, w2) = dev.time_now_us w1 in
      let w3 = dev.sleep_us 50 w2 in
      let (h1, e1, s1) = lossless.tx_stand_by_calm w h in
      let (h2, e2, s2) = lossless.time_now_us_calm w1 h1 in
      let (h3, e3, s3) = lossless.sleep_us_calm 50 w2 h2 in
      let same1 = (medium.tx_stand_by_stays w).0.0 ∙ same in
      let same3 = (medium.sleep_us_stays 50 w2).0.0 ∙ ((medium.time_now_us_stays w1).0.0 ∙ same1) in
      let since3 : deadline ≡ u64 (written_at w3 + tx_standby_timeout_us) =
        since ∙ ap (λ o. u64 (o + tx_standby_timeout_us)) (sym (s3 ∙ (s2 ∙ s1))) in
      let again = stand_by-Stands n deadline w0 w3 h3 (e3 ∙ (e2 ∙ (e1 ∙ e))) same3 since3 in
      let P : Option (RequestResult × W) → Type 0 = λ o. After (StandsAfter w0) o in
      if-preserves P (dev.tx_stand_by w).0 (λ ready. (refl, h1, e1 ∙ e, same1))
        (λ busy.
          let early = lossless.stand_by_in_time w h busy in
          if-preserves P (leb deadline now) (λ late. absurd (ground (arith, early, late, since)))
            (λ goes_on. again))

  module _ (packet : List ℕ) (w : W) where
    abbrev pub written : W
    written = (dev.write packet (dev.stop_listening w)).1

    pub send-Stands :
        (fuel : ℕ)
        → IsCalm dev peer_dev antenna medium loud lossless w
        → length packet ≤ max_packet_size
        → After (StandsAfter written) (send dev fuel packet w)
    unfolding send
    send-Stands fuel (h, ready) fits =
        let w0 = dev.stop_listening w in
        let (done, h1, since, _) =
          lossless.write_answered packet w0 (lossless.stop_listening_calm w h)
            (stopped-silent dev peer_dev antenna medium w ready) in
        let (now, w2) = dev.time_now_us written in
        let (h2, e2, s2) = lossless.time_now_us_calm written h1 in
        let deadline = u64 (now + tx_standby_timeout_us) in
        let P : Option (RequestResult × W) → Type 0 = λ o. After (StandsAfter written) o in
        if-preserves P (ltb max_packet_size (length packet))
          (λ large. absurd (ground (arith, large, fits)))
          (λ small.
            if-preserves P (not (dev.write packet w0).0)
              (λ unwritten. absurd (ground (arith, unwritten, done)))
              (λ taken.
                stand_by-Stands fuel deadline written w2 h2 e2
                  (medium.time_now_us_stays written).0.0
                  (ap (λ o. u64 (o + tx_standby_timeout_us)) (sym (s2 ∙ since)))))
