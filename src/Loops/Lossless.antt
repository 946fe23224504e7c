-- ===== src/Loops/Lossless.antt =====
-- What is relied on of the two radios while nothing is lost on the air between the coordinator
-- (nerfnet/net/primary_radio_interface.cc) and the peer.
use n_rf24_module.Prelude.{none, ℕ, ◌+◌, ◌<◌, ◌≤◌, ◌≡◌, true, false, List, [], u64}
use n_rf24_module.Driver.{Device, tx_standby_timeout_us}
use n_rf24_module.Driver.Timely.{send_fuel}
use n_rf24_module.Peer.Loop.{handle_packet}
use n_rf24_module.Loops.Heard.{After, Antenna}
use n_rf24_module.Loops.Medium.{Medium, Ready, Keeps-Ready}
use n_rf24_module.Loops.Speaks.{Loud}

-- What is relied on of the two radios in addition, where nothing is lost on the air: `calm` holds of
-- the outside from some time on. A packet that is written then is taken, the peer handles it, and its
-- answer stays until it is read. The radio is done with sending in the 20 ms that Send waits, counted
-- from `written_at`. How soon within its time an answer can be read is left open.
pub record Lossless {W : Type 0} {V : Type 0} (dev : Device W) (peer_dev : Device V)
    (antenna : Antenna peer_dev) (medium : Medium dev peer_dev antenna) : Type 1 where
  pub calm : W → Type 0
  pub written_at : W → ℕ
  pub write_answered :
      (packet : List ℕ) (w : W)
      → calm w
      → medium.on_air w ≡ none
      → let (written, w1) = dev.write packet w in
        (written ≡ true)
        × calm w1
        × (written_at w1 ≡ (dev.time_now_us w1).0)
        × ((fuel : ℕ) × (v : V) × (send_fuel ≤ fuel)
            × (antenna.sent v ≡ none)
            × After
                (λ (p2, v1). (medium.peer_of w1 ≡ p2) × (medium.on_air w1 ≡ antenna.sent v1))
                (handle_packet peer_dev fuel [] packet (medium.peer_of w) v))
  pub stand_by_in_time :
      (w : W)
      → calm w
      → (dev.tx_stand_by w).0 ≡ false
      → (dev.time_now_us (dev.tx_stand_by w).1).0 < u64 (written_at w + tx_standby_timeout_us)
  pub tx_stand_by_calm :
      (w : W)
      → calm w
      → let w1 = (dev.tx_stand_by w).1 in
        calm w1 × (medium.on_air w1 ≡ medium.on_air w) × (written_at w1 ≡ written_at w)
  pub time_now_us_calm :
      (w : W)
      → calm w
      → let w1 = (dev.time_now_us w).1 in
        calm w1 × (medium.on_air w1 ≡ medium.on_air w) × (written_at w1 ≡ written_at w)
  pub sleep_us_calm :
      (d : ℕ) (w : W)
      → calm w
      → let w1 = dev.sleep_us d w in
        calm w1 × (medium.on_air w1 ≡ medium.on_air w) × (written_at w1 ≡ written_at w)
  pub available_calm :
      (w : W)
      → calm w
      → let w1 = (dev.available w).1 in calm w1 × (medium.on_air w1 ≡ medium.on_air w)
  pub start_listening_calm :
      (w : W)
      → calm w
      → let w1 = dev.start_listening w in calm w1 × (medium.on_air w1 ≡ medium.on_air w)
  pub stop_listening_calm : (w : W) → calm w → calm (dev.stop_listening w)
  pub read_calm : (n : ℕ) (w : W) → calm w → calm (dev.read n w).1
  pub flush_rx_calm : (w : W) → calm w → calm (dev.flush_rx w)
  pub flush_tx_calm : (w : W) → calm w → calm (dev.flush_tx w)
  pub let_read_calm : (packet : List ℕ) (w : W) → calm w → calm (medium.let_read packet w)

module _ {W : Type 0} {V : Type 0} (dev : Device W) (peer_dev : Device V)
    (antenna : Antenna peer_dev) (medium : Medium dev peer_dev antenna)
    (loud : Loud peer_dev antenna) (lossless : Lossless dev peer_dev antenna medium) where
  open medium use {peer_of, on_air}
  open lossless use {calm, written_at}

  -- Between two exchanges.
  abbrev pub IsCalm : W → Type 0
  IsCalm w = calm w × Ready dev peer_dev antenna medium w

  pub slept-IsCalm : (d : ℕ) (w : W) → IsCalm w → IsCalm (dev.sleep_us d w)
  slept-IsCalm d w (h, ready) = (
    (lossless.sleep_us_calm d w h).0,
    Keeps-Ready dev peer_dev antenna medium w (dev.sleep_us d w) (medium.sleep_us_stays d w) ready,
  )

  pub now-IsCalm : (w : W) → IsCalm w → IsCalm (dev.time_now_us w).1
  now-IsCalm w (h, ready) = (
    (lossless.time_now_us_calm w h).0,
    Keeps-Ready dev peer_dev antenna medium w (dev.time_now_us w).1 (medium.time_now_us_stays w)
        ready,
  )
