-- ===== src/Coordinator/Kept.antt =====
-- What ChooseCoordinatorTxFrame, ApplyPeerResponse and the end of PerformExchange
-- (nerfnet/net/primary_radio_interface.cc) keep of a connected node.
use n_rf24_module.Prelude.{
  ℕ, ◌<◌, ◌≡◌, inl, inr, Bool, true, false, ◌||◌, List, arith, All, if◌then◌else◌, length,
}
use n_rf24_module.Frame.{FrameType, MacFrame, empty_frame, max_packet_size}
use n_rf24_module.Frame.Codec.{is_data, decode_mac_frame}
use n_rf24_module.Frame.RoundTrip.{IsByte, decode-IsSendable}
use n_rf24_module.Driver.{Device}
use n_rf24_module.Coordinator.{
  ExchangeResult, success, protocol_failure, Coordinator, post_data_exchange_gap_us,
}
use n_rf24_module.Coordinator.Choose.{choose_in, choose_coordinator_tx_frame}
use n_rf24_module.Coordinator.Apply.{apply_peer_response}
use n_rf24_module.Coordinator.Exchange.{
  count_data_frames, count_idle, finish_exchange, answer_exchange,
}
use n_rf24_module.Coordinator.Valid.{IsValid, with_link}
use n_rf24_module.Coordinator.Steps.{apply-IsValid}

abbrev pub IsConnected : Coordinator → Type 0
IsConnected c = (c.disconnected ≡ false) × (c.connection_reset_required ≡ false)

pub choose-IsConnected :
    (arrivals : List (List ℕ)) (c : Coordinator)
    → IsConnected c
    → IsConnected (choose_coordinator_tx_frame arrivals c).2
unfolding choose_coordinator_tx_frame choose_in
choose-IsConnected arrivals c h = ground arith

apply-IsConnected :
    (rx : MacFrame) (c : Coordinator) → IsConnected c → IsConnected (apply_peer_response rx c).1
unfolding apply_peer_response
apply-IsConnected rx c h = ground arith

count_data_frames-lt :
    (applied : Bool) (t r : FrameType) (n : ℕ) → n < 256 → count_data_frames applied t r n < 256
count_data_frames-lt applied t r n h = ground arith

with_burst :
    (c : Coordinator) (n : ℕ)
    → n < 256
    → IsValid c
    → IsValid (record c { consecutive_local_data_frames = n })
with_burst c n h v = record {
  link = v.link;
  matches = v.matches;
  required = v.required;
  backoff = v.backoff;
  streaks = v.streaks;
  burst = h;
}

module _ {W : Type 0} (dev : Device W) where
  abbrev pub IsKept : ExchangeResult × Coordinator × W → Type 0
  IsKept out = IsValid out.1 × IsConnected out.1

  if_IsKept :
      (applied carried : Bool) (c : Coordinator) (w w' : W)
      → IsValid c
      → IsConnected c
      → IsKept (
          if applied
          then (if carried then (success, c, w') else (success, c, w))
          else (protocol_failure, c, w))
  if_IsKept true true c w w' v h = (v, h)
  if_IsKept true false c w w' v h = (v, h)
  if_IsKept false carried c w w' v h = (v, h)

  finish_exchange-IsKept :
      (tx rx : MacFrame) (c : Coordinator) (w : W)
      → IsByte rx.seq
      → IsValid c
      → IsConnected c
      → IsKept (finish_exchange dev tx rx c w)
  unfolding finish_exchange
  finish_exchange-IsKept tx rx c w b v h =
      let counted = record c { counters = count_idle tx.type rx.type c.counters } in
      let v1 = with_link c c.radio counted.counters c.last_tx_was_data v.link v in
      let (applied, c1) = apply_peer_response rx counted in
      let connected = apply-IsConnected rx counted h in
      let n = count_data_frames applied tx.type rx.type c1.consecutive_local_data_frames in
      let kept = apply-IsValid rx counted h.1 b v1 in
      let v2 =
        with_burst c1 n
          (count_data_frames-lt applied tx.type rx.type c1.consecutive_local_data_frames kept.burst)
          kept in
      if_IsKept applied (is_data tx.type || is_data rx.type)
        (record c1 { consecutive_local_data_frames = n }) w
        (dev.sleep_us post_data_exchange_gap_us w) v2 connected

  pub answer_exchange-IsKept :
      (tx : MacFrame) (response : List ℕ) (c : Coordinator) (w : W)
      → length response ≡ max_packet_size
      → All IsByte response
      → IsValid c
      → IsConnected c
      → IsKept (answer_exchange dev tx response c w)
  unfolding answer_exchange
  answer_exchange-IsKept tx response c w size bytes v h =
      elim (decode-IsSendable response empty_frame bytes) [
        | inl (_, decoded, sendable) ↦ rw decoded (
            finish_exchange-IsKept tx (decode_mac_frame response empty_frame).1 c w
              sendable.seq_byte v h)
        | inr (odd, _) ↦ absurd (odd size)
      ]
