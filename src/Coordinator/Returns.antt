-- ===== src/Coordinator/Returns.antt =====
-- ConnectionReset and PerformExchange of nerfnet/net/primary_radio_interface.cc return, and keep the
-- invariant, over a clock that goes on and without an IRQ line.
use n_rf24_module.Prelude.{
  Returns, ℕ, ◌≤◌, ◌≡◌, inl, inr, refl, ap, ◌∙◌, true, false, List, [], arith, All, some, length,
}
use n_rf24_module.Frame.{MacFrame, empty_frame, max_packet_size}
use n_rf24_module.Frame.Codec.{encode_mac_frame, decode_mac_frame}
use n_rf24_module.Frame.RoundTrip.{IsSendable, decode-encode}
use n_rf24_module.RadioInterface.Valid.{IsQueued}
use n_rf24_module.Driver.{RequestResult, Device, Clock, Reads}
use n_rf24_module.Driver.Send.{send}
use n_rf24_module.Driver.Receive.{receive}
use n_rf24_module.Driver.Timely.{send-returns, IsSendResult}
use n_rf24_module.Driver.Waiting.{receive-returns, ReceiveReturns}
use n_rf24_module.Coordinator.{send_failure, timeout_failure, Coordinator, arrive}
use n_rf24_module.Coordinator.Choose.{choose_coordinator_tx_frame}
use n_rf24_module.Coordinator.Exchange.{
  receive_timeout_us, count_send_failure, count_timeout, answer_exchange, transmit,
  perform_exchange,
}
use n_rf24_module.Coordinator.Valid.{IsValid, with_link, arrive-IsValid}
use n_rf24_module.Coordinator.Frames.{choose-Good}
use n_rf24_module.Coordinator.Kept.{IsConnected, IsKept, choose-IsConnected, answer_exchange-IsKept}

-- Fuel for the loops of Send and of a Receive of 100 ms.
abbrev pub exchange_fuel : ℕ
exchange_fuel = 2002

module _ {W : Type 0} (dev : Device W) where
  module _ (fuel : ℕ) (on_air : List (List ℕ)) (tx : MacFrame) (c : Coordinator) (w : W) where
    abbrev pub request : List ℕ
    request = (encode_mac_frame tx).1

    abbrev pub queued : Coordinator
    queued = record c { radio = arrive on_air c.radio }

    pub transmit-answered :
        (w1 w2 : W) (response : List ℕ)
        → (encode_mac_frame tx).0 ≡ true
        → send dev fuel request w ≡ some (RequestResult.success, w1)
        → receive dev fuel max_packet_size receive_timeout_us w1
          ≡ some (RequestResult.success, response, w2)
        → transmit dev fuel on_air tx c w ≡ some (answer_exchange dev tx response queued w2)
    unfolding transmit
    transmit-answered w1 w2 response e s r = rw (e, s, r) refl

    transmit-silent :
        (w1 w2 : W)
        → (encode_mac_frame tx).0 ≡ true
        → send dev fuel request w ≡ some (RequestResult.success, w1)
        → receive dev fuel max_packet_size receive_timeout_us w1
          ≡ some (RequestResult.timeout, [], w2)
        → transmit dev fuel on_air tx c w
          ≡ some (timeout_failure, record queued { counters = count_timeout c.counters }, w2)
    unfolding transmit
    transmit-silent w1 w2 e s r = rw (e, s, r) refl

    transmit-unsent :
        (w1 : W)
        → (encode_mac_frame tx).0 ≡ true
        → send dev fuel request w ≡ some (RequestResult.transmit_error, w1)
        → transmit dev fuel on_air tx c w
          ≡ some
              (send_failure, record queued { counters = count_send_failure tx.type c.counters }, w1)
    unfolding transmit
    transmit-unsent w1 e s = rw (e, s) refl

decoded-size :
    (p : List ℕ) (f : MacFrame)
    → decode_mac_frame p empty_frame ≡ (true, f)
    → length p ≡ max_packet_size
unfolding decode_mac_frame
decoded-size p f e = ground arith

pub encode-size : (f : MacFrame) → IsSendable f → length (encode_mac_frame f).1 ≡ max_packet_size
encode-size f s = decoded-size (encode_mac_frame f).1 f (decode-encode f empty_frame s).1

module _ {W : Type 0} (dev : Device W) (clock : Clock dev) (reads : Reads dev)
    (polls : dev.has_irq_line ≡ false) (fuel : ℕ) (enough : exchange_fuel ≤ fuel) where
  abbrev pub Answer : W → Type 0
  Answer w =
      ReceiveReturns dev clock max_packet_size
        (receive dev fuel max_packet_size receive_timeout_us w)

  pub Answer-returns : (w : W) → Answer w
  Answer-returns w =
      receive-returns dev clock fuel max_packet_size receive_timeout_us w (omega (arith, enough))
        reads polls (omega arith)

  module _ (on_air : List (List ℕ)) (bytes_queued : All IsQueued on_air) (tx : MacFrame)
      (sendable : IsSendable tx) (c : Coordinator) (v : IsValid c) (h : IsConnected c) where
    abbrev c1 : Coordinator
    c1 = record c { radio = arrive on_air c.radio }

    c1-IsValid : IsValid c1
    c1-IsValid =
        with_link c (arrive on_air c.radio) c.counters c.last_tx_was_data
          (arrive-IsValid on_air c.radio bytes_queued v.link) v

    transmit-sent :
        (w w1 : W)
        → send dev fuel (encode_mac_frame tx).1 w ≡ some (RequestResult.success, w1)
        → Answer w1
        → Returns (IsKept dev) (transmit dev fuel on_air tx c w)
    transmit-sent w w1 sent (r, response, w2, e, inl (k, size, bytes)) = (
      answer_exchange dev tx response c1 w2,
      transmit-answered dev fuel on_air tx c w w1 w2 response
          (decode-encode tx empty_frame sendable).0 sent (e ∙ ap (λ o. some (o, response, w2)) k),
      answer_exchange-IsKept dev tx response c1 w2 size bytes c1-IsValid h,
    )
    transmit-sent w w1 sent (r, response, w2, e, inr (k, none_read)) = (
      (timeout_failure, record c1 { counters = count_timeout c.counters }, w2),
      transmit-silent dev fuel on_air tx c w w1 w2 (decode-encode tx empty_frame sendable).0 sent (
          e
          ∙ (ap (λ o. some (o, response, w2)) k
              ∙ ap (λ o. some (RequestResult.timeout, o, w2)) none_read)),
      (
        with_link c1 c1.radio (count_timeout c.counters) c.last_tx_was_data c1-IsValid.link
            c1-IsValid,
        h,
      ),
    )

    transmit_result :
        (w w1 : W) (r : RequestResult)
        → send dev fuel (encode_mac_frame tx).1 w ≡ some (r, w1)
        → IsSendResult (encode_mac_frame tx).1 r
        → Returns (IsKept dev) (transmit dev fuel on_air tx c w)
    transmit_result w w1 RequestResult.success sent k = transmit-sent w w1 sent (Answer-returns w1)
    transmit_result w w1 RequestResult.timeout sent k = absurd k
    transmit_result w w1 RequestResult.malformed sent k =
        absurd (omega (arith, k, encode-size tx sendable))
    transmit_result w w1 RequestResult.transmit_error sent k = (
      (send_failure, record c1 { counters = count_send_failure tx.type c.counters }, w1),
      transmit-unsent dev fuel on_air tx c w w1 (decode-encode tx empty_frame sendable).0 sent,
      (with_link c1 c1.radio _ c.last_tx_was_data c1-IsValid.link c1-IsValid, h),
    )

    transmit-Returns : (w : W) → Returns (IsKept dev) (transmit dev fuel on_air tx c w)
    transmit-Returns w =
        let (r, w1, e, k) =
          send-returns dev clock fuel (encode_mac_frame tx).1 w (omega (arith, enough)) in
        transmit_result w w1 r e k

  -- In a valid state of a connected node, PerformExchange returns, with fuel for 2002 rounds of a
  -- loop or more, whatever the peer answers and whatever packets of bytes, none of them empty, the
  -- tunnel thread queues meanwhile, and leaves a valid state of a connected node. The clock must
  -- go on, the radio fill its buffer with bytes, and no IRQ line be in use.
  pub perform-Returns :
      (arrivals on_air : List (List ℕ)) (c : Coordinator) (w : W)
      → All IsQueued arrivals
      → All IsQueued on_air
      → IsValid c
      → IsConnected c
      → Returns (IsKept dev) (perform_exchange dev fuel arrivals on_air c w)
  unfolding perform_exchange
  perform-Returns arrivals on_air c w ha hb v h =
      let (chosen, sendable, kept) = choose-Good arrivals c ha v in
      let (_, tx, c1) = choose_coordinator_tx_frame arrivals c in
      rw chosen (transmit-Returns on_air hb tx sendable c1 kept (choose-IsConnected arrivals c h) w)
