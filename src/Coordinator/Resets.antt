-- ===== src/Coordinator/Resets.antt =====
-- What ConnectionReset (nerfnet/net/primary_radio_interface.cc) leaves, and that it returns, over a
-- clock that goes on and without an IRQ line.
use n_rf24_module.Prelude.{
  append-nil, append_assoc, Returns, ℕ, ◌≤◌, ◌≡◌, inl, inr, refl, ap, ◌∙◌, Bool, false, List, [],
  ◌∷◌, ◌++◌, All, arith, some, none, subst, sym,
}
use n_rf24_module.Frame.{reset, empty_frame, max_packet_size}
use n_rf24_module.Frame.Codec.{encode_mac_frame}
use n_rf24_module.Frame.RoundTrip.{IsSendable, decode-encode}
use n_rf24_module.RadioInterface.{RadioInterface}
use n_rf24_module.RadioInterface.Transmit.{push_back}
use n_rf24_module.RadioInterface.Valid.{IsQueued, reset_link-IsValid}
use n_rf24_module.Driver.{RequestResult, Device, Clock, Reads}
use n_rf24_module.Driver.Send.{send}
use n_rf24_module.Driver.Receive.{receive}
use n_rf24_module.Driver.Timely.{send-returns, IsSendResult}
use n_rf24_module.Coordinator.{Coordinator, arrive}
use n_rf24_module.Coordinator.Exchange.{
  receive_timeout_us, reset_frame, cleared, finish_reset, connection_reset,
}
use n_rf24_module.Coordinator.Valid.{IsValid, with_link, arrive-IsValid}
use n_rf24_module.Coordinator.Frames.{control-IsSendable}
use n_rf24_module.Coordinator.Returns.{exchange_fuel, encode-size, Answer, Answer-returns}

pub reset_frame-IsSendable : IsSendable reset_frame
reset_frame-IsSendable =
    control-IsSendable reset 0 0 0 (inl refl) (omega arith) (omega arith) (omega arith)

pub cleared-IsValid : (c : Coordinator) → IsValid c → IsValid (cleared c)
cleared-IsValid c v = record {
  link = reset_link-IsValid c.radio v.link;
  matches = v.matches;
  required = v.required;
  backoff = v.backoff;
  streaks = v.streaks;
  burst = omega arith;
}

-- What ConnectionReset leaves before it sends, with the packets that are queued meanwhile.
abbrev pub waiting : List (List ℕ) → Coordinator → Coordinator
waiting on_air c = record (cleared c) { radio = arrive on_air (cleared c).radio }

pub waiting-IsValid :
    (on_air : List (List ℕ)) (c : Coordinator)
    → All IsQueued on_air
    → IsValid c
    → IsValid (waiting on_air c)
waiting-IsValid on_air c queued v =
    with_link (cleared c) (arrive on_air (cleared c).radio) c.counters false
      (arrive-IsValid on_air (cleared c).radio queued (cleared-IsValid c v).link)
      (cleared-IsValid c v)

-- The numbers of the link start anew, nothing is in flight and no packet half read; what the tunnel
-- thread has queued and what was written stays.
pub record IsFreshLink (on_air : List (List ℕ)) (r r1 : RadioInterface) : Type 0 where
  pub sends_from_1 : r1.next_tx_seq ≡ 1
  pub lands : r1.tx_in_flight ≡ false
  pub no_seq_in_flight : r1.tx_inflight_seq ≡ 0
  pub no_bytes_in_flight : r1.tx_inflight_bytes_left ≡ 0
  pub no_payload_in_flight : r1.tx_inflight_payload ≡ []
  pub nothing_received : r1.last_rx_seq ≡ none
  pub nothing_half_read : r1.frame_buffer ≡ []
  pub queue_stays : r1.read_buffer ≡ r.read_buffer ++ on_air
  pub written_stays : r1.tunnel_written ≡ r.tunnel_written

-- The coordinator knows nothing about the peer's wishes, and all else is as it was.
pub record StartsOver (on_air : List (List ℕ)) (c c1 : Coordinator) : Type 0 where
  pub link : IsFreshLink on_air c.radio c1.radio
  pub no_hint : c1.peer_has_pending ≡ false
  pub no_budget : c1.peer_grant_budget ≡ 0
  pub no_data_sent : c1.last_tx_was_data ≡ false
  pub no_burst : c1.consecutive_local_data_frames ≡ 0
  pub counters_stay : c1.counters ≡ c.counters
  pub intervals_stay :
      (c1.poll_interval_us ≡ c.poll_interval_us)
      × (c1.current_poll_interval_us ≡ c.current_poll_interval_us)
  pub failures_stay :
      (c1.poll_fail_count ≡ c.poll_fail_count)
      × (c1.send_fail_streak ≡ c.send_fail_streak)
      × (c1.timeout_fail_streak ≡ c.timeout_fail_streak)
  pub connection_stays :
      (c1.disconnected ≡ c.disconnected)
      × (c1.connection_reset_required ≡ c.connection_reset_required)
      × (c1.state ≡ c.state)
  pub times_stay :
      (c1.disconnect_backoff_us ≡ c.disconnect_backoff_us)
      × (c1.next_retry_time_us ≡ c.next_retry_time_us)
      × (c1.last_stat_print_us ≡ c.last_stat_print_us)

arrive-append :
    (ps : List (List ℕ)) (r : RadioInterface)
    → arrive ps r ≡ record r { read_buffer = r.read_buffer ++ ps }
arrive-append [] r = ap (λ o. record r { read_buffer = o }) (sym (append-nil r.read_buffer))
arrive-append (p ∷ ps) r =
    arrive-append ps (push_back p r)
    ∙ ap (λ o. record r { read_buffer = o }) (append_assoc r.read_buffer (p ∷ []) ps)

arrive-IsFreshLink :
    (on_air : List (List ℕ)) (c : Coordinator) → IsFreshLink on_air c.radio (waiting on_air c).radio
arrive-IsFreshLink on_air c =
    let r = (cleared c).radio in
    subst (λ o. IsFreshLink on_air c.radio o) (sym (arrive-append on_air r))
      (record {
        sends_from_1 = refl;
        lands = refl;
        no_seq_in_flight = refl;
        no_bytes_in_flight = refl;
        no_payload_in_flight = refl;
        nothing_received = refl;
        nothing_half_read = refl;
        queue_stays = refl;
        written_stays = refl;
      })

waiting-StartsOver :
    (on_air : List (List ℕ)) (c : Coordinator) → StartsOver on_air c (waiting on_air c)
waiting-StartsOver on_air c = record {
  link = arrive-IsFreshLink on_air c;
  no_hint = refl;
  no_budget = refl;
  no_data_sent = refl;
  no_burst = refl;
  counters_stay = refl;
  intervals_stay = (refl, refl);
  failures_stay = (refl, refl, refl);
  connection_stays = (refl, refl, refl);
  times_stay = (refl, refl, refl);
}

module _ {W : Type 0} (dev : Device W) where
  -- What ConnectionReset leaves, whether it succeeds or not.
  abbrev pub IsCleared : List (List ℕ) → Coordinator → Bool × Coordinator × W → Type 0
  IsCleared on_air c out = out.1 ≡ waiting on_air c

  finish_reset-IsCleared :
      (response : List ℕ) (c : Coordinator) (w : W) → (finish_reset dev response c w).1 ≡ c
  unfolding finish_reset
  finish_reset-IsCleared response c w = ground arith

  module _ (fuel : ℕ) (on_air : List (List ℕ)) (c : Coordinator) (w : W) where
    abbrev pub start : W
    start = dev.flush_tx (dev.flush_rx w)

    abbrev pub request : List ℕ
    request = (encode_mac_frame reset_frame).1

    pub reset-answered :
        (w1 w2 : W) (response : List ℕ)
        → send dev fuel request start ≡ some (RequestResult.success, w1)
        → receive dev fuel max_packet_size receive_timeout_us w1
          ≡ some (RequestResult.success, response, w2)
        → connection_reset dev fuel on_air c w
          ≡ some (finish_reset dev response (waiting on_air c) w2)
    unfolding connection_reset
    reset-answered w1 w2 response s r =
        rw ((decode-encode reset_frame empty_frame reset_frame-IsSendable).0, s, r) refl

    reset-silent :
        (w1 w2 : W)
        → send dev fuel request start ≡ some (RequestResult.success, w1)
        → receive dev fuel max_packet_size receive_timeout_us w1
          ≡ some (RequestResult.timeout, [], w2)
        → connection_reset dev fuel on_air c w ≡ some (false, waiting on_air c, w2)
    unfolding connection_reset
    reset-silent w1 w2 s r =
        rw ((decode-encode reset_frame empty_frame reset_frame-IsSendable).0, s, r) refl

    reset-unsent :
        (w1 : W)
        → send dev fuel request start ≡ some (RequestResult.transmit_error, w1)
        → connection_reset dev fuel on_air c w ≡ some (false, waiting on_air c, w1)
    unfolding connection_reset
    reset-unsent w1 s =
        rw ((decode-encode reset_frame empty_frame reset_frame-IsSendable).0, s) refl

module _ {W : Type 0} (dev : Device W) (clock : Clock dev) (reads : Reads dev)
    (polls : dev.has_irq_line ≡ false) (fuel : ℕ) (enough : exchange_fuel ≤ fuel)
    (on_air : List (List ℕ)) where
  reset-sent :
      (c : Coordinator) (w w1 : W)
      → send dev fuel (request dev fuel on_air c w) (start dev fuel on_air c w)
        ≡ some (RequestResult.success, w1)
      → Answer dev clock reads polls fuel enough w1
      → Returns (IsCleared dev on_air c) (connection_reset dev fuel on_air c w)
  reset-sent c w w1 sent (r, response, w2, e, inl (k, size, bytes)) = (
    finish_reset dev response (waiting on_air c) w2,
    reset-answered dev fuel on_air c w w1 w2 response sent (e ∙ ap (λ o. some (o, response, w2)) k),
    finish_reset-IsCleared dev response (waiting on_air c) w2,
  )
  reset-sent c w w1 sent (r, response, w2, e, inr (k, none_read)) = (
    (false, waiting on_air c, w2),
    reset-silent dev fuel on_air c w w1 w2 sent (
        e
        ∙ (ap (λ o. some (o, response, w2)) k
            ∙ ap (λ o. some (RequestResult.timeout, o, w2)) none_read)),
    refl,
  )

  reset_result :
      (c : Coordinator) (w w1 : W) (r : RequestResult)
      → send dev fuel (request dev fuel on_air c w) (start dev fuel on_air c w) ≡ some (r, w1)
      → IsSendResult (request dev fuel on_air c w) r
      → Returns (IsCleared dev on_air c) (connection_reset dev fuel on_air c w)
  reset_result c w w1 RequestResult.success sent k =
      reset-sent c w w1 sent (Answer-returns dev clock reads polls fuel enough w1)
  reset_result c w w1 RequestResult.timeout sent k = absurd k
  reset_result c w w1 RequestResult.malformed sent k =
      absurd (omega (arith, k, encode-size reset_frame reset_frame-IsSendable))
  reset_result c w w1 RequestResult.transmit_error sent k =
      ((false, waiting on_air c, w1), reset-unsent dev fuel on_air c w w1 sent, refl)

  pub reset-IsCleared :
      (c : Coordinator) (w : W)
      → Returns (IsCleared dev on_air c) (connection_reset dev fuel on_air c w)
  reset-IsCleared c w =
      let (r, w1, e, k) =
        send-returns dev clock fuel (request dev fuel on_air c w) (start dev fuel on_air c w)
          (omega (arith, enough)) in
      reset_result c w w1 r e k

  -- ConnectionReset returns, with fuel for 2002 rounds of a loop or more, and on success and on
  -- every failure alike the link's numbers start anew, no fragment is in flight and no packet half
  -- put together, and the peer's hint, its budget, the mark that DATA was sent last and the count of
  -- DATA frames are cleared. The queue holds what it held, then the packets that the tunnel thread
  -- queues meanwhile; the counters, the failure streaks, the state, the intervals and the times are
  -- as they were. The clock must go on, the radio fill its buffer with bytes, and no IRQ line be in
  -- use.
  pub reset-Returns :
      (c : Coordinator) (w : W)
      → Returns (λ out. StartsOver on_air c out.1) (connection_reset dev fuel on_air c w)
  reset-Returns c w =
      let (out, e, k) = reset-IsCleared c w in
      (out, e, subst (λ o. StartsOver on_air c o) (sym k) (waiting-StartsOver on_air c))
