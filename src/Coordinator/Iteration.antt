-- ===== src/Coordinator/Iteration.antt =====
-- One iteration of Run (nerfnet/net/primary_radio_interface.cc) returns and keeps the invariant,
-- over a clock that goes on and without an IRQ line.
use n_rf24_module.Prelude.{
  Returns, ℕ, ◌≤◌, ◌≡◌, refl, ap, ◌∙◌, sym, Bool, true, false, List, All, Option, some, ltb,
  if-preserves, subst,
}
use n_rf24_module.RadioInterface.Valid.{IsQueued}
use n_rf24_module.Driver.{Device, Clock, Reads}
use n_rf24_module.Coordinator.{
  ExchangeResult, success, send_failure, timeout_failure, protocol_failure, Coordinator, arrive,
  FailureType,
}
use n_rf24_module.Coordinator.Exchange.{connection_reset, perform_exchange}
use n_rf24_module.Coordinator.Failure.{handle_transaction_failure}
use n_rf24_module.Coordinator.Loop.{
  reconnected, count_reset_failure, back_off, poll_interval, retry_connection, require_connection,
  settle, exchange_and_settle, run_iteration, stat_time,
}
use n_rf24_module.Coordinator.Valid.{IsValid, with_link, arrive-IsValid}
use n_rf24_module.Coordinator.Steps.{
  handle-IsValid, with_stat_time, with_interval, recovered-IsValid, reconnected-IsValid,
  back_off-IsValid,
}
use n_rf24_module.Coordinator.Kept.{IsConnected}
use n_rf24_module.Coordinator.Returns.{exchange_fuel, perform-Returns}
use n_rf24_module.Coordinator.Resets.{waiting, waiting-IsValid, reset-IsCleared}

module _ {W : Type 0} (dev : Device W) where
  settle-IsValid :
      (r : ExchangeResult) (c : Coordinator) (w : W)
      → c.disconnected ≡ false
      → IsValid c
      → IsValid (settle dev r c w).0
  unfolding settle
  settle-IsValid success c w h v = recovered-IsValid c v
  settle-IsValid send_failure c w h v = handle-IsValid dev FailureType.send c w h v
  settle-IsValid timeout_failure c w h v = handle-IsValid dev FailureType.timeout c w h v
  settle-IsValid protocol_failure c w h v = handle-IsValid dev FailureType.protocol c w h v

  -- A state of Run's loop, with the outside.
  abbrev pub StaysValid : Coordinator × W → Type 0
  StaysValid out = IsValid out.0

  module _ (fuel : ℕ) (on_air : List (List ℕ)) (c c1 : Coordinator) (w w1 : W) where
    pub settled :
        (arrivals : List (List ℕ)) (r : ExchangeResult)
        → perform_exchange dev fuel arrivals on_air c w ≡ some (r, c1, w1)
        → exchange_and_settle dev fuel arrivals on_air c w ≡ (
            let (c2, w2) = settle dev r c1 w1 in
            let (now_us, w3) = dev.time_now_us w2 in
            some (record c2 { last_stat_print_us = stat_time now_us c2.last_stat_print_us }, w3))
    unfolding exchange_and_settle
    settled arrivals r e = rw (e, exchange_and_settle) refl

    retried :
        connection_reset dev fuel on_air c w ≡ some (true, c1, w1)
        → retry_connection dev fuel on_air c w ≡ some (reconnected c1, w1)
    unfolding retry_connection
    retried e = rw (e, retry_connection) refl

    not_retried :
        connection_reset dev fuel on_air c w ≡ some (false, c1, w1)
        → retry_connection dev fuel on_air c w ≡ (
            let (now_us, w2) = dev.time_now_us w1 in
            some (back_off now_us (count_reset_failure c1), w2))
    unfolding retry_connection
    not_retried e = rw (e, retry_connection) refl

    pub connected :
        connection_reset dev fuel on_air c w ≡ some (true, c1, w1)
        → require_connection dev fuel on_air c w ≡ some (reconnected c1, w1)
    unfolding require_connection
    connected e = rw (e, require_connection) refl

    not_connected :
        connection_reset dev fuel on_air c w ≡ some (false, c1, w1)
        → require_connection dev fuel on_air c w
          ≡ some (handle_transaction_failure dev FailureType.protocol (count_reset_failure c1) w1)
    unfolding require_connection
    not_connected e = rw (e, require_connection) refl

module _ {W : Type 0} (dev : Device W) (clock : Clock dev) (reads : Reads dev)
    (polls : dev.has_irq_line ≡ false) (fuel : ℕ) (enough : exchange_fuel ≤ fuel) where
  count_reset-IsValid :
      (on_air : List (List ℕ)) (c c1 : Coordinator)
      → All IsQueued on_air
      → IsValid c
      → c1 ≡ waiting on_air c
      → IsValid (count_reset_failure c1)
  count_reset-IsValid on_air c c1 q v e =
      let c2 = waiting on_air c in
      let v2 = waiting-IsValid on_air c q v in
      subst (λ o. IsValid (count_reset_failure o)) (sym e)
        (with_link c2 c2.radio _ c2.last_tx_was_data v2.link v2)

  retry_result :
      (on_air : List (List ℕ)) (ok : Bool) (c c1 : Coordinator) (w w1 : W)
      → All IsQueued on_air
      → IsValid c
      → connection_reset dev fuel on_air c w ≡ some (ok, c1, w1)
      → c1 ≡ waiting on_air c
      → Returns (StaysValid dev) (retry_connection dev fuel on_air c w)
  retry_result on_air true c c1 w w1 q v e k = (
    (reconnected c1, w1),
    retried dev fuel on_air c c1 w w1 e,
    reconnected-IsValid c1 (subst IsValid (sym k) (waiting-IsValid on_air c q v)),
  )
  retry_result on_air false c c1 w w1 q v e k =
      let (now_us, w2) = dev.time_now_us w1 in
      (
        (back_off now_us (count_reset_failure c1), w2),
        not_retried dev fuel on_air c c1 w w1 e,
        back_off-IsValid now_us (count_reset_failure c1) (count_reset-IsValid on_air c c1 q v k),
      )

  require_result :
      (on_air : List (List ℕ)) (ok : Bool) (c c1 : Coordinator) (w w1 : W)
      → All IsQueued on_air
      → c.disconnected ≡ false
      → IsValid c
      → connection_reset dev fuel on_air c w ≡ some (ok, c1, w1)
      → c1 ≡ waiting on_air c
      → Returns (StaysValid dev) (require_connection dev fuel on_air c w)
  require_result on_air true c c1 w w1 q h v e k = (
    (reconnected c1, w1),
    connected dev fuel on_air c c1 w w1 e,
    reconnected-IsValid c1 (subst IsValid (sym k) (waiting-IsValid on_air c q v)),
  )
  require_result on_air false c c1 w w1 q h v e k = (
    handle_transaction_failure dev FailureType.protocol (count_reset_failure c1) w1,
    not_connected dev fuel on_air c c1 w w1 e,
    handle-IsValid dev FailureType.protocol (count_reset_failure c1) w1
        (ap (λ o. o.disconnected) k ∙ h) (count_reset-IsValid on_air c c1 q v k),
  )

  exchange-Returns :
      (arrivals on_air : List (List ℕ)) (c : Coordinator) (w : W)
      → All IsQueued arrivals
      → All IsQueued on_air
      → IsValid c
      → IsConnected c
      → Returns (StaysValid dev) (exchange_and_settle dev fuel arrivals on_air c w)
  exchange-Returns arrivals on_air c w ha hb v h =
      let ((r, c1, w1), e, (kept, still)) =
        perform-Returns dev clock reads polls fuel enough arrivals on_air c w ha hb v h in
      let (c2, w2) = settle dev r c1 w1 in
      let (now_us, w3) = dev.time_now_us w2 in
      (
        (record c2 { last_stat_print_us = stat_time now_us c2.last_stat_print_us }, w3),
        settled dev fuel on_air c c1 w w1 arrivals r e,
        with_stat_time c2 _ (settle-IsValid dev r c1 w1 still.0 kept),
      )

  retry-Returns :
      (on_air : List (List ℕ)) (c : Coordinator) (w : W)
      → All IsQueued on_air
      → IsValid c
      → Returns (StaysValid dev) (retry_connection dev fuel on_air c w)
  retry-Returns on_air c w q v =
      let ((ok, c1, w1), e, k) = reset-IsCleared dev clock reads polls fuel enough on_air c w in
      retry_result on_air ok c c1 w w1 q v e k

  require-Returns :
      (on_air : List (List ℕ)) (c : Coordinator) (w : W)
      → All IsQueued on_air
      → c.disconnected ≡ false
      → IsValid c
      → Returns (StaysValid dev) (require_connection dev fuel on_air c w)
  require-Returns on_air c w q h v =
      let ((ok, c1, w1), e, k) = reset-IsCleared dev clock reads polls fuel enough on_air c w in
      require_result on_air ok c c1 w w1 q h v e k

  -- One iteration of Run's loop returns from every valid state, with fuel for 2002 rounds of a
  -- loop or more, whatever the peer answers and whatever packets of bytes, none of them empty, the
  -- tunnel thread queues meanwhile, and leaves a valid state. The clock must go on, the radio fill
  -- its buffer with bytes, and no IRQ line be in use.
  pub run_iteration-Returns :
      (arrivals on_air : List (List ℕ)) (c : Coordinator) (w : W)
      → All IsQueued arrivals
      → All IsQueued on_air
      → IsValid c
      → Returns (StaysValid dev) (run_iteration dev fuel arrivals on_air c w)
  unfolding run_iteration
  run_iteration-Returns arrivals on_air c w ha hb v =
      let Kept : Option (Coordinator × W) → Type 0 = λ o. Returns (StaysValid dev) o in
      let (now_us, w0) = dev.time_now_us w in
      let c1 = record c { current_poll_interval_us = poll_interval c } in
      let w1 = dev.sleep_us (poll_interval c) w0 in
      let v1 = with_interval c (poll_interval c) v in
      if-preserves Kept c.disconnected
        (λ gone.
          if-preserves Kept (ltb now_us c.next_retry_time_us)
            (λ early. (
              (record c { radio = arrive on_air c.radio }, dev.sleep_us 1000 w0),
              refl,
              with_link c (arrive on_air c.radio) c.counters c.last_tx_was_data
                  (arrive-IsValid on_air c.radio hb v.link) v,
            ))
            (λ due. retry-Returns on_air c w0 hb v))
        (λ here.
          if-preserves Kept c.connection_reset_required
            (λ wanted. require-Returns on_air c1 w1 hb here v1)
            (λ free. exchange-Returns arrivals on_air c1 w1 ha hb v1 (here, free)))
