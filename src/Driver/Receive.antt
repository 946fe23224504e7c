-- ===== src/Driver/Receive.antt =====
-- WaitForRxReady and Receive of nerfnet/net/radio_interface.cc.
use n_rf24_module.Prelude.{
  ℕ, zero, suc, ◌+◌, ◌-◌, not, List, Option, none, some, ltb, leb, ◌==◌, if◌then◌else◌, u64,
}
use n_rf24_module.Driver.{RequestResult, success, timeout, Device, Io, LineWait, LineRead}

module _ {W : Type 0} (dev : Device W) where
  -- The loop without an IRQ line. The clock is read only with a timeout.
  unfoldable pub poll_loop : ℕ → ℕ → ℕ → Io W RequestResult
  poll_loop zero start_us timeout_us w = none
  poll_loop (suc fuel) start_us timeout_us w =
      let (ready, w1) = dev.available w in
      let forever = poll_loop fuel start_us timeout_us (dev.sleep_us 50 w1) in
      let (now, w2) = dev.time_now_us w1 in
      let again = poll_loop fuel start_us timeout_us (dev.sleep_us 50 w2) in
      if ready
      then some (success, w1)
      else if timeout_us == 0
      then forever
      else if ltb (u64 (start_us + timeout_us)) now
      then some (timeout, w2)
      else again

  -- What a round of the IRQ loop does once it has waited.
  unfoldable pub after_wait : LineWait → W → Option (RequestResult × W) × W
  after_wait LineWait.interrupted w = (none, w)
  after_wait LineWait.failed w = (some (timeout, w), w)
  after_wait LineWait.no_event w = (some (timeout, w), w)
  after_wait LineWait.event w =
      let (result, w1) = dev.line_event_read w in
      elim result [
        | LineRead.event ↦ (none, w1)
        | LineRead.interrupted ↦ (none, w1)
        | LineRead.failed ↦ (some (timeout, w1), w1)
      ]

  -- The loop with an IRQ line. `timespec` splits the remaining microseconds without loss, so the
  -- wait gets their number.
  unfoldable pub irq_loop : ℕ → ℕ → Io W RequestResult
  unfolding after_wait
  irq_loop zero deadline_us w = none
  irq_loop (suc fuel) deadline_us w =
      let (ready, w1) = dev.available w in
      let (now, w2) = dev.time_now_us w1 in
      let (waited, w3) = dev.line_event_wait none w1 in
      let (done, w4) = after_wait waited w3 in
      let forever = irq_loop fuel deadline_us w4 in
      let (waited', w3') = dev.line_event_wait (some (deadline_us - now)) w2 in
      let (done', w4') = after_wait waited' w3' in
      let again = irq_loop fuel deadline_us w4' in
      if ready
      then some (success, w1)
      else if deadline_us == 0
      then elim done [ some r ↦ some r | none ↦ forever ]
      else if leb deadline_us now
      then some (timeout, w2)
      else elim done' [ some r ↦ some r | none ↦ again ]

  unfoldable pub wait_for_rx_ready : ℕ → ℕ → Io W RequestResult
  wait_for_rx_ready fuel timeout_us w =
      if not dev.has_irq_line
      then (let (start_us, w1) = dev.time_now_us w in poll_loop fuel start_us timeout_us w1)
      else if timeout_us == 0
      then irq_loop fuel 0 w
      else (let (now, w1) = dev.time_now_us w in irq_loop fuel (u64 (now + timeout_us)) w1)

  -- The bytes are those that `radio_.read` leaves in `response`, none where it is not reached.
  unfoldable pub receive : ℕ → ℕ → ℕ → W → Option (RequestResult × List ℕ × W)
  receive fuel size timeout_us w =
      elim (wait_for_rx_ready fuel timeout_us (dev.start_listening w)) [
        | none ↦ none
        | some (success, w1) ↦ let (response, w2) = dev.read size w1 in some (success, response, w2)
        | some (other, w1) ↦ some (other, List.[], w1)
      ]
