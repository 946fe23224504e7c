-- ===== src/Driver/Waiting.antt =====
-- Receive of nerfnet/net/radio_interface.cc ends where it polls with a timeout.
use n_rf24_module.Prelude.{
  ℕ, Option, zero, suc, ◌+◌, ◌-◌, ◌*◌, ◌/◌, ◌≤◌, ◌<◌, ◌≡◌, ◌∙◌, ◌⊎◌, inl, inr, refl, true, false,
  List, [], some, arith, ltb, lt→ltb, Bool-cases, u64, length, ◌==◌, All,
}
use n_rf24_module.Driver.{
  RequestResult, success, timeout, malformed, transmit_error, Device, Clock, Reads,
}
use n_rf24_module.Driver.Receive.{poll_loop, wait_for_rx_ready, receive}

-- One round of the polling loop for every 50 microseconds of the timeout, and two more.
abbrev pub poll_fuel : ℕ → ℕ
poll_fuel timeout_us = timeout_us / 50 + 2

module _ {W : Type 0} (dev : Device W) where
  pub wait-polls :
      (fuel timeout_us : ℕ) (w : W)
      → dev.has_irq_line ≡ false
      → let (start_us, w1) = dev.time_now_us w in
        wait_for_rx_ready dev fuel timeout_us w ≡ poll_loop dev fuel start_us timeout_us w1
  unfolding wait_for_rx_ready
  wait-polls fuel timeout_us w polls = ground arith

module _ {W : Type 0} (dev : Device W) (c : Clock dev) where
  open c use {clock, now_is, now_later, available_later, sleep_later}

  poll_clock :
      (w : W)
      → let w1 = (dev.available w).1 in
        let (now, w2) = dev.time_now_us w1 in
        (clock w ≤ now) × (clock w + 50 ≤ clock (dev.sleep_us 50 w2))
  poll_clock w =
      let w1 = (dev.available w).1 in
      let w2 = (dev.time_now_us w1).1 in
      (
        omega (arith, now_is w1, available_later w),
        omega (arith, now_later w1, available_later w, sleep_later 50 w2),
      )

  abbrev pub WaitReturns : Option (RequestResult × W) → Type 0
  WaitReturns out =
      (r : RequestResult) × (w' : W) × (out ≡ some (r, w')) × ((r ≡ success) ⊎ (r ≡ timeout))

  poll_again :
      (fuel start_us timeout_us : ℕ) (w : W)
      → let w1 = (dev.available w).1 in
        let (now, w2) = dev.time_now_us w1 in
        (timeout_us == 0) ≡ false
        → (dev.available w).0 ≡ false
        → ltb (u64 (start_us + timeout_us)) now ≡ false
        → poll_loop dev (suc fuel) start_us timeout_us w
          ≡ poll_loop dev fuel start_us timeout_us (dev.sleep_us 50 w2)
  unfolding poll_loop
  poll_again fuel start_us timeout_us w limited not_ready early = rw (not_ready, limited, early)

  poll_loop-returns :
      (fuel start_us timeout_us : ℕ) (w : W)
      → (timeout_us == 0) ≡ false
      → u64 (start_us + timeout_us) < clock w + 50 * fuel
      → WaitReturns (poll_loop dev (suc fuel) start_us timeout_us w)
  unfolding poll_loop
  poll_loop-returns zero start_us timeout_us w limited h =
      let w1 = (dev.available w).1 in
      let (now, w2) = dev.time_now_us w1 in
      let late : ltb (u64 (start_us + timeout_us)) now ≡ true =
        lt→ltb (u64 (start_us + timeout_us)) now (omega (arith, poll_clock w)) in
      elim (Bool-cases (dev.available w).0) [
        | inl ready ↦ (success, w1, rw ready, inl refl)
        | inr not_ready ↦ (timeout, w2, rw (not_ready, limited, late), inr refl)
      ]
  poll_loop-returns (suc fuel) start_us timeout_us w limited h =
      let w1 = (dev.available w).1 in
      let (now, w2) = dev.time_now_us w1 in
      let (r, w', e, k) =
        poll_loop-returns fuel start_us timeout_us (dev.sleep_us 50 w2) limited
          (omega (arith, poll_clock w)) in
      elim (Bool-cases (dev.available w).0) [
        | inl ready ↦ (success, w1, rw ready, inl refl)
        | inr not_ready ↦ elim (Bool-cases (ltb (u64 (start_us + timeout_us)) now)) [
          | inl late ↦ (timeout, w2, rw (not_ready, limited, late), inr refl)
          | inr early ↦
              (r, w', poll_again (suc fuel) start_us timeout_us w limited not_ready early ∙ e, k)
        ]
      ]

  wait-returns :
      (fuel timeout_us : ℕ) (w : W)
      → poll_fuel timeout_us ≤ fuel
      → dev.has_irq_line ≡ false
      → 0 < timeout_us
      → WaitReturns (wait_for_rx_ready dev fuel timeout_us w)
  wait-returns fuel timeout_us w enough polls pos =
      let (start_us, w1) = dev.time_now_us w in
      let more : fuel ≡ suc (fuel - 1) = omega arith in
      rw (wait-polls dev fuel timeout_us w polls, more)
        (poll_loop-returns (fuel - 1) start_us timeout_us w1 (ground arith)
          (omega (arith, now_is w, now_later w)))

  -- Success with `size` bytes, or Timeout with none.
  abbrev pub ReceiveReturns : ℕ → Option (RequestResult × List ℕ × W) → Type 0
  ReceiveReturns size out =
      (r : RequestResult) × (response : List ℕ) × (w' : W) × (out ≡ some (r, response, w'))
      × (((r ≡ success) × (length response ≡ size) × All (λ b. b < 256) response)
          ⊎ ((r ≡ timeout) × (response ≡ [])))

  pub receive-result :
      (fuel size timeout_us : ℕ) (w : W)
      → Reads dev
      → (r : RequestResult) (w' : W)
      → wait_for_rx_ready dev fuel timeout_us (dev.start_listening w) ≡ some (r, w')
      → (r ≡ success) ⊎ (r ≡ timeout)
      → ReceiveReturns size (receive dev fuel size timeout_us w)
  unfolding receive
  receive-result fuel size timeout_us w reads success w' e k =
      let (response, w'') = dev.read size w' in
      (
        success,
        response,
        w'',
        rw (e, receive),
        inl (refl, reads.read_size size w', reads.read_bytes size w'),
      )
  receive-result fuel size timeout_us w reads timeout w' e k =
      (timeout, [], w', rw (e, receive), inr (refl, refl))
  receive-result fuel size timeout_us w reads malformed w' e k = ground arith
  receive-result fuel size timeout_us w reads transmit_error w' e k = ground arith

  -- Without an IRQ line and with a timeout, Receive returns, with fuel for one round of its loop for
  -- every 50 microseconds of the timeout and two more, or with more fuel: Success with as many bytes
  -- as were asked for, or Timeout with none.
  pub receive-returns :
      (fuel size timeout_us : ℕ) (w : W)
      → poll_fuel timeout_us ≤ fuel
      → Reads dev
      → dev.has_irq_line ≡ false
      → 0 < timeout_us
      → ReceiveReturns size (receive dev fuel size timeout_us w)
  receive-returns fuel size timeout_us w enough reads polls pos =
      let (r, w', e, k) = wait-returns fuel timeout_us (dev.start_listening w) enough polls pos in
      receive-result fuel size timeout_us w reads r w' e k
