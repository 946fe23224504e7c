-- ===== src/Driver/Timely.antt =====
-- Send and Receive of nerfnet/net/radio_interface.cc end, with a clock that goes on.
use n_rf24_module.Prelude.{
  ℕ, Option, zero, suc, ◌+◌, ◌*◌, ◌≤◌, ◌<◌, ◌≡◌, ◌⊎◌, inl, inr, refl, true, List, some, arith, ltb,
  leb, ltb→lt, Bool-cases, u64, length, le→leb,
}
use n_rf24_module.Frame.{max_packet_size}
use n_rf24_module.Driver.{
  RequestResult, success, timeout, malformed, transmit_error, Device, Clock, tx_standby_timeout_us,
}
use n_rf24_module.Driver.Send.{recover_after_transmit_failure, stand_by_loop, send}

abbrev pub send_fuel : ℕ
send_fuel = 401

-- The results of Send.
abbrev pub IsSendResult : List ℕ → RequestResult → Type 0
IsSendResult request success = length request ≤ max_packet_size
IsSendResult request timeout = ⊥
IsSendResult request malformed = max_packet_size < length request
IsSendResult request transmit_error = length request ≤ max_packet_size

module _ {W : Type 0} (dev : Device W) (c : Clock dev) where
  open c use {clock, now_is, now_later, stand_by_later, available_later, sleep_later}

  -- The clock in one round of `while (!radio_.txStandBy())`.
  stand_by_clock :
      (w : W)
      → let w1 = (dev.tx_stand_by w).1 in
        let (now, w2) = dev.time_now_us w1 in
        (clock w ≤ now) × (clock w + 50 ≤ clock (dev.sleep_us 50 w2))
  stand_by_clock w =
      let w1 = (dev.tx_stand_by w).1 in
      let w2 = (dev.time_now_us w1).1 in
      (
        omega (arith, now_is w1, stand_by_later w),
        omega (arith, now_later w1, stand_by_later w, sleep_later 50 w2),
      )

  abbrev SendReturns : Option (RequestResult × W) → Type 0
  SendReturns out =
      (r : RequestResult) × (w' : W) × (out ≡ some (r, w')) × ((r ≡ success) ⊎ (r ≡ transmit_error))

  stand_by_loop-returns :
      (fuel deadline : ℕ) (w : W)
      → deadline ≤ clock w + 50 * fuel
      → SendReturns (stand_by_loop dev (suc fuel) deadline w)
  unfolding stand_by_loop
  stand_by_loop-returns zero deadline w h =
      let w1 = (dev.tx_stand_by w).1 in
      let (now, w2) = dev.time_now_us w1 in
      let late : leb deadline now ≡ true = le→leb deadline now (omega (arith, stand_by_clock w)) in
      elim (Bool-cases (dev.tx_stand_by w).0) [
        | inl ready ↦ (success, w1, rw ready, inl refl)
        | inr not_ready ↦
            (transmit_error, recover_after_transmit_failure dev w2, rw (not_ready, late), inr refl)
      ]
  stand_by_loop-returns (suc fuel) deadline w h =
      let w1 = (dev.tx_stand_by w).1 in
      let (now, w2) = dev.time_now_us w1 in
      let (r, w', e, k) =
        stand_by_loop-returns fuel deadline (dev.sleep_us 50 w2)
          (omega (arith, stand_by_clock w)) in
      elim (Bool-cases (dev.tx_stand_by w).0) [
        | inl ready ↦ (success, w1, rw ready, inl refl)
        | inr not_ready ↦ elim (Bool-cases (leb deadline now)) [
          | inl late ↦ (
            transmit_error,
            recover_after_transmit_failure dev w2,
            rw (not_ready, late),
            inr refl,
          )
          | inr early ↦ (r, w', rw (not_ready, early) e, k)
        ]
      ]

  stand_by_loop-enough :
      (fuel deadline : ℕ) (w : W)
      → 1 ≤ fuel
      → deadline + 50 ≤ clock w + 50 * fuel
      → SendReturns (stand_by_loop dev fuel deadline w)
  stand_by_loop-enough zero deadline w h k = absurd (omega arith)
  stand_by_loop-enough (suc fuel) deadline w h k =
      stand_by_loop-returns fuel deadline w (omega arith)

  -- With a clock that goes on, Send returns with fuel for 401 rounds of its loop, or more. It returns
  -- Malformed exactly for a request of more than 32 bytes, else Success or TransmitError, and never
  -- Timeout.
  pub send-returns :
      (fuel : ℕ) (request : List ℕ) (w : W)
      → send_fuel ≤ fuel
      → (r : RequestResult) × (w' : W) × (send dev fuel request w ≡ some (r, w'))
        × IsSendResult request r
  unfolding send
  send-returns fuel request w enough = elim (Bool-cases (ltb max_packet_size (length request))) [
    | inl large ↦ (malformed, dev.stop_listening w, rw large, ltb→lt _ _ large)
    | inr fits ↦ elim (Bool-cases (dev.write request (dev.stop_listening w)).0) [
      | inr unwritten ↦ (
        transmit_error,
        recover_after_transmit_failure dev (dev.write request (dev.stop_listening w)).1,
        rw (fits, unwritten),
        ground arith,
      )
      | inl written ↦
          let w1 = (dev.write request (dev.stop_listening w)).1 in
          let (now, w2) = dev.time_now_us w1 in
          let (r, w', e, k) =
            stand_by_loop-enough fuel (u64 (now + tx_standby_timeout_us)) w2 (omega arith)
              (omega (arith, now_is w1, now_later w1)) in
          (r, w', rw (fits, written) e, result request r k (ground arith))
    ]
  ]
    where
      result :
          (request : List ℕ) (r : RequestResult)
          → (r ≡ success) ⊎ (r ≡ transmit_error)
          → length request ≤ max_packet_size
          → IsSendResult request r
      result request success k h = h
      result request transmit_error k h = h
      result request timeout k h = ground arith
      result request malformed k h = ground arith
