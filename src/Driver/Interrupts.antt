-- ===== src/Driver/Interrupts.antt =====
-- Receive of nerfnet/net/radio_interface.cc ends where it waits for an IRQ line with a timeout.
use n_rf24_module.Prelude.{
  ℕ, Option, zero, suc, ◌+◌, ◌-◌, ◌^◌, ◌≤◌, ◌<◌, ◌≡◌, ◌∙◌, ◌⊎◌, inl, inr, refl, ap, true, false,
  none, some, arith, leb, le→leb, Bool-cases, u64, ◌==◌,
}
use n_rf24_module.Driver.{RequestResult, success, timeout, Device, Clock, Reads, LineWait, LineRead}
use n_rf24_module.Driver.Receive.{irq_loop, after_wait, wait_for_rx_ready, receive}
use n_rf24_module.Driver.Waiting.{WaitReturns, ReceiveReturns, receive-result}

-- What is relied on of the calls on the line: a wait takes at least a microsecond of the clock, or it
-- ends at once, as it does when an event is pending or a signal comes; `at_once` is how many more
-- times it does so. The clock does not go back, and only a wait that ends at once uses up a time.
pub record Waits {W : Type 0} (dev : Device W) (c : Clock dev) : Type 0 where
  pub at_once : W → ℕ
  pub wait_later :
      (t : Option ℕ) (w : W)
      → let w1 = (dev.line_event_wait t w).1 in
        ((c.clock w + 1 ≤ c.clock w1) × (at_once w1 ≤ at_once w))
        ⊎ ((c.clock w ≤ c.clock w1) × (at_once w1 + 1 ≤ at_once w))
  pub event_later :
      (w : W)
      → let w1 = (dev.line_event_read w).1 in (c.clock w ≤ c.clock w1) × (at_once w1 ≤ at_once w)
  pub available_at_once : (w : W) → at_once (dev.available w).1 ≤ at_once w
  pub now_at_once : (w : W) → at_once (dev.time_now_us w).1 ≤ at_once w

module _ {W : Type 0} (dev : Device W) (c : Clock dev) (waits : Waits dev c) where
  open c use {clock, now_is, now_later, available_later}
  open waits use {at_once, wait_later, event_later, available_at_once, now_at_once}

  abbrev Later : W → W → Type 0
  Later w w' = (clock w ≤ clock w') × (at_once w' ≤ at_once w)

  -- A round that is not over has only let time pass, and one that is over ends in a timeout.
  abbrev Waited : W → Option (RequestResult × W) × W → Type 0
  Waited w (none, w') = Later w w'
  Waited w (some (r, v), w') = r ≡ timeout

  after_read-Waited :
      (result : LineRead) (w w1 : W)
      → Later w w1
      → Waited w (elim result [
        | LineRead.event ↦ (none, w1)
        | LineRead.interrupted ↦ (none, w1)
        | LineRead.failed ↦ (some (timeout, w1), w1)
      ])
  after_read-Waited LineRead.event w w1 h = h
  after_read-Waited LineRead.interrupted w w1 h = h
  after_read-Waited LineRead.failed w w1 h = refl

  after_wait-Waited : (l : LineWait) (w : W) → Waited w (after_wait dev l w)
  unfolding after_wait
  after_wait-Waited LineWait.interrupted w = (omega arith, omega arith)
  after_wait-Waited LineWait.failed w = refl
  after_wait-Waited LineWait.no_event w = refl
  after_wait-Waited LineWait.event w =
      let (result, w1) = dev.line_event_read w in after_read-Waited result w w1 (event_later w)

  -- The rest of a round, once it has waited.
  abbrev go_on : ℕ → ℕ → Option (RequestResult × W) × W → Option (RequestResult × W)
  go_on fuel deadline out = elim out.0 [ some r ↦ some r | none ↦ irq_loop dev fuel deadline out.1 ]

  go_on-returns :
      (fuel deadline : ℕ) (w : W) (out : Option (RequestResult × W) × W)
      → Waited w out
      → ((w' : W) → Later w w' → WaitReturns dev c (irq_loop dev fuel deadline w'))
      → WaitReturns dev c (go_on fuel deadline out)
  go_on-returns fuel deadline w (none, w') h k = k w' h
  go_on-returns fuel deadline w (some (r, v), w') h k = (r, v, refl, inr h)

  module _ (fuel deadline : ℕ) (w : W) where
    abbrev waited : Option (RequestResult × W) × W
    waited =
        let (now, w2) = dev.time_now_us (dev.available w).1 in
        let (result, w3) = dev.line_event_wait (some (deadline - now)) w2 in
        after_wait dev result w3

    irq_ready :
        (dev.available w).0 ≡ true
        → irq_loop dev (suc fuel) deadline w ≡ some (success, (dev.available w).1)
    unfolding irq_loop
    irq_ready ready = rw ready refl

    irq_late :
        (dev.available w).0 ≡ false
        → (deadline == 0) ≡ false
        → leb deadline (dev.time_now_us (dev.available w).1).0 ≡ true
        → irq_loop dev (suc fuel) deadline w
          ≡ some (timeout, (dev.time_now_us (dev.available w).1).1)
    unfolding irq_loop
    irq_late not_ready limited late = rw (not_ready, limited, late) refl

    irq_waits :
        (dev.available w).0 ≡ false
        → (deadline == 0) ≡ false
        → leb deadline (dev.time_now_us (dev.available w).1).0 ≡ false
        → irq_loop dev (suc fuel) deadline w ≡ go_on fuel deadline waited
    unfolding irq_loop
    irq_waits not_ready limited early = rw (not_ready, limited, early) refl

  irq_loop-returns :
      (fuel deadline : ℕ) (w : W)
      → (deadline == 0) ≡ false
      → deadline + at_once w ≤ clock w + fuel
      → WaitReturns dev c (irq_loop dev (suc fuel) deadline w)
  irq_loop-returns zero deadline w limited h =
      let w1 = (dev.available w).1 in
      let (now, w2) = dev.time_now_us w1 in
      let late : leb deadline now ≡ true =
        le→leb deadline now (omega (arith, now_is w1, available_later w)) in
      elim (Bool-cases (dev.available w).0) [
        | inl ready ↦ (success, w1, irq_ready zero deadline w ready, inl refl)
        | inr not_ready ↦ (timeout, w2, irq_late zero deadline w not_ready limited late, inr refl)
      ]
  irq_loop-returns (suc fuel) deadline w limited h =
      let w1 = (dev.available w).1 in
      let (now, w2) = dev.time_now_us w1 in
      let (result, w3) = dev.line_event_wait (some (deadline - now)) w2 in
      let (r, w', e, k) =
        go_on-returns (suc fuel) deadline w3 (waited (suc fuel) deadline w)
          (after_wait-Waited result w3)
          (λ w4 later. irq_loop-returns fuel deadline w4 limited (
            omega (
              arith,
              available_later w,
              now_later w1,
              wait_later (some (deadline - now)) w2,
              available_at_once w,
              now_at_once w1,
              later,
            ))) in
      elim (Bool-cases (dev.available w).0) [
        | inl ready ↦ (success, w1, irq_ready (suc fuel) deadline w ready, inl refl)
        | inr not_ready ↦ elim (Bool-cases (leb deadline now)) [
          | inl late ↦
              (timeout, w2, irq_late (suc fuel) deadline w not_ready limited late, inr refl)
          | inr early ↦ (r, w', irq_waits (suc fuel) deadline w not_ready limited early ∙ e, k)
        ]
      ]

  wait-interrupts :
      (fuel timeout_us : ℕ) (w : W)
      → dev.has_irq_line ≡ true
      → 0 < timeout_us
      → let (now, w1) = dev.time_now_us w in
        wait_for_rx_ready dev fuel timeout_us w ≡ irq_loop dev fuel (u64 (now + timeout_us)) w1
  unfolding wait_for_rx_ready
  wait-interrupts fuel timeout_us w has_line pos = ground arith

  -- With an IRQ line and a timeout, Receive returns: Success with as many bytes as were asked for, or
  -- Timeout with none. A wait may be interrupted or woken for nothing at any time; each must take a
  -- microsecond or be one of the finitely many, `at_once`, that end at once. The fuel is for one round
  -- of the loop for every microsecond of the timeout, for each wait that ends at once, and one more, or
  -- it is more. The clock must not go back, the radio fill its buffer with bytes, and the 64-bit clock
  -- not wrap around meanwhile.
  pub receive_waiting-returns :
      (fuel size timeout_us : ℕ) (w : W)
      → timeout_us + at_once (dev.start_listening w) + 1 ≤ fuel
      → Reads dev
      → dev.has_irq_line ≡ true
      → 0 < timeout_us
      → clock (dev.start_listening w) + timeout_us < 2 ^ 64
      → ReceiveReturns dev c size (receive dev fuel size timeout_us w)
  receive_waiting-returns fuel size timeout_us w enough reads has_line pos fits =
      let w0 = dev.start_listening w in
      let (now, w1) = dev.time_now_us w0 in
      let deadline = u64 (now + timeout_us) in
      let more : fuel ≡ suc (fuel - 1) = omega arith in
      let is_now = now_is w0 in
      let (r, w', e, k) =
        irq_loop-returns (fuel - 1) deadline w1 (ground (arith, is_now))
          (omega (arith, is_now, now_later w0, now_at_once w0)) in
      receive-result dev c fuel size timeout_us w reads r w'
        (wait-interrupts fuel timeout_us w0 has_line pos
          ∙ (ap (λ n. irq_loop dev n deadline w1) more ∙ e))
        k
