-- ===== src/Coordinator/Disconnect.antt =====
-- When HandleTransactionFailure of nerfnet/net/primary_radio_interface.cc gives the connection up,
-- how long Run then waits, and how often it polls before.
use n_rf24_module.Prelude.{
  ℕ, zero, suc, ◌*◌, ◌^◌, ◌≡◌, false, List, [], ◌∷◌, length, arith, leb, min,
}
use Prim.Native.Nat.pow
use n_rf24_module.Driver.{Device}
use n_rf24_module.Coordinator.{
  Coordinator, FailureType, send, timeout, protocol, initial_disconnect_backoff_us,
  max_disconnect_backoff_us,
}
use n_rf24_module.Coordinator.Failure.{handle_transaction_failure}
use n_rf24_module.Coordinator.Loop.{back_off, run_iteration}

module _ {W : Type 0} (dev : Device W) where
  -- `n` failures of one type, one after the other.
  abbrev pub failures : ℕ → FailureType → Coordinator → W → Coordinator × W
  failures zero t c w = (c, w)
  failures (suc n) t c w = let (c1, w1) = failures n t c w in handle_transaction_failure dev t c1 w1

  -- How many failures of one type disconnect.
  abbrev pub failures_allowed : FailureType → ℕ
  failures_allowed send = 5
  failures_allowed timeout = 7
  failures_allowed protocol = 4

  -- The streaks after `n` failures of one type.
  abbrev Streaks : FailureType → ℕ → Coordinator → Type 0
  Streaks send n c = (c.send_fail_streak ≡ n) × (c.timeout_fail_streak ≡ 0)
  Streaks timeout n c = (c.send_fail_streak ≡ 0) × (c.timeout_fail_streak ≡ n)
  Streaks protocol n c = (c.send_fail_streak ≡ n) × (c.timeout_fail_streak ≡ n)

  failure_step :
      (t : FailureType) (n : ℕ) (c : Coordinator) (w : W)
      → Streaks t n c
      → c.disconnected ≡ leb (failures_allowed t) n
      → let c1 = (handle_transaction_failure dev t c w).0 in
        Streaks t (suc n) c1 × (c1.disconnected ≡ leb (failures_allowed t) (suc n))
  unfolding handle_transaction_failure
  failure_step send n c w h d = ground arith
  failure_step timeout n c w h d = ground arith
  failure_step protocol n c w h d = ground arith

  failures_count :
      (t : FailureType) (n : ℕ) (c : Coordinator) (w : W)
      → Streaks t 0 c
      → c.disconnected ≡ false
      → let c1 = (failures n t c w).0 in
        Streaks t n c1 × (c1.disconnected ≡ leb (failures_allowed t) n)
  failures_count send zero c w s d = (s, d)
  failures_count timeout zero c w s d = (s, d)
  failures_count protocol zero c w s d = (s, d)
  failures_count t (suc n) c w s d =
      let (c1, w1) = failures n t c w in
      let (s1, d1) = failures_count t n c w s d in failure_step t n c1 w1 s1 d1

  -- From a connected state without failures, failures of one type in a row disconnect the node
  -- exactly from the fifth failed Send on, the seventh timeout, or the fourth protocol failure.
  pub failures-disconnect :
      (t : FailureType) (n : ℕ) (c : Coordinator) (w : W)
      → c.send_fail_streak ≡ 0
      → c.timeout_fail_streak ≡ 0
      → c.disconnected ≡ false
      → (failures n t c w).0.disconnected ≡ leb (failures_allowed t) n
  failures-disconnect send n c w a b d = (failures_count send n c w (a, b) d).1
  failures-disconnect timeout n c w a b d = (failures_count timeout n c w (a, b) d).1
  failures-disconnect protocol n c w a b d = (failures_count protocol n c w (a, b) d).1

  -- The value that HandleTransactionFailure doubles, the poll interval that the constructor takes
  -- first, has no effect on an iteration of a connected node: Run computes the interval anew.
  pub iteration-ignores-interval :
      (fuel interval : ℕ) (arrivals on_air : List (List ℕ)) (c : Coordinator) (w : W)
      → c.disconnected ≡ false
      → run_iteration dev fuel arrivals on_air (record c { current_poll_interval_us = interval }) w
        ≡ run_iteration dev fuel arrivals on_air c w
  unfolding run_iteration
  iteration-ignores-interval fuel interval arrivals on_air c w h = simp h

-- `n` failed retries, each at its own time.
abbrev retries : List ℕ → Coordinator → Coordinator
retries [] c = c
retries (now_us ∷ times) c = back_off now_us (retries times c)

-- After `n` failed retries that start with the initial wait, the wait before the next one has
-- doubled `n` times, up to one second.
retries-double :
    (times : List ℕ) (c : Coordinator)
    → c.disconnect_backoff_us ≡ initial_disconnect_backoff_us
    → (retries times c).disconnect_backoff_us
      ≡ min (initial_disconnect_backoff_us * 2 ^ length times) max_disconnect_backoff_us
retries-double [] c h = omega (arith, h)
retries-double (now_us ∷ times) c h =
    grind (arith, retries-double times c h, pow.suc 2 (length times))
