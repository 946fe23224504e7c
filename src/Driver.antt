-- ===== src/Driver.antt =====
-- Send, Receive, WaitForRxReady and RecoverAfterTransmitFailure of nerfnet/net/radio_interface.cc
-- over the RF24 radio, the GPIO line and the clock, which are parameters.
pub mod Send
pub mod Receive
pub mod Timely
pub mod Waiting
pub mod Interrupts
use n_rf24_module.Prelude.{ℕ, ◌+◌, ◌≤◌, ◌<◌, ◌≡◌, Bool, List, Option, length, All}

pub data RequestResult : Type 0 where
  success timeout malformed transmit_error : RequestResult

-- What `gpiod_line_event_wait` returns, with errno: an event, 0, EINTR, or another error.
pub data LineWait : Type 0 where
  event no_event interrupted failed : LineWait

-- What `gpiod_line_event_read` returns, with errno.
pub data LineRead : Type 0 where
  event interrupted failed : LineRead

-- The outside of the program, with a state `W` of its own: the RF24 object, the requested GPIO
-- line, the clock and usleep of nerfnet/util/time.cc. A timeout of `none` is a null pointer.
pub record Device (W : Type 0) : Type 0 where
  pub start_listening : W → W
  pub stop_listening : W → W
  pub flush_rx : W → W
  pub flush_tx : W → W
  pub write : List ℕ → W → Bool × W
  pub tx_stand_by : W → Bool × W
  pub available : W → Bool × W
  pub read : ℕ → W → List ℕ × W
  pub time_now_us : W → ℕ × W
  pub sleep_us : ℕ → W → W
  -- whether `irq_line_` is set, which is settled in the constructor
  pub has_irq_line : Bool
  pub line_event_wait : Option ℕ → W → LineWait × W
  pub line_event_read : W → LineRead × W

-- A call that uses the outside; `none` means that the fuel of a loop ran out.
abbrev pub Io : Type 0 → Type 0 → Type 0
Io W A = W → Option (A × W)

abbrev pub tx_standby_timeout_us : ℕ
tx_standby_timeout_us = 20000

abbrev pub tx_failure_recovery_gap_us : ℕ
tx_failure_recovery_gap_us = 200

-- What is relied on of the clock: it is read as it stands, it never goes back, and a sleep lasts at
-- least as long as was asked for.
pub record Clock {W : Type 0} (dev : Device W) : Type 0 where
  pub clock : W → ℕ
  pub now_is : (w : W) → (dev.time_now_us w).0 ≡ clock w
  pub now_later : (w : W) → clock w ≤ clock (dev.time_now_us w).1
  pub stand_by_later : (w : W) → clock w ≤ clock (dev.tx_stand_by w).1
  pub available_later : (w : W) → clock w ≤ clock (dev.available w).1
  pub sleep_later : (d : ℕ) (w : W) → clock w + d ≤ clock (dev.sleep_us d w)

-- What is relied on of `RF24::read`: it fills the buffer that it is given with bytes.
pub record Reads {W : Type 0} (dev : Device W) : Type 0 where
  pub read_size : (n : ℕ) (w : W) → length (dev.read n w).0 ≡ n
  pub read_bytes : (n : ℕ) (w : W) → All (λ b. b < 256) (dev.read n w).0
