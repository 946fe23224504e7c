-- ===== src/Examples/Radio.antt =====
-- A radio whose buffer always holds 32 times the byte 5, which decodes to a Reset frame, and whose
-- clock is the state of the outside. The theorems on Send and Receive (nerfnet/net/radio_interface.cc)
-- at that radio.
use n_rf24_module.Prelude.{
  ℕ, zero, suc, ◌≤◌, ◌⊎◌, inl, inr, ◌+◌, ◌<◌, ◌≡◌, refl, true, false, [], ◌∷◌, arith, some,
  replicate, length-replicate, All-replicate,
}
use n_rf24_module.Driver.{RequestResult, LineWait, LineRead, Device, Clock, Reads}
use n_rf24_module.Driver.Send.{send}
use n_rf24_module.Driver.Receive.{receive}
use n_rf24_module.Driver.Timely.{send-returns, IsSendResult}
use n_rf24_module.Driver.Waiting.{receive-returns, ReceiveReturns}
use n_rf24_module.Driver.Interrupts.{Waits, receive_waiting-returns}

abbrev pub echo : Device ℕ
echo = record {
  start_listening = λ w. w;
  stop_listening = λ w. w;
  flush_rx = λ w. w;
  flush_tx = λ w. w;
  write = λ request w. (true, w + 10);
  tx_stand_by = λ w. (true, w + 10);
  available = λ w. (true, w);
  read = λ n w. (replicate n 5, w);
  time_now_us = λ w. (w, w);
  sleep_us = λ d w. w + d;
  has_irq_line = false;
  line_event_wait = λ t w. (LineWait.no_event, w);
  line_event_read = λ w. (LineRead.event, w);
}

pub echo-Clock : Clock echo
echo-Clock = record {
  clock = λ w. w;
  now_is = λ w. refl;
  now_later = λ w. omega arith;
  stand_by_later = λ w. omega arith;
  available_later = λ w. omega arith;
  sleep_later = λ d w. omega arith;
}

pub echo-Reads : Reads echo
echo-Reads = record {
  read_size = λ n w. length-replicate {A = ℕ} n 5;
  read_bytes = λ n w. All-replicate (λ b. b < 256) n 5 (omega arith);
}

send-returns_example :
    (r : RequestResult) × (w : ℕ) × (send echo 401 (1 ∷ 2 ∷ []) 7 ≡ some (r, w))
    × IsSendResult (1 ∷ 2 ∷ []) r
send-returns_example = send-returns echo echo-Clock 401 (1 ∷ 2 ∷ []) 7 (omega arith)

receive-returns_example : ReceiveReturns echo echo-Clock 32 (receive echo 2002 32 100000 7)
receive-returns_example =
    receive-returns echo echo-Clock 2002 32 100000 7 (omega arith) echo-Reads refl (omega arith)

-- A wait on the line is interrupted at once as often as signals are due, and each time after three
-- microseconds from then on.
abbrev interrupted_wait : ℕ × ℕ → ℕ × ℕ
interrupted_wait (now, zero) = (now + 3, zero)
interrupted_wait (now, suc due) = (now, due)

-- A radio with an IRQ line on which nothing but interruptions comes, and with nothing received. The
-- state is the time and the number of signals that are due.
abbrev silent : Device (ℕ × ℕ)
silent = record {
  start_listening = λ w. w;
  stop_listening = λ w. w;
  flush_rx = λ w. w;
  flush_tx = λ w. w;
  write = λ packet w. (true, w);
  tx_stand_by = λ w. (true, w);
  available = λ w. (false, w);
  read = λ n w. (replicate n 5, w);
  time_now_us = λ w. (w.0, w);
  sleep_us = λ d w. (w.0 + d, w.1);
  has_irq_line = true;
  line_event_wait = λ t w. (LineWait.interrupted, interrupted_wait w);
  line_event_read = λ w. (LineRead.event, w);
}

silent-Clock : Clock silent
silent-Clock = record {
  clock = λ w. w.0;
  now_is = λ w. refl;
  now_later = λ w. omega arith;
  stand_by_later = λ w. omega arith;
  available_later = λ w. omega arith;
  sleep_later = λ d w. omega arith;
}

silent-Reads : Reads silent
silent-Reads = record {
  read_size = λ n w. length-replicate {A = ℕ} n 5;
  read_bytes = λ n w. All-replicate (λ b. b < 256) n 5 (omega arith);
}

interrupted-later :
    (now due : ℕ)
    → let w1 = interrupted_wait (now, due) in
      ((now + 1 ≤ w1.0) × (w1.1 ≤ due)) ⊎ ((now ≤ w1.0) × (w1.1 + 1 ≤ due))
interrupted-later now zero = inl (omega arith, omega arith)
interrupted-later now (suc due) = inr (omega arith, omega arith)

silent-Waits : Waits silent silent-Clock
unfolding silent-Clock
silent-Waits = record {
  at_once = λ w. w.1;
  wait_later = λ t (now, due). interrupted-later now due;
  event_later = λ w. (omega arith, omega arith);
  available_at_once = λ w. omega arith;
  now_at_once = λ w. omega arith;
}

receive_waiting-returns_example :
    ReceiveReturns silent silent-Clock 32 (receive silent 105 32 100 (7, 4))
unfolding silent-Clock silent-Waits
receive_waiting-returns_example =
    receive_waiting-returns silent silent-Clock silent-Waits 105 32 100 (7, 4) (omega arith)
      silent-Reads refl (omega arith) (omega arith)
