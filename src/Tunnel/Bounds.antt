-- ===== src/Tunnel/Bounds.antt =====
-- How much TunnelThread of nerfnet/net/radio_interface.cc lets the queue hold.
use n_rf24_module.Prelude.{ℕ, ◌+◌, ◌≤◌, ◌≡◌, List, [], ◌∷◌, arith, length, length-append}
use n_rf24_module.Frame.{MacFrame}
use n_rf24_module.RadioInterface.{RadioInterface}
use n_rf24_module.RadioInterface.Transmit.{
  build_next_data_frame_locked, commit_ack_locked, consume_front,
}
use n_rf24_module.RadioInterface.Assembly.{
  consume_data_frame_locked, accept_data_frame, write_tunnel,
}
use n_rf24_module.Tunnel.{
  Phase, reading, checking, Shared, started, Step, read_fails, drops, queues, waits, goes_on,
  builds, commits, consumes, resets, Reaches, here, then_step, max_buffered_frames,
}

-- What the queue may hold in a phase.
abbrev pub capacity : Phase → ℕ
capacity reading = max_buffered_frames
capacity checking = max_buffered_frames + 1

abbrev Fits : Shared → Type 0
Fits s = length s.radio.read_buffer ≤ capacity s.phase

length-consume_front : (n : ℕ) (q : List (List ℕ)) → length (consume_front n q) ≤ length q
length-consume_front n [] = omega arith
length-consume_front n (f ∷ q) = ground arith

length-commit :
    (a : ℕ) (r : RadioInterface) → length (commit_ack_locked a r).read_buffer ≤ length r.read_buffer
unfolding commit_ack_locked
length-commit a r =
    ground (arith, length-consume_front (length r.tx_inflight_payload) r.read_buffer)

build-read_buffer :
    (r : RadioInterface) → (build_next_data_frame_locked r).2.read_buffer ≡ r.read_buffer
unfolding build_next_data_frame_locked
build-read_buffer r = ground arith

consume-read_buffer :
    (f : MacFrame) (r : RadioInterface)
    → (consume_data_frame_locked f r).1.read_buffer ≡ r.read_buffer
unfolding consume_data_frame_locked accept_data_frame write_tunnel
consume-read_buffer f r = ground arith

Step-Fits : (s t : Shared) → Step s t → Fits s → Fits t
Step-Fits s t (read_fails r) h = h
Step-Fits s t (drops p r l v) h = h
Step-Fits s t (queues p r l v) h = omega (arith, h, length-append r.read_buffer (p ∷ []))
Step-Fits s t (waits r full) h = h
Step-Fits s t (goes_on r free) h = ground arith
Step-Fits s t (builds u) h = ground (arith, build-read_buffer u.radio)
Step-Fits s t (commits a u) h = omega (arith, h, length-commit a u.radio)
Step-Fits s t (consumes f u) h = ground (arith, consume-read_buffer f u.radio)
Step-Fits s t (resets u) h = h

-- In whatever order the tunnel thread and the radio's thread take their steps from the start, the
-- queue holds at most 1024 packets when the tunnel thread reads, and at most 1025 while it tests or
-- waits.
pub Reaches-capacity :
    (s : Shared) → Reaches started s → length s.radio.read_buffer ≤ capacity s.phase
Reaches-capacity s here = omega arith
Reaches-capacity s (then_step {t} run step) = Step-Fits t s step (Reaches-capacity t run)
