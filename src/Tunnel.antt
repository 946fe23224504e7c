-- ===== src/Tunnel.antt =====
-- TunnelThread of nerfnet/net/radio_interface.cc beside the methods that the radio's thread runs on
-- the same queue, each under read_buffer_mutex_: the steps of the two threads in any order.
pub mod Bounds
use n_rf24_module.Prelude.{ℕ, ◌≤◌, ◌≡◌, Bool, true, false, List, length, ltb}
use n_rf24_module.Frame.{MacFrame}
use n_rf24_module.Packet.{is_valid_ip_packet}
use n_rf24_module.RadioInterface.{RadioInterface, initial, reset_link}
use n_rf24_module.RadioInterface.Transmit.{
  build_next_data_frame_locked, commit_ack_locked, push_back,
}
use n_rf24_module.RadioInterface.Assembly.{consume_data_frame_locked}

abbrev pub max_buffered_frames : ℕ
max_buffered_frames = 1024

-- `uint8_t buffer[3200]`
abbrev pub read_size : ℕ
read_size = 3200

-- Where the tunnel thread stands: before `read`, or before the test of the loop that waits.
pub data Phase : Type 0 where
  reading checking : Phase

pub record Shared : Type 0 where
  pub phase : Phase
  pub radio : RadioInterface

abbrev pub started : Shared
started = record { phase = reading; radio = initial }

abbrev pub get_read_buffer_size : RadioInterface → ℕ
get_read_buffer_size r = length r.read_buffer

-- `GetReadBufferSize() > kMaxBufferedFrames`
abbrev pub is_full : RadioInterface → Bool
is_full r = ltb max_buffered_frames (get_read_buffer_size r)

-- What the tunnel thread or the radio's thread does next.
pub data Step : Shared → Shared → Type 0 where
  read_fails :
      (r : RadioInterface)
      → Step (record { phase = reading; radio = r }) (record { phase = reading; radio = r })
  drops :
      (p : List ℕ) (r : RadioInterface)
      → length p ≤ read_size
      → is_valid_ip_packet p ≡ false
      → Step (record { phase = reading; radio = r }) (record { phase = reading; radio = r })
  queues :
      (p : List ℕ) (r : RadioInterface)
      → length p ≤ read_size
      → is_valid_ip_packet p ≡ true
      → Step
          (record { phase = reading; radio = r })
          (record { phase = checking; radio = push_back p r })
  waits :
      (r : RadioInterface)
      → is_full r ≡ true
      → Step (record { phase = checking; radio = r }) (record { phase = checking; radio = r })
  goes_on :
      (r : RadioInterface)
      → is_full r ≡ false
      → Step (record { phase = checking; radio = r }) (record { phase = reading; radio = r })
  builds : (s : Shared) → Step s (record s { radio = (build_next_data_frame_locked s.radio).2 })
  commits : (a : ℕ) (s : Shared) → Step s (record s { radio = commit_ack_locked a s.radio })
  consumes :
      (f : MacFrame) (s : Shared)
      → Step s (record s { radio = (consume_data_frame_locked f s.radio).1 })
  resets : (s : Shared) → Step s (record s { radio = reset_link s.radio })

-- Any number of steps.
pub data Reaches (s : Shared) : Shared → Type 0 where
  here : Reaches s s
  then_step : {t u : Shared} → Reaches s t → Step t u → Reaches s u
