-- ===== src/Examples/Tunnels.antt =====
-- The tunnel thread's queue and the pipe addresses at concrete inputs.
use n_rf24_module.Prelude.{◌↔◌, ◌%◌, ◌^◌, ◌≤◌, ◌≡◌, ◌≢◌, refl, length, arith}
use n_rf24_module.Packet.{is_valid_ip_packet}
use n_rf24_module.RadioInterface.{initial}
use n_rf24_module.RadioInterface.Transmit.{push_back}
use n_rf24_module.Tunnel.{Shared, reading, started, queues, goes_on, Reaches, here, then_step}
use n_rf24_module.Tunnel.Bounds.{capacity, Reaches-capacity}
use n_rf24_module.Pipes.{coordinator_pipes, peer_pipes, used_bytes, pipes-cross}
use n_rf24_module.Examples.Packets.{ping}

-- One packet is read, and the thread goes on.
abbrev one_read : Shared
one_read = record { phase = reading; radio = push_back ping initial }

reaches_one_read : Reaches started one_read
unfolding is_valid_ip_packet
reaches_one_read =
    then_step (then_step here (queues ping initial (omega arith) refl))
      (goes_on (push_back ping initial) refl)

Reaches-capacity_example : length one_read.radio.read_buffer ≤ capacity one_read.phase
Reaches-capacity_example = Reaches-capacity one_read reaches_one_read

pipes-cross_example :
    let c = coordinator_pipes 0x55443322 0x66443323 in
    let p = peer_pipes 0x55443322 0x66443323 in
    (used_bytes c.writing ≡ used_bytes p.reading)
    × (used_bytes p.writing ≡ used_bytes c.reading)
    × ((used_bytes c.writing ≢ used_bytes c.reading) ↔ (0x55443322 % 2 ^ 24 ≢ 0x66443323 % 2 ^ 24))
    × ((used_bytes p.writing ≢ used_bytes p.reading) ↔ (0x55443322 % 2 ^ 24 ≢ 0x66443323 % 2 ^ 24))
pipes-cross_example = pipes-cross 0x55443322 0x66443323
