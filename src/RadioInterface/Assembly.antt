-- ===== src/RadioInterface/Assembly.antt =====
-- The receiving half: ResetRxAssemblyLocked, ConsumeDataFrameLocked and WriteTunnel of
-- nerfnet/net/radio_interface.cc. The result of write(2) is only logged, so it is left out.
use n_rf24_module.Prelude.{
  Bool, true, false, not, [], ◌∷◌, ◌++◌, none, some, leb, ◌==◌, if◌then◌else◌, is_empty,
}
use n_rf24_module.Frame.{MacFrame, max_payload_size}
use n_rf24_module.Frame.Codec.{is_data}
use n_rf24_module.Packet.{is_valid_ip_packet}
use n_rf24_module.RadioInterface.{RadioInterface}
use n_rf24_module.RadioInterface.Sequence.{next_seq}

abbrev pub reset_rx_assembly_locked : RadioInterface → RadioInterface
reset_rx_assembly_locked r = record r { frame_buffer = []; last_rx_seq = none }

-- An invalid packet is dropped; the buffer is cleared on both branches.
unfoldable pub write_tunnel : RadioInterface → RadioInterface
write_tunnel r =
    if not (is_valid_ip_packet r.frame_buffer)
    then record r { frame_buffer = [] }
    else record r { tunnel_written = r.tunnel_written ++ r.frame_buffer ∷ []; frame_buffer = [] }

-- The part after the sequence checks.
unfoldable pub accept_data_frame : MacFrame → RadioInterface → RadioInterface
accept_data_frame frame r =
    let r1 = record r { last_rx_seq = some frame.seq } in
    if is_empty frame.payload
    then r1
    else (let r2 = record r1 { frame_buffer = r1.frame_buffer ++ frame.payload } in
        if leb frame.arg max_payload_size then write_tunnel r2 else r2)

-- The flag that is returned, and the new state.
unfoldable pub consume_data_frame_locked : MacFrame → RadioInterface → Bool × RadioInterface
consume_data_frame_locked frame r =
    if not (is_data frame.type)
    then (true, r)
    else if frame.seq == 0
    then (false, reset_rx_assembly_locked r)
    else elim r.last_rx_seq [
      | none ↦ (true, accept_data_frame frame r)
      | some last ↦
          if frame.seq == last
          then (true, r)
          else if not (frame.seq == next_seq last)
          then (false, reset_rx_assembly_locked r)
          else (true, accept_data_frame frame r)
    ]
