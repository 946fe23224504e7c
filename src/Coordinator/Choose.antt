-- ===== src/Coordinator/Choose.antt =====
-- ChooseCoordinatorTxFrame of nerfnet/net/primary_radio_interface.cc.
use n_rf24_module.Prelude.{
  ℕ, Bool, true, false, not, ◌&&◌, ◌||◌, List, leb, if◌then◌else◌, value_or, bump, is_empty,
}
use n_rf24_module.Frame.{FrameType, MacFrame, empty_frame}
use n_rf24_module.RadioInterface.{RadioInterface, no_seq}
use n_rf24_module.RadioInterface.Transmit.{build_next_data_frame_locked}
use n_rf24_module.Coordinator.{
  CoordinatorState, reset_sync, idle, issue_grant, active_rx, Coordinator, default_burst_grant,
  fair_data_burst_limit, arrive,
}

-- The first locked region.
abbrev pub local_has_data : RadioInterface → Bool
local_has_data r = r.tx_in_flight || not (is_empty r.read_buffer)

abbrev pub flag : Bool → ℕ
flag b = if b then 1 else 0

abbrev pub grant_frame : Bool → MacFrame → MacFrame
grant_frame has_data tx = record tx {
  type = FrameType.grant;
  pending = flag has_data;
  arg = default_burst_grant;
}

abbrev pub sent_grant : Coordinator → Coordinator
sent_grant c = record c {
  last_tx_was_data = false;
  counters = record (c.counters) { tx_grant_count = bump c.counters.tx_grant_count };
}

-- The second locked region, and the statements behind it.
abbrev pub send_data : Coordinator → Bool × MacFrame × Coordinator
send_data c =
    let (built, tx, r) = build_next_data_frame_locked c.radio in
    if not built then (false, tx, record c { radio = r }) else (
      true,
      record tx { pending = 1 },
      record c {
        radio = r;
        last_tx_was_data = true;
        counters = record (c.counters) { tx_data_count = bump c.counters.tx_data_count };
      },
    )

-- `case CoordinatorState::Idle`
abbrev pub choose_idle : Bool → MacFrame → Coordinator → Bool × MacFrame × Coordinator
choose_idle has_data tx c =
    if has_data
    then (if c.peer_has_pending && leb fair_data_burst_limit c.consecutive_local_data_frames
        then (true, grant_frame true tx, sent_grant c)
        else send_data c)
    else (
      true,
      record tx { type = FrameType.pending; pending = 0; arg = 0 },
      record c {
        last_tx_was_data = false;
        counters = record (c.counters) { tx_pending_count = bump c.counters.tx_pending_count };
      },
    )

-- The switch on `state_`, with the frame that holds the ACK so far.
unfoldable pub choose_in :
    CoordinatorState → Bool → MacFrame → Coordinator → Bool × MacFrame × Coordinator
choose_in reset_sync has_data tx c = (
  true,
  record tx { type = FrameType.reset; pending = 0; arg = 0 },
  record c { last_tx_was_data = false },
)
choose_in issue_grant has_data tx c = (true, grant_frame has_data tx, sent_grant c)
choose_in active_rx has_data tx c = (true, grant_frame has_data tx, sent_grant c)
choose_in idle has_data tx c = choose_idle has_data tx c

-- The flag that is returned, what is left in `tx`, and the new state. `arrivals` are the packets that
-- the tunnel thread queues between the two locked regions.
unfoldable pub choose_coordinator_tx_frame :
    List (List ℕ) → Coordinator → Bool × MacFrame × Coordinator
choose_coordinator_tx_frame arrivals c =
    let tx = record empty_frame { ack = value_or c.radio.last_rx_seq no_seq } in
    choose_in c.state (local_has_data c.radio) tx (record c { radio = arrive arrivals c.radio })
