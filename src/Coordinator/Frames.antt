-- ===== src/Coordinator/Frames.antt =====
-- The frames that ChooseCoordinatorTxFrame (nerfnet/net/primary_radio_interface.cc) picks.
use n_rf24_module.Prelude.{
  ℕ, ◌≡◌, ◌⊎◌, ◌↔◌, inl, inr, refl, Bool, true, false, ◌&&◌, leb, List, arith, All, Bool-cases,
  value_or, if◌then◌else◌,
}
use n_rf24_module.Frame.{FrameType, pending, grant, data_frame, reset, MacFrame, empty_frame}
use n_rf24_module.Frame.RoundTrip.{IsSendable, IsByte}
use n_rf24_module.RadioInterface.{RadioInterface, no_seq}
use n_rf24_module.RadioInterface.Transmit.{build_next_data_frame_locked}
use n_rf24_module.RadioInterface.Valid.{IsQueued, build-IsValid}
use n_rf24_module.RadioInterface.Fragment.{
  build_cases, flight_frame, flight_frame-IsSendable, ack_IsByte,
}
use n_rf24_module.Coordinator.{
  CoordinatorState, reset_sync, idle, issue_grant, active_rx, Coordinator, arrive,
  default_burst_grant, fair_data_burst_limit,
}
use n_rf24_module.Coordinator.Choose.{
  local_has_data, choose_in, choose_idle, send_data, grant_frame, sent_grant,
  choose_coordinator_tx_frame, flag,
}
use n_rf24_module.Coordinator.Valid.{IsValid, arrive-IsValid, arrive-local_has_data, with_link}

-- Where there is local data, a DATA frame is built.
pub has_data_builds :
    (r : RadioInterface)
    → local_has_data r ≡ true
    → let (built, tx, r') = build_next_data_frame_locked r in
      (built ≡ true) × (tx ≡ flight_frame r') × (r'.tx_in_flight ≡ true)
has_data_builds r h = ground (arith, build_cases r)

-- A choice that succeeds, with a frame that can be encoded, and keeps the invariant.
abbrev pub IsGoodChoice : Bool × MacFrame × Coordinator → Type 0
IsGoodChoice out = (out.0 ≡ true) × IsSendable out.1 × IsValid out.2

pub control-IsSendable :
    (t : FrameType) (a p g : ℕ)
    → (t ≡ reset) ⊎ ((t ≡ grant) ⊎ (t ≡ pending))
    → IsByte a
    → IsByte p
    → IsByte g
    → IsSendable (record empty_frame { type = t; ack = a; pending = p; arg = g })
control-IsSendable t a p g h ha hp hg = record {
  type_value = ground arith;
  seq_byte = omega arith;
  ack_byte = ha;
  pending_byte = hp;
  arg_byte = hg;
  payload_bytes = tt;
  payload_fits = ground arith;
}

-- The caller overwrites the hint of a DATA frame.
pub hinted-IsSendable :
    (f : MacFrame) (p : ℕ) → IsByte p → IsSendable f → IsSendable (record f { pending = p })
hinted-IsSendable f p h s = record {
  type_value = s.type_value;
  seq_byte = s.seq_byte;
  ack_byte = s.ack_byte;
  pending_byte = h;
  arg_byte = s.arg_byte;
  payload_bytes = s.payload_bytes;
  payload_fits = s.payload_fits;
}

send_data-Good :
    (c : Coordinator) → IsValid c → local_has_data c.radio ≡ true → IsGoodChoice (send_data c)
send_data-Good c v h =
    let (built, same, busy) = has_data_builds c.radio h in
    let link = build-IsValid c.radio v.link in
    rw (built, same)
      (
        refl,
        hinted-IsSendable _ 1 (omega arith) (flight_frame-IsSendable _ link busy),
        with_link c _ _ _ link v,
      )

pub flag-IsByte : (b : Bool) → IsByte (flag b)
flag-IsByte b = ground arith

module _ (c : Coordinator) (a : ℕ) (v : IsValid c) (ack_byte : IsByte a) where
  -- the frame with the ACK, before the switch
  abbrev acked : MacFrame
  acked = record empty_frame { ack = a }

  grant-Good : (b : Bool) → IsGoodChoice (true, grant_frame b acked, sent_grant c)
  grant-Good b = (
    refl,
    control-IsSendable grant a (flag b) default_burst_grant (inr (inl refl)) ack_byte
        (flag-IsByte b) (omega arith),
    with_link c c.radio _ false v.link v,
  )

  choose_idle-Good :
      (has_data : Bool)
      → (has_data ≡ true → local_has_data c.radio ≡ true)
      → IsGoodChoice (choose_idle has_data acked c)
  choose_idle-Good false h = (
    refl,
    control-IsSendable pending a 0 0 (inr (inr refl)) ack_byte (omega arith) (omega arith),
    with_link c c.radio _ false v.link v,
  )
  choose_idle-Good true h =
      elim (Bool-cases
        (c.peer_has_pending && leb fair_data_burst_limit c.consecutive_local_data_frames)) [
          | inl fair ↦ rw fair (grant-Good true)
          | inr free ↦ rw free (send_data-Good c v (h refl))
        ]

  choose_in-Good :
      (s : CoordinatorState) (has_data : Bool)
      → (has_data ≡ true → local_has_data c.radio ≡ true)
      → IsGoodChoice (choose_in s has_data acked c)
  unfolding choose_in
  choose_in-Good reset_sync has_data h = (
    refl,
    control-IsSendable reset a 0 0 (inl refl) ack_byte (omega arith) (omega arith),
    with_link c c.radio c.counters false v.link v,
  )
  choose_in-Good issue_grant has_data h = grant-Good has_data
  choose_in-Good active_rx has_data h = grant-Good has_data
  choose_in-Good idle has_data h = choose_idle-Good has_data h

-- In a valid state, whatever packets of bytes the tunnel thread queues meanwhile, none of them
-- empty, ChooseCoordinatorTxFrame succeeds, its frame can be encoded and arrives as it is, and the
-- state stays valid.
pub choose-Good :
    (arrivals : List (List ℕ)) (c : Coordinator)
    → All IsQueued arrivals
    → IsValid c
    → IsGoodChoice (choose_coordinator_tx_frame arrivals c)
unfolding choose_coordinator_tx_frame
choose-Good arrivals c h v =
    let arrived = arrive arrivals c.radio in
    choose_in-Good (record c { radio = arrived }) (value_or c.radio.last_rx_seq no_seq)
      (with_link c arrived c.counters c.last_tx_was_data (arrive-IsValid arrivals c.radio h v.link)
        v)
      (ack_IsByte c.radio.last_rx_seq v.link.received) c.state (local_has_data c.radio)
      (arrive-local_has_data arrivals c.radio)

pub build_type : (r : RadioInterface) → (build_next_data_frame_locked r).1.type ≡ data_frame
unfolding build_next_data_frame_locked
build_type r = ground arith

send_data_type : (c : Coordinator) → (send_data c).1.type ≡ data_frame
send_data_type c = ground (arith, build_type c.radio)

-- The type that is picked in a state, with or without local data.
abbrev pub picked : CoordinatorState → Bool → Bool → FrameType
picked reset_sync has_data burst_over = reset
picked issue_grant has_data burst_over = grant
picked active_rx has_data burst_over = grant
picked idle has_data burst_over =
    if has_data then (if burst_over then grant else data_frame) else pending

abbrev pub is_burst_over : Coordinator → Bool
is_burst_over c = c.peer_has_pending && leb fair_data_burst_limit c.consecutive_local_data_frames

choose_in_type :
    (s : CoordinatorState) (has_data : Bool) (tx : MacFrame) (c : Coordinator)
    → (choose_in s has_data tx c).1.type ≡ picked s has_data (is_burst_over c)
unfolding choose_in
choose_in_type reset_sync has_data tx c = refl
choose_in_type issue_grant has_data tx c = refl
choose_in_type active_rx has_data tx c = refl
choose_in_type idle false tx c = refl
choose_in_type idle true tx c = ground (arith, send_data_type c)

-- What the picked types tell.
abbrev pub Tells : FrameType → CoordinatorState → Bool → Bool → Type 0
Tells type s has_data burst_over =
    ((type ≡ reset) ↔ (s ≡ reset_sync))
    × ((type ≡ pending) ↔ ((s ≡ idle) × (has_data ≡ false)))
    × ((type ≡ data_frame) ↔ ((s ≡ idle) × (has_data ≡ true) × (burst_over ≡ false)))
    × ((type ≡ grant) ↔ (
        (s ≡ issue_grant)
        ⊎ ((s ≡ active_rx) ⊎ ((s ≡ idle) × (has_data ≡ true) × (burst_over ≡ true)))))

picked-Tells : (s : CoordinatorState) (h b : Bool) → Tells (picked s h b) s h b
picked-Tells reset_sync h b = ground arith
picked-Tells issue_grant h b = ground arith
picked-Tells active_rx h b = ground arith
picked-Tells idle true true = ground arith
picked-Tells idle true false = ground arith
picked-Tells idle false b = ground arith

-- The frame's type is settled by the state, the local queue, the peer's hint and the DATA frames
-- sent in a row: Reset in ResetSync; Pending when idle with nothing to send; DATA when idle with
-- something to send, unless the peer waits and two DATA frames have gone out; in that case, and in
-- IssueGrant and ActiveRx, a Grant. What the tunnel thread queues meanwhile does not matter.
pub choose_type :
    (arrivals : List (List ℕ)) (c : Coordinator)
    → Tells
        (choose_coordinator_tx_frame arrivals c).1.type
        c.state
        (local_has_data c.radio)
        (is_burst_over c)
unfolding choose_coordinator_tx_frame
choose_type arrivals c =
    rw
      (choose_in_type c.state (local_has_data c.radio)
        (record empty_frame { ack = value_or c.radio.last_rx_seq no_seq })
        (record c { radio = arrive arrivals c.radio }))
      (picked-Tells c.state (local_has_data c.radio) (is_burst_over c))
