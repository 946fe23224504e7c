-- ===== src/Examples/Peers.antt =====
-- The peer of nerfnet/net/secondary_radio_interface.cc at concrete states.
use n_rf24_module.Prelude.{
  Returns, ◌<◌, ◌≡◌, ◌↔◌, refl, true, false, [], ◌∷◌, arith, replicate, All-replicate,
}
use n_rf24_module.Frame.{pending, grant, data_frame, ack, empty_frame, MacFrame}
use n_rf24_module.RadioInterface.{initial}
use n_rf24_module.RadioInterface.Transmit.{push_back}
use n_rf24_module.RadioInterface.Valid.{initial-IsValid, push_back-IsValid}
use n_rf24_module.Coordinator.Choose.{local_has_data}
use n_rf24_module.Peer.{Peer, new_peer}
use n_rf24_module.Peer.Request.{apply_coordinator_request, choose_peer_response, apply_request_type}
use n_rf24_module.Peer.Loop.{handle_packet}
use n_rf24_module.Peer.Valid.{
  IsValid, new_peer-IsValid, with_peer_link, choose_response-Good, IsGoodAnswer,
}
use n_rf24_module.Peer.Budget.{answer, IsGrant, answer-IsGrant}
use n_rf24_module.Peer.Returns.{StaysValid, handle_packet-Returns}
use n_rf24_module.Examples.Packets.{ping, ping_bytes, bare, bare_bytes}
use n_rf24_module.Examples.Radio.{echo, echo-Clock}

-- A peer with one packet to send.
abbrev waiting : Peer
waiting = record new_peer { radio = push_back ping initial }

waiting-IsValid : IsValid waiting
waiting-IsValid =
    with_peer_link new_peer (push_back ping initial) new_peer.counters 0
      (push_back-IsValid ping initial (refl, ping_bytes) initial-IsValid) new_peer-IsValid

abbrev grant_request : MacFrame
grant_request = record empty_frame { type = grant; arg = 3 }

choose_response-Good_example : IsGoodAnswer (choose_peer_response (bare ∷ []) waiting)
choose_response-Good_example =
    choose_response-Good (bare ∷ []) waiting ((refl, bare_bytes), tt) waiting-IsValid

answer-IsGrant_example :
    let type = (answer [] grant_request waiting).1.type in
    let has_data = local_has_data (apply_coordinator_request grant_request waiting).1.radio in
    ((type ≡ data_frame) ↔ (IsGrant grant_request × (has_data ≡ true)))
    × ((type ≡ pending) ↔ ((¬ IsGrant grant_request) × (has_data ≡ true)))
    × ((type ≡ ack) ↔ (has_data ≡ false))
unfolding apply_coordinator_request apply_request_type
answer-IsGrant_example = answer-IsGrant [] grant_request waiting refl

handle_packet-Returns_example :
    Returns
      (StaysValid echo echo-Clock 401 (omega arith))
      (handle_packet echo 401 [] (replicate 32 5) waiting 7)
handle_packet-Returns_example =
    handle_packet-Returns echo echo-Clock 401 (omega arith) [] (replicate 32 5) waiting 7 tt
      (All-replicate (λ b. b < 256) 32 5 (omega arith)) waiting-IsValid
