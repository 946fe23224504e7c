-- ===== src/Examples/Coordinators.antt =====
-- The coordinator of nerfnet/net/primary_radio_interface.cc at concrete states.
use n_rf24_module.Prelude.{Returns, ◌≡◌, refl, inl, [], ◌∷◌, arith, leb}
use n_rf24_module.RadioInterface.{initial}
use n_rf24_module.RadioInterface.Transmit.{push_back}
use n_rf24_module.RadioInterface.Valid.{initial-IsValid, push_back-IsValid}
use n_rf24_module.Coordinator.{Coordinator, new_coordinator, timeout}
use n_rf24_module.Coordinator.Choose.{local_has_data, choose_coordinator_tx_frame}
use n_rf24_module.Coordinator.Exchange.{connection_reset, perform_exchange}
use n_rf24_module.Coordinator.Loop.{reconnected, run_iteration}
use n_rf24_module.Coordinator.Valid.{IsValid, new_coordinator-IsValid}
use n_rf24_module.Coordinator.Frames.{choose-Good, IsGoodChoice, choose_type, Tells, is_burst_over}
use n_rf24_module.Coordinator.Kept.{IsKept}
use n_rf24_module.Coordinator.Returns.{perform-Returns}
use n_rf24_module.Coordinator.Resets.{StartsOver, reset-Returns}
use n_rf24_module.Coordinator.Iteration.{StaysValid, run_iteration-Returns}
use n_rf24_module.Coordinator.Disconnect.{
  failures, failures_allowed, failures-disconnect, iteration-ignores-interval,
}
use n_rf24_module.Examples.Packets.{ping, ping_bytes, bare, bare_bytes}
use n_rf24_module.Examples.Radio.{echo, echo-Clock, echo-Reads}

-- A connected node with one packet to send.
abbrev ready : Coordinator
ready = record (reconnected (new_coordinator 100)) { radio = push_back ping initial }

ready-IsValid : IsValid ready
unfolding new_coordinator
ready-IsValid = record {
  link = push_back-IsValid ping initial (refl, ping_bytes) initial-IsValid;
  matches = refl;
  required = inl refl;
  backoff = omega arith;
  streaks = omega arith;
  burst = omega arith;
}

choose-Good_example : IsGoodChoice (choose_coordinator_tx_frame (bare ∷ []) ready)
choose-Good_example = choose-Good (bare ∷ []) ready ((refl, bare_bytes), tt) ready-IsValid

choose_type_example :
    Tells
      (choose_coordinator_tx_frame [] ready).1.type
      ready.state
      (local_has_data ready.radio)
      (is_burst_over ready)
choose_type_example = choose_type [] ready

perform-Returns_example : Returns (IsKept echo) (perform_exchange echo 2002 [] (bare ∷ []) ready 7)
unfolding new_coordinator
perform-Returns_example =
    perform-Returns echo echo-Clock echo-Reads refl 2002 (omega arith) [] (bare ∷ []) ready 7 tt
      ((refl, bare_bytes), tt) ready-IsValid (refl, refl)

reset-Returns_example :
    Returns
      (λ out. StartsOver (bare ∷ []) ready out.1)
      (connection_reset echo 2002 (bare ∷ []) ready 7)
reset-Returns_example =
    reset-Returns echo echo-Clock echo-Reads refl 2002 (omega arith) (bare ∷ []) ready 7

run_iteration-Returns_example :
    Returns (StaysValid echo) (run_iteration echo 2002 (ping ∷ []) [] (new_coordinator 100) 7)
run_iteration-Returns_example =
    run_iteration-Returns echo echo-Clock echo-Reads refl 2002 (omega arith) (ping ∷ []) []
      (new_coordinator 100) 7 ((refl, ping_bytes), tt) tt (new_coordinator-IsValid 100)

failures-disconnect_example :
    (failures echo 7 timeout ready 7).0.disconnected ≡ leb (failures_allowed echo timeout) 7
unfolding new_coordinator
failures-disconnect_example = failures-disconnect echo timeout 7 ready 7 refl refl refl

iteration-ignores-interval_example :
    run_iteration echo 2002 [] [] (record ready { current_poll_interval_us = 500 }) 7
    ≡ run_iteration echo 2002 [] [] ready 7
unfolding new_coordinator
iteration-ignores-interval_example = iteration-ignores-interval echo 2002 500 [] [] ready 7 refl
