-- ===== src/Loops/Exchanged.antt =====
-- What an exchange (PerformExchange of nerfnet/net/primary_radio_interface.cc) comes to once the peer
-- may have heard the frame.
use n_rf24_module.Prelude.{ℕ, ◌≡◌, inl, inr, sym, subst, false, List, [], Option, some, arith}
use n_rf24_module.Frame.{FrameType, MacFrame}
use n_rf24_module.Coordinator.{Coordinator}
use n_rf24_module.Coordinator.Exchange.{is_reset}
use n_rf24_module.Peer.{Peer}
use n_rf24_module.System.{
  System, over_air, Air, request_lost, answer_lost, both_heard, hear_answer, take_request,
  hear_request,
}
use n_rf24_module.Loops.Bare.{SameCoordinator, SamePeer}
use n_rf24_module.Loops.Turns.{Like}
use n_rf24_module.Loops.Heard.{served}
use n_rf24_module.Loops.Answers.{Hears}

-- The two programs, without the packets that were queued.
abbrev pub both : Coordinator → Peer → System
both c p = record { coordinator = c; coordinator_accepted = []; peer = p; peer_accepted = [] }

-- An exchange whose answer is lost changes the peer only.
answer_lost-is :
    (t : FrameType) (rx : MacFrame) (c : Coordinator) (p : Peer)
    → take_request answer_lost t rx (both c p) ≡ both c (served rx p).1
answer_lost-is t rx c p = ground arith

both_heard-is :
    (t : FrameType) (rx f : MacFrame) (c : Coordinator) (p : Peer)
    → is_reset rx.type ≡ false
    → (served rx p).0 ≡ some f
    → take_request both_heard t rx (both c p) ≡ both (hear_answer both_heard t f c) (served rx p).1
both_heard-is t rx f c p other e = ground (arith, other, e)

-- The states of an exchange in which `frame` is sent.
abbrev pub Exchanged : MacFrame → Coordinator → Peer → Coordinator → Peer → Type 0
Exchanged frame c p c1 p1 = (air : Air) × Like (both c1 p1) (hear_request air frame (both c p))

-- The coordinator hears nothing.
pub lost-Exchanged :
    (frame : MacFrame) (c c1 : Coordinator) (p p1 : Peer) (answer : Option (List ℕ))
    → SameCoordinator c1 c
    → Hears frame p p1 answer
    → Exchanged frame c p c1 p1
lost-Exchanged frame c c1 p p1 answer h (inl (k, e)) = (request_lost, (h, k))
lost-Exchanged frame c c1 p p1 answer h (inr (k, e)) = (
  answer_lost,
  subst (λ o. Like (both c1 p1) o) (sym (answer_lost-is frame.type (over_air frame) c p)) (h, k),
)

-- The states of an exchange in which both frames are heard.
abbrev pub BothHeard : MacFrame → Coordinator → Peer → Coordinator → Peer → Type 0
BothHeard frame c p c1 p1 = Like (both c1 p1) (hear_request both_heard frame (both c p))

pub answer-BothHeard :
    (frame f : MacFrame) (c c1 : Coordinator) (p p1 : Peer)
    → is_reset (over_air frame).type ≡ false
    → (served (over_air frame) p).0 ≡ some f
    → SameCoordinator c1 (hear_answer both_heard frame.type f c)
    → SamePeer p1 (served (over_air frame) p).1
    → BothHeard frame c p c1 p1
answer-BothHeard frame f c c1 p p1 other e h k =
    subst (λ o. Like (both c1 p1) o) (sym (both_heard-is frame.type (over_air frame) f c p other e))
      (h, k)
