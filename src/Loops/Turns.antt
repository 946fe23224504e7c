-- ===== src/Loops/Turns.antt =====
-- The turns of the coordinator and the peer (System and its children) on states that agree in the
-- members that the answers of nerfnet/net/primary_radio_interface.cc and
-- secondary_radio_interface.cc depend on.
use n_rf24_module.Prelude.{
  ℕ, ◌≡◌, ◌∙◌, refl, ap, subst, Bool, true, false, List, [], ◌∷◌, arith, if◌then◌else◌,
}
use n_rf24_module.Frame.{FrameType, MacFrame}
use n_rf24_module.Packet.{is_valid_ip_packet}
use n_rf24_module.RadioInterface.{RadioInterface}
use n_rf24_module.RadioInterface.Transmit.{push_back}
use n_rf24_module.Session.{Node, tunnel_read}
use n_rf24_module.Coordinator.{Coordinator}
use n_rf24_module.Coordinator.Choose.{choose_coordinator_tx_frame}
use n_rf24_module.Coordinator.Apply.{apply_peer_response}
use n_rf24_module.Coordinator.Exchange.{count_data_frames, is_reset, cleared}
use n_rf24_module.Coordinator.Loop.{reconnected}
use n_rf24_module.Peer.{Peer}
use n_rf24_module.Peer.Request.{apply_coordinator_request, choose_peer_response}
use n_rf24_module.Peer.Loop.{peer_cleared}
use n_rf24_module.System.{
  System, over_air, Air, request_lost, answer_lost, both_heard, coordinator_reads, peer_reads,
  exchanges, here, there, hear_answer, answer_request, take_request, hear_request, exchange,
  system_step,
}
use n_rf24_module.System.Reset.{
  reset_connection, recount, lose_connection, radio_turn, Turn, event, gives_up, take_turn, history,
}
use n_rf24_module.System.Reconnect.{reset_arrives}
use n_rf24_module.Loops.Bare.{
  choose-Like, apply-Like, apply_request-Like, choose_response-Like, bare_coordinator, bare_peer,
  SameCoordinator, SamePeer,
}

-- Both programs agree.
abbrev pub Like : System → System → Type 0
Like s t = SameCoordinator s.coordinator t.coordinator × SamePeer s.peer t.peer

pub Like-trans : (s t u : System) → Like s t → Like t u → Like s u
Like-trans s t u (a, b) (c, d) = (a ∙ c, b ∙ d)

if-Like :
    (b b' : Bool) (s s' t t' : System)
    → b ≡ b'
    → Like s s'
    → Like t t'
    → Like (if b then s else t) (if b' then s' else t')
if-Like true true s s' t t' e g h = g
if-Like false false s s' t t' e g h = h
if-Like true false s s' t t' e g h = ground arith
if-Like false true s s' t t' e g h = ground arith

pub counted-Like :
    (b b' : Bool) (t u : FrameType) (c d : Coordinator)
    → b ≡ b'
    → SameCoordinator c d
    → SameCoordinator
        (record c {
          consecutive_local_data_frames = count_data_frames b t u c.consecutive_local_data_frames;
        })
        (record d {
          consecutive_local_data_frames = count_data_frames b' t u d.consecutive_local_data_frames;
        })
counted-Like b b' t u c d e h = cc

pub hear_answer-Like :
    (air : Air) (t : FrameType) (f g : MacFrame) (c d : Coordinator)
    → f ≡ g
    → SameCoordinator c d
    → SameCoordinator (hear_answer air t f c) (hear_answer air t g d)
hear_answer-Like request_lost t f g c d e h = h
hear_answer-Like answer_lost t f g c d e h = h
hear_answer-Like both_heard t f g c d e h =
    let rx = over_air f in
    let (applied, c1) = apply_peer_response rx c in
    let (applied', d1) = apply_peer_response rx d in
    let (a, k) = apply-Like c d h rx in
    counted-Like applied applied' t rx.type c1 d1 a k
    ∙ ap (λ o. bare_coordinator (hear_answer both_heard t o d)) e

module _ (air : Air) (t : FrameType) where
  answer-Like :
      (s s' : System) → Like s s' → Like (answer_request air t s) (answer_request air t s')
  answer-Like s s' (h, k) =
      let (_, f, p) = choose_peer_response [] s.peer in
      let (_, f', p') = choose_peer_response [] s'.peer in
      let (a, b, e) = choose_response-Like s.peer s'.peer k in
      if-Like _ _ (record s { peer = p; coordinator = hear_answer air t f s.coordinator })
        (record s' { peer = p'; coordinator = hear_answer air t f' s'.coordinator })
        (record s { peer = p }) (record s' { peer = p' }) a
        (hear_answer-Like air t f f' s.coordinator s'.coordinator b h, e) (h, e)

  take-Like :
      (rx : MacFrame) (s s' : System)
      → Like s s'
      → Like (take_request air t rx s) (take_request air t rx s')
  take-Like rx s s' (h, k) =
      let p = (apply_coordinator_request rx s.peer).1 in
      let p' = (apply_coordinator_request rx s'.peer).1 in
      let (a, e) = apply_request-Like s.peer s'.peer k rx in
      let served = record s { peer = p } in
      let served' = record s' { peer = p' } in
      let resets = record s { peer = peer_cleared s.peer } in
      let resets' = record s' { peer = peer_cleared s'.peer } in
      if-Like (is_reset rx.type) (is_reset rx.type) resets resets' _ _ refl
        (h, ap (λ o. bare_peer (peer_cleared o)) k)
        (if-Like _ _ (answer_request air t served) (answer_request air t served') served served' a
          (answer-Like served served' (h, e)) (h, e))

hear-Like :
    (air : Air) (f : MacFrame) (s s' : System)
    → Like s s'
    → Like (hear_request air f s) (hear_request air f s')
hear-Like request_lost f s s' l = l
hear-Like answer_lost f s s' l = take-Like answer_lost f.type (over_air f) s s' l
hear-Like both_heard f s s' l = take-Like both_heard f.type (over_air f) s s' l

pub exchange-Like :
    (air : Air) (s s' : System) → Like s s' → Like (exchange air s) (exchange air s')
unfolding exchange
exchange-Like air s s' (h, k) =
    let (_, f, c) = choose_coordinator_tx_frame [] s.coordinator in
    let (_, f', c') = choose_coordinator_tx_frame [] s'.coordinator in
    let (a, b, e) = choose-Like s.coordinator s'.coordinator h in
    let chosen = record s { coordinator = c } in
    let chosen' = record s' { coordinator = c' } in
    if-Like _ _ (hear_request air f chosen) (hear_request air f' chosen') chosen chosen' a
      (subst (λ o. Like (hear_request air f chosen) (hear_request air o chosen')) b
        (hear-Like air f chosen chosen' (e, k)))
      (e, k)

-- What ConnectionReset clears, and what a success sets, do not depend on the rest.
cleared-Like : (c d : Coordinator) → SameCoordinator c d → SameCoordinator (cleared c) (cleared d)
cleared-Like c d h = ap (λ o. bare_coordinator (cleared o)) h

reset-Like :
    (air : Air) (s s' : System)
    → Like s s'
    → Like (reset_connection air s) (reset_connection air s')
unfolding reset_connection
reset-Like request_lost s s' (h, k) = (cleared-Like s.coordinator s'.coordinator h, k)
reset-Like answer_lost s s' (h, k) =
    rw reset_arrives
      (cleared-Like s.coordinator s'.coordinator h, ap (λ o. bare_peer (peer_cleared o)) k)
reset-Like both_heard s s' (h, k) =
    rw reset_arrives (
      ap (λ o. bare_coordinator (reconnected (cleared o))) h,
      ap (λ o. bare_peer (peer_cleared o)) k,
    )

radio_turn-Like :
    (air : Air) (s s' : System) → Like s s' → Like (radio_turn air s) (radio_turn air s')
unfolding radio_turn
radio_turn-Like air s s' l =
    if-Like _ _ (recount (reset_connection air s)) (recount (reset_connection air s'))
      (exchange air s) (exchange air s') (ap (λ o. o.connection_reset_required) l.0)
      (reset-Like air s s' l) (exchange-Like air s s' l)

-- What the tunnel thread makes of a packet that it read.
abbrev pub take_packet : List ℕ → RadioInterface → RadioInterface
take_packet packet r = if is_valid_ip_packet packet then push_back packet r else r

pub tunnel_read-radio :
    (packet : List ℕ) (n : Node) → (tunnel_read packet n).radio ≡ take_packet packet n.radio
unfolding tunnel_read
tunnel_read-radio packet n = ground arith

pub turn-Like : (t : Turn) (s s' : System) → Like s s' → Like (take_turn t s) (take_turn t s')
unfolding take_turn system_step
turn-Like gives_up s s' (h, k) = (ap (λ o. bare_coordinator (lose_connection o)) h, k)
turn-Like (event (exchanges air)) s s' l = radio_turn-Like air s s' l
turn-Like (event (coordinator_reads p)) s s' (h, k) = (
  rw (tunnel_read-radio p (here s), tunnel_read-radio p (here s'))
      (ap {A = Coordinator} (λ o. record o { radio = take_packet p o.radio }) h),
  k,
)
turn-Like (event (peer_reads p)) s s' (h, k) = (
  h,
  rw (tunnel_read-radio p (there s), tunnel_read-radio p (there s'))
      (ap {A = Peer} (λ o. record o { radio = take_packet p o.radio }) k),
)

pub history-Like :
    (ts : List Turn) (s s' : System) → Like s s' → Like (history ts s) (history ts s')
unfolding history
history-Like [] s s' l = l
history-Like (t ∷ ts) s s' l = history-Like ts (take_turn t s) (take_turn t s') (turn-Like t s s' l)
