-- ===== src/System/Epoch.antt =====
-- What the coordinator and the peer (nerfnet/net/primary_radio_interface.cc and
-- secondary_radio_interface.cc) deliver over connections that are lost and reset.
use n_rf24_module.Prelude.{
  ℕ, ◌≡◌, ◌∙◌, ◌⊎◌, inl, inr, refl, ap, true, false, List, [], ◌++◌, All, append_assoc, arith,
  if-preserves, Bool-cases,
}
use n_rf24_module.Packet.Keep.{IsIp, keep_ip, keep_ip-append, keep_ip_same, keep_ip-IsIp}
use n_rf24_module.Session.{Node}
use n_rf24_module.Session.Delivery.{DeliversValid, Sync-DeliversValid}
use n_rf24_module.Coordinator.Choose.{choose_in, choose_coordinator_tx_frame}
use n_rf24_module.Coordinator.Apply.{apply_type, apply_peer_response}
use n_rf24_module.System.{System, here, there, Air, both_heard, Event, exchange, system_run}
use n_rf24_module.System.Reads.{coordinator_packets, peer_packets, system_run-accepted}
use n_rf24_module.System.Delivery.{EventIsBytes, exchange-IsLinked, system_run-IsLinked}
use n_rf24_module.System.Accepted.{Succeeds, exchange-Succeeds}
use n_rf24_module.System.Reset.{start_system, radio_turn, recount, reset_connection, Turn, history}
use n_rf24_module.System.Reconnect.{
  TurnIsBytes, IsSound, history-IsSound, start-IsSound, reset_arrives, reset-IsLinked,
}

-- From a state in which `n` had written some packets and `m` had some queued, and after `m` has read
-- some more: what `n` has written now begins with what it had written, followed by the valid ones of
-- the others in their order, but for a tail; with an empty queue there is no tail.
abbrev pub Resumes : Node → Node → List (List ℕ) → Node → Node → Type 0
Resumes m0 n0 packets m n =
    (rest : List (List ℕ)) × (n.radio.tunnel_written ++ rest
      ≡ n0.radio.tunnel_written ++ keep_ip (m0.radio.read_buffer ++ packets))
    × (m.radio.read_buffer ≡ [] → rest ≡ [])

keep_ip-baseline :
    (written queue packets : List (List ℕ))
    → All IsIp written
    → keep_ip ((written ++ queue) ++ keep_ip packets) ≡ written ++ keep_ip (queue ++ packets)
keep_ip-baseline written queue packets h =
    rw
      (
        keep_ip-append (written ++ queue) (keep_ip packets),
        keep_ip-append written queue,
        keep_ip-append queue packets,
        keep_ip_same written h,
        keep_ip_same (keep_ip packets) (keep_ip-IsIp packets),
      )
      (append_assoc written (keep_ip queue) (keep_ip packets))

DeliversValid-Resumes :
    (m0 n0 m n : Node) (packets : List (List ℕ))
    → All IsIp n0.radio.tunnel_written
    → m.accepted ≡ (n0.radio.tunnel_written ++ m0.radio.read_buffer) ++ keep_ip packets
    → DeliversValid m n
    → Resumes m0 n0 packets m n
DeliversValid-Resumes m0 n0 m n packets h e (rest, all, tail) = (
  rest,
  all ∙ (ap keep_ip e ∙ keep_ip-baseline n0.radio.tunnel_written m0.radio.read_buffer packets h),
  tail,
)

reset-accepted :
    (s : System)
    → let t = recount (reset_connection both_heard s) in
      (t.coordinator_accepted ≡ s.peer.radio.tunnel_written ++ s.coordinator.radio.read_buffer)
      × (t.peer_accepted ≡ s.coordinator.radio.tunnel_written ++ s.peer.radio.read_buffer)
unfolding reset_connection
reset-accepted s = rw reset_arrives (refl, refl)

reset_turn :
    (s : System)
    → s.coordinator.connection_reset_required ≡ true
    → radio_turn both_heard s ≡ recount (reset_connection both_heard s)
unfolding radio_turn
reset_turn s h = ground (arith, h)

-- Any history of packets that are read, of exchanges and resets with lost frames, and of connections
-- that are given up, from the start of both programs. Where the connection is lost at its end, a reset
-- that is heard on both sides follows, and then any history of packets that are read and exchanges
-- with lost frames. Each node has then written, after what it had written before the reset, the valid
-- ones of what the other node had queued at the reset and has read since, whole and in order, but for a
-- tail, and all of them once the other node's queue is empty. Of a packet that was sent in part before
-- the reset, the rest counts as queued.
pub history-Resumes :
    (ts : List Turn) (es : List Event)
    → All TurnIsBytes ts
    → All EventIsBytes es
    → (history ts start_system).coordinator.connection_reset_required ≡ true
    → let s = history ts start_system in
      let u = system_run es (radio_turn both_heard s) in
      Resumes (here s) (there s) (coordinator_packets es) (here u) (there u)
      × Resumes (there s) (here s) (peer_packets es) (there u) (here u)
history-Resumes ts es ht he lost =
    let s = history ts start_system in
    let t = recount (reset_connection both_heard s) in
    let u = system_run es t in
    let sound = history-IsSound ts start_system ht start-IsSound in
    let agree = (system_run-IsLinked es t he (reset-IsLinked s sound)).agree in
    let (c, p) = system_run-accepted es t in
    let (c0, p0) = reset-accepted s in
    rw (reset_turn s lost) (
      DeliversValid-Resumes (here s) (there s) (here u) (there u) (coordinator_packets es)
          sound.there_written (c ∙ ap (λ a. a ++ keep_ip (coordinator_packets es)) c0)
          (Sync-DeliversValid (here u) (there u) agree.forth),
      DeliversValid-Resumes (there s) (here s) (there u) (here u) (peer_packets es)
          sound.here_written (p ∙ ap (λ a. a ++ keep_ip (peer_packets es)) p0)
          (Sync-DeliversValid (there u) (here u) agree.back),
    )

exchange-connected :
    (air : Air) (s : System)
    → (exchange air s).coordinator.connection_reset_required
      ≡ s.coordinator.connection_reset_required
unfolding exchange choose_coordinator_tx_frame choose_in apply_peer_response apply_type
exchange-connected air s = ground arith

reset-connects :
    (s : System)
    → (recount (reset_connection both_heard s)).coordinator.connection_reset_required ≡ false
unfolding reset_connection
reset-connects s = rw reset_arrives refl

-- A turn of which both frames are heard connects, or keeps connected.
abbrev Connects : System → Type 0
Connects s = (s.coordinator.connection_reset_required ≡ false) × Succeeds s

turn-Connects : (s : System) → IsSound s → Connects (radio_turn both_heard s)
unfolding radio_turn
turn-Connects s g =
    if-preserves (λ o. Connects o) s.coordinator.connection_reset_required
      (λ lost. (
        reset-connects s,
        exchange-Succeeds (recount (reset_connection both_heard s)) (reset-IsLinked s g),
      ))
      (λ connected. (
        exchange-connected both_heard s ∙ connected,
        exchange-Succeeds (exchange both_heard s)
            (exchange-IsLinked both_heard s (g.linked connected)),
      ))

-- After any such history, an exchange in which both frames are heard succeeds if the connection is
-- not lost; and one turn in which both frames are heard, be it a reset or an exchange, leaves a
-- connection on which the next exchange in which both frames are heard succeeds.
pub history-Succeeds :
    (ts : List Turn)
    → All TurnIsBytes ts
    → let s = history ts start_system in
      let t = radio_turn both_heard s in
      ((s.coordinator.connection_reset_required ≡ true) ⊎ Succeeds s)
      × (t.coordinator.connection_reset_required ≡ false)
      × Succeeds t
history-Succeeds ts h =
    let s = history ts start_system in
    let sound = history-IsSound ts start_system h start-IsSound in
    let (connected_then, succeeds_then) = turn-Connects s sound in
    (
      elim (Bool-cases s.coordinator.connection_reset_required) [
        | inl lost ↦ inl lost
        | inr connected ↦ inr (exchange-Succeeds s (sound.linked connected))
      ],
      connected_then,
      succeeds_then,
    )
