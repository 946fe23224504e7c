-- ===== src/System/Reads.antt =====
-- Which packets the tunnel threads of the coordinator and the peer have queued after a history.
use n_rf24_module.Prelude.{
  ℕ, ◌≡◌, ◌∙◌, sym, ap, List, [], ◌∷◌, ◌++◌, arith, All, append-nil, append_assoc,
}
use n_rf24_module.Packet.Keep.{IsIp, keep_ip, keep_ip_nil, keep_ip-append, keep_ip-IsIp}
use n_rf24_module.Session.Delivery.{tunnel_read-accepted}
use n_rf24_module.System.{
  System, fresh_system, here, there, Air, Event, coordinator_reads, peer_reads, exchanges, exchange,
  system_step, system_run,
}

-- The packets that are read, oldest first.
abbrev pub coordinator_packets : List Event → List (List ℕ)
coordinator_packets [] = []
coordinator_packets (coordinator_reads packet ∷ es) = packet ∷ coordinator_packets es
coordinator_packets (peer_reads packet ∷ es) = coordinator_packets es
coordinator_packets (exchanges air ∷ es) = coordinator_packets es

abbrev pub peer_packets : List Event → List (List ℕ)
peer_packets [] = []
peer_packets (coordinator_reads packet ∷ es) = peer_packets es
peer_packets (peer_reads packet ∷ es) = packet ∷ peer_packets es
peer_packets (exchanges air ∷ es) = peer_packets es

-- An exchange does not read from a tunnel.
pub exchange-accepted :
    (air : Air) (s : System)
    → ((exchange air s).coordinator_accepted ≡ s.coordinator_accepted)
      × ((exchange air s).peer_accepted ≡ s.peer_accepted)
unfolding exchange
exchange-accepted air s = ground arith

append-keep_ip :
    (before rest : List (List ℕ)) (p : List ℕ)
    → (before ++ keep_ip (p ∷ [])) ++ keep_ip rest ≡ before ++ keep_ip (p ∷ rest)
append-keep_ip before rest p =
    append_assoc before (keep_ip (p ∷ [])) (keep_ip rest)
    ∙ ap (◌++◌ before) (sym (keep_ip-append (p ∷ []) rest))

-- What is queued are the valid packets that were read.
pub system_run-accepted :
    (es : List Event) (s : System)
    → let s' = system_run es s in
      (s'.coordinator_accepted ≡ s.coordinator_accepted ++ keep_ip (coordinator_packets es))
      × (s'.peer_accepted ≡ s.peer_accepted ++ keep_ip (peer_packets es))
unfolding system_run system_step
system_run-accepted [] s = (
  sym (ap (◌++◌ s.coordinator_accepted) keep_ip_nil ∙ append-nil s.coordinator_accepted),
  sym (ap (◌++◌ s.peer_accepted) keep_ip_nil ∙ append-nil s.peer_accepted),
)
system_run-accepted (coordinator_reads p ∷ es) s =
    let (c, q) = system_run-accepted es (system_step (coordinator_reads p) s) in
    (
      c
          ∙ (ap (λ a. a ++ keep_ip (coordinator_packets es)) (tunnel_read-accepted p (here s))
              ∙ append-keep_ip s.coordinator_accepted (coordinator_packets es) p),
      q,
    )
system_run-accepted (peer_reads p ∷ es) s =
    let (c, q) = system_run-accepted es (system_step (peer_reads p) s) in
    (
      c,
      q
          ∙ (ap (λ a. a ++ keep_ip (peer_packets es)) (tunnel_read-accepted p (there s))
              ∙ append-keep_ip s.peer_accepted (peer_packets es) p),
    )
system_run-accepted (exchanges air ∷ es) s =
    let (c, q) = system_run-accepted es (exchange air s) in
    let same = exchange-accepted air s in
    (
      c ∙ ap (λ a. a ++ keep_ip (coordinator_packets es)) same.0,
      q ∙ ap (λ a. a ++ keep_ip (peer_packets es)) same.1,
    )

pub system_run-IsIp :
    (es : List Event)
    → let s = system_run es fresh_system in
      All IsIp s.coordinator_accepted × All IsIp s.peer_accepted
system_run-IsIp es =
    let (c, q) = system_run-accepted es fresh_system in
    (rw c (keep_ip-IsIp (coordinator_packets es)), rw q (keep_ip-IsIp (peer_packets es)))
