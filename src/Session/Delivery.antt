-- ===== src/Session/Delivery.antt =====
-- What two nodes that run the methods of nerfnet/net/radio_interface.cc deliver.
use n_rf24_module.Prelude.{ℕ, ◌≡◌, ◌∙◌, ap, List, [], ◌∷◌, ◌++◌, arith, All, All-append, append-nil}
use n_rf24_module.Packet.Keep.{IsIp, keep_ip, keep_ip_nil, keep_ip_same, keep_ip-IsIp}
use n_rf24_module.RadioInterface.Transmit.{consume_front}
use n_rf24_module.Session.{
  Node, fresh_node, tunnel_read, Act, reads, sends_data, sends_control, act, Event, left, right,
  step, run,
}
use n_rf24_module.Session.Sync.{outgoing, incoming, glue, Sync, expecting, delivered}
use n_rf24_module.Session.Agree.{EventIsValid, fresh-Agree, run-Agree}

-- What the receiver wrote to its tunnel is what the sender accepted, but for a tail; with an empty
-- queue there is no tail.
abbrev pub Delivers : Node → Node → Type 0
Delivers m n =
    (rest : List (List ℕ)) × (n.radio.tunnel_written ++ rest ≡ m.accepted)
    × (m.radio.read_buffer ≡ [] → rest ≡ [])

glue-empty : (buffer : List ℕ) (q : List (List ℕ)) → q ≡ [] → glue buffer q ≡ []
glue-empty buffer q e = ap (glue buffer) e

consume_front-empty : (n : ℕ) (q : List (List ℕ)) → q ≡ [] → consume_front n q ≡ []
consume_front-empty n q e = ap (consume_front n) e

-- The valid ones of what the sender accepted, where some are not.
abbrev pub DeliversValid : Node → Node → Type 0
DeliversValid m n =
    (rest : List (List ℕ)) × (n.radio.tunnel_written ++ rest ≡ keep_ip m.accepted)
    × (m.radio.read_buffer ≡ [] → rest ≡ [])

pub Sync-DeliversValid :
    (m n : Node) → Sync (outgoing m.radio) (incoming n.radio) m.accepted → DeliversValid m n
Sync-DeliversValid m n (expecting e c) = (_, c.1, λ e. ap keep_ip (glue-empty _ _ e) ∙ keep_ip_nil)
Sync-DeliversValid m n (delivered f l c) =
    (_, c.1, λ e. ap keep_ip (glue-empty _ _ (consume_front-empty _ _ e)) ∙ keep_ip_nil)

pub Sync-Delivers :
    (m n : Node)
    → All IsIp m.accepted
    → Sync (outgoing m.radio) (incoming n.radio) m.accepted
    → Delivers m n
Sync-Delivers m n ip h =
    let (rest, all, tail) = Sync-DeliversValid m n h in
    (rest, all ∙ keep_ip_same m.accepted ip, tail)

-- The tunnel thread accepts valid packets only.
pub tunnel_read-accepted :
    (p : List ℕ) (m : Node) → (tunnel_read p m).accepted ≡ m.accepted ++ keep_ip (p ∷ [])
unfolding tunnel_read keep_ip
tunnel_read-accepted p m = ground (arith, append-nil m.accepted)

tunnel_read-IsIp :
    (p : List ℕ) (m : Node) → All IsIp m.accepted → All IsIp (tunnel_read p m).accepted
tunnel_read-IsIp p m h =
    rw (tunnel_read-accepted p m)
      (All-append IsIp m.accepted (keep_ip (p ∷ [])) h (keep_ip-IsIp (p ∷ [])))

-- What both nodes have accepted.
abbrev AcceptIp : Node × Node → Type 0
AcceptIp s = All IsIp s.0.accepted × All IsIp s.1.accepted

act-AcceptIp : (a : Act) (m n : Node) → AcceptIp (m, n) → AcceptIp (act a m n)
unfolding act
act-AcceptIp (reads p) m n h = (tunnel_read-IsIp p m h.0, h.1)
act-AcceptIp (sends_data arrives) m n h = ground arith
act-AcceptIp (sends_control type pending arg) m n h = h

run-AcceptIp : (es : List Event) (s : Node × Node) → AcceptIp s → AcceptIp (run es s)
unfolding run step
run-AcceptIp [] s h = h
run-AcceptIp (left a ∷ es) s h = run-AcceptIp es (act a s.0 s.1) (act-AcceptIp a s.0 s.1 h)
run-AcceptIp (right a ∷ es) s h =
    let (n, m) = act a s.1 s.0 in
    let h' = act-AcceptIp a s.1 s.0 (h.1, h.0) in run-AcceptIp es (m, n) (h'.1, h'.0)

pub run-IsIp :
    (es : List Event)
    → let (m, n) = run es (fresh_node, fresh_node) in All IsIp m.accepted × All IsIp n.accepted
run-IsIp es = run-AcceptIp es (fresh_node, fresh_node) (tt, tt)

-- Two nodes start afresh, read any packets of bytes from their tunnels, build and send DATA frames
-- that are lost or heard, each any number of times, and hear each other's frames of other types.
-- Then each node has written to its tunnel, whole and in order, exactly the first of the valid IP
-- packets that the other node read, and all of them once the other node's queue is empty.
pub run-Delivers :
    (es : List Event)
    → All EventIsValid es
    → let (m, n) = run es (fresh_node, fresh_node) in Delivers m n × Delivers n m
run-Delivers es h =
    let (m, n) = run es (fresh_node, fresh_node) in
    let g = run-Agree es fresh_node fresh_node h fresh-Agree in
    let ip = run-IsIp es in (Sync-Delivers m n ip.0 g.forth, Sync-Delivers n m ip.1 g.back)
