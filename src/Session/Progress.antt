-- ===== src/Session/Progress.antt =====
-- How long two nodes that run the methods of nerfnet/net/radio_interface.cc need without losses.
use n_rf24_module.Prelude.{
  ℕ, zero, suc, ◌+◌, ◌-◌, ◌/◌, ◌≤◌, ◌≡◌, ◌∙◌, inl, inr, refl, sym, ap, subst, true, false, List, [],
  ◌∷◌, ◌++◌, some, All, append-nil, arith, length, min, length-take, length-drop,
}
use n_rf24_module.Frame.{ack}
use n_rf24_module.Packet.Keep.{IsIp}
use n_rf24_module.RadioInterface.{RadioInterface}
use n_rf24_module.RadioInterface.Transmit.{
  get_transfer_size, consume_front, build_next_data_frame_locked, commit_ack_locked,
}
use n_rf24_module.RadioInterface.Valid.{IsQueued, IsFragment}
use n_rf24_module.RadioInterface.Fragment.{
  flight_frame, flight_IsFragment, flight_frame-IsSendable, build_cases,
}
use n_rf24_module.Session.{
  fresh_node, Node, receive_frame, control_frame, sends_data, sends_control, heard, act, Event,
  left, right, step, run,
}
use n_rf24_module.Session.Sync.{Outgoing, outgoing, Sync, incoming-commit}
use n_rf24_module.Session.Commit.{commit_flight, commit_other}
use n_rf24_module.Session.Receive.{receive-last_rx_seq}
use n_rf24_module.Session.Hearing.{heard-receive, receive_control, control-IsSendable}
use n_rf24_module.Session.Agree.{
  fresh-Agree, Agree, launched, launched-Agree, hears-Agree, EventIsValid, run-Agree,
}
use n_rf24_module.Session.Delivery.{Sync-Delivers, run-IsIp}

-- How many DATA frames a queue takes: 27 bytes each, the last of a packet maybe fewer.
unfoldable pub fragments : List (List ℕ) → ℕ
fragments [] = 0
fragments (f ∷ q) = (length f + 26) / 27 + fragments q

-- A DATA frame from the left that is heard, and an ACK frame in answer.
abbrev pub round : List Event
round = left (sends_data true) ∷ right (sends_control ack 0 0) ∷ []

unfoldable pub rounds : ℕ → List Event
rounds zero = []
rounds (suc k) = left (sends_data true) ∷ right (sends_control ack 0 0) ∷ rounds k

pub fragments-consume :
    (q : List (List ℕ)) (payload : List ℕ) (bytes : ℕ)
    → All IsQueued q
    → IsFragment q payload bytes
    → fragments (consume_front (length payload) q) + 1 ≡ fragments q
unfolding fragments
fragments-consume [] payload bytes v k = absurd k
fragments-consume ([] ∷ q) payload bytes v k = cc (v.0.0)
fragments-consume ((b ∷ f) ∷ q) payload bytes v k =
    let size : length payload ≡ min (suc (length f)) 27 =
      omega (arith, ap length (k.0), length-take (get_transfer_size (b ∷ f)) (b ∷ f)) in
    ground (arith, length-drop (min (suc (length f)) (length payload)) (b ∷ f))

pub fragments-zero : (q : List (List ℕ)) → All IsQueued q → fragments q ≡ 0 → q ≡ []
unfolding fragments
fragments-zero [] v h = refl
fragments-zero ([] ∷ q) v h = cc (v.0.0)
fragments-zero ((b ∷ f) ∷ q) v h = absurd (omega arith)

module _ (m n : Node) (g : Agree m n) (busy : m.radio.tx_in_flight ≡ true) where
  -- the other node, once it has heard the fragment in flight
  abbrev hearer : RadioInterface
  hearer = heard (flight_frame m.radio) n.radio

  hearer-last_rx_seq : hearer.last_rx_seq ≡ some m.radio.tx_inflight_seq
  unfolding receive_frame
  hearer-last_rx_seq =
      let f = flight_frame m.radio in
      rw (heard-receive f n.radio (flight_frame-IsSendable m.radio g.here_valid busy)) (
        receive-last_rx_seq m.radio (commit_ack_locked f.ack n.radio) m.accepted g.here_valid busy (
          subst (λ i. Sync (outgoing m.radio) i m.accepted) (sym (incoming-commit f.ack n.radio))
            g.forth))

  abbrev answered : RadioInterface
  answered = heard (control_frame ack 0 0 hearer) m.radio

  -- The answer takes the fragment off the queue.
  answered-fragments : fragments answered.read_buffer + 1 ≡ fragments m.radio.read_buffer
  answered-fragments =
      let g' = hears-Agree m n busy g in
      let f = control_frame ack 0 0 hearer in
      rw
        (
          heard-receive f m.radio (
              control-IsSendable ack 0 0 hearer (refl, tt, omega arith, omega arith)
                g'.there_valid),
          receive_control f m.radio refl,
          hearer-last_rx_seq,
          ap (λ (o : Outgoing). o.queue) (commit_flight m.radio g.here_valid.sequence busy),
        )
        (fragments-consume m.radio.read_buffer m.radio.tx_inflight_payload
          m.radio.tx_inflight_bytes_left g.here_valid.queue
          (flight_IsFragment m.radio g.here_valid busy).1)

pub read_buffer-build :
    (r : RadioInterface) → (build_next_data_frame_locked r).2.read_buffer ≡ r.read_buffer
unfolding build_next_data_frame_locked
read_buffer-build r = ground arith

-- With nothing in flight an answer changes nothing.
answer_idle :
    (m n : Node)
    → Agree m n
    → m.radio.tx_in_flight ≡ false
    → heard (control_frame ack 0 0 n.radio) m.radio ≡ m.radio
answer_idle m n g idle =
    let f = control_frame ack 0 0 n.radio in
    let fits =
      control-IsSendable ack 0 0 n.radio (refl, tt, omega arith, omega arith) g.there_valid in
    rw (heard-receive f m.radio fits, receive_control f m.radio refl)
      (commit_other f.ack m.radio (inl idle))

-- One round without losses takes one fragment off the queue, until there is none.
round_lem :
    (m n : Node)
    → Agree m n
    → let (m', n') = run round (m, n) in
      (fragments m'.radio.read_buffer ≤ fragments m.radio.read_buffer - 1)
      × (m'.accepted ≡ m.accepted)
unfolding run step act fragments
round_lem m n g = elim (build_cases m.radio) [
  | inl (built, same, busy) ↦
      let taken = answered-fragments (launched m) n (launched-Agree m n g) busy in
      let queue = ap fragments (read_buffer-build m.radio) in
      rw (built, same) (omega (arith, taken, queue), refl)
  | inr (none_built, unchanged, idle, empty) ↦
      let idle' = ap (λ (r : RadioInterface). r.tx_in_flight) unchanged ∙ idle in
      let quiet = answer_idle (launched m) n (launched-Agree m n g) idle' in
      let same = ap (λ (r : RadioInterface). fragments r.read_buffer) (quiet ∙ unchanged) in
      rw none_built (omega (arith, same, ap fragments empty), refl)
]

round-EventIsValid : All EventIsValid round
round-EventIsValid = (tt, ((refl, tt, omega arith, omega arith), tt))

drain :
    (k : ℕ) (m n : Node)
    → Agree m n
    → fragments m.radio.read_buffer ≤ k
    → let (m', n') = run (rounds k) (m, n) in
      (m'.radio.read_buffer ≡ []) × (m'.accepted ≡ m.accepted) × Agree m' n'
unfolding run rounds
drain zero m n g h = (fragments-zero m.radio.read_buffer g.here_valid.queue (omega arith), refl, g)
drain (suc k) m n g h =
    let (m', n') = run round (m, n) in
    let one = round_lem m n g in
    let rest = drain k m' n' (run-Agree round m n round-EventIsValid g) (omega (arith, one.0)) in
    (rest.0, rest.1 ∙ one.1, rest.2)

-- Without losses, one round per fragment is enough: after any history of losses, and for any `k` of
-- at least the number of fragments queued, `k` rounds empty the queue, and the other node has then
-- written to its tunnel exactly the packets that were accepted here.
pub rounds-Delivers :
    (es : List Event) (k : ℕ)
    → All EventIsValid es
    → let (m, n) = run es (fresh_node, fresh_node) in
      fragments m.radio.read_buffer ≤ k
      → let (m', n') = run (rounds k) (m, n) in
        (m'.radio.read_buffer ≡ []) × (n'.radio.tunnel_written ≡ m.accepted)
rounds-Delivers es k h enough =
    let (m, n) = run es (fresh_node, fresh_node) in
    let (m', n') = run (rounds k) (m, n) in
    let done = drain k m n (run-Agree es fresh_node fresh_node h fresh-Agree) enough in
    let ip = subst (All IsIp) (sym done.1) (run-IsIp es).0 in
    let (rest, all, tail) = Sync-Delivers m' n' ip done.2.forth in
    (
      done.0,
      sym (append-nil _) ∙ ap (◌++◌ n'.radio.tunnel_written) (sym (tail done.0)) ∙ all ∙ done.1,
    )
