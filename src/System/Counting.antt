-- ===== src/System/Counting.antt =====
-- How many fragments a frame that is heard takes off the queues (nerfnet/net/radio_interface.cc).
use n_rf24_module.Prelude.{
  ℕ, ◌+◌, ◌≤◌, ◌≡◌, ◌∙◌, inl, inr, refl, sym, ap, subst, true, false, List, some, arith, value_or,
  Bool-cases, ◌==◌,
}
use n_rf24_module.Frame.{MacFrame}
use n_rf24_module.RadioInterface.{RadioInterface, no_seq}
use n_rf24_module.RadioInterface.Transmit.{commit_ack_locked}
use n_rf24_module.RadioInterface.Valid.{IsValid, IsFragment}
use n_rf24_module.RadioInterface.Fragment.{flight_frame, flight_IsFragment}
use n_rf24_module.Session.{receive_frame}
use n_rf24_module.Session.Sync.{
  Outgoing, Incoming, outgoing, incoming, Sync, outgoing-consume, incoming-commit,
}
use n_rf24_module.Session.Commit.{commit_flight, commit_other}
use n_rf24_module.Session.Receive.{receive-last_rx_seq}
use n_rf24_module.Session.Progress.{fragments, fragments-consume, fragments-zero}
use n_rf24_module.Coordinator.Choose.{local_has_data}
use n_rf24_module.System.Frames.{receive-hinted}

-- The fragments in a queue.
abbrev pub queued : RadioInterface → ℕ
queued r = fragments r.read_buffer

pub receive-queued :
    (f : MacFrame) (r : RadioInterface)
    → queued (receive_frame f r) ≡ queued (commit_ack_locked f.ack r)
unfolding receive_frame
receive-queued f r =
    ap (λ (o : Outgoing). fragments o.queue) (outgoing-consume f (commit_ack_locked f.ack r))

-- The ACK of the fragment in flight takes it off the queue.
pub commit_flight-queued :
    (r : RadioInterface)
    → IsValid r
    → r.tx_in_flight ≡ true
    → queued (commit_ack_locked r.tx_inflight_seq r) + 1 ≡ queued r
commit_flight-queued r v busy =
    rw (ap (λ (o : Outgoing). o.queue) (commit_flight r v.sequence busy)) (
      fragments-consume r.read_buffer r.tx_inflight_payload r.tx_inflight_bytes_left v.queue
        (flight_IsFragment r v busy).1)

pub commit-queued :
    (k : ℕ) (r : RadioInterface) → IsValid r → queued (commit_ack_locked k r) ≤ queued r
commit-queued k r v = elim (Bool-cases r.tx_in_flight) [
  | inr free ↦ rw (commit_other k r (inl free)) (omega arith)
  | inl busy ↦ elim (Bool-cases (k == r.tx_inflight_seq)) [
    | inl same ↦
        let e : k ≡ r.tx_inflight_seq = ground arith in
        rw e (omega (arith, commit_flight-queued r v busy))
    | inr differs ↦ rw (commit_other k r (inr (ground arith))) (omega arith)
  ]
]

pub commit-twice :
    (k : ℕ) (r : RadioInterface)
    → commit_ack_locked k (commit_ack_locked k r) ≡ commit_ack_locked k r
unfolding commit_ack_locked
commit-twice k r = ground arith

pub commit-last_rx_seq :
    (k : ℕ) (r : RadioInterface) → (commit_ack_locked k r).last_rx_seq ≡ r.last_rx_seq
commit-last_rx_seq k r = ap (λ (i : Incoming). i.last) (incoming-commit k r)

queued-zero : (r : RadioInterface) → IsValid r → queued r ≡ 0 → local_has_data r ≡ false
queued-zero r v e =
    let empty = fragments-zero r.read_buffer v.queue e in
    elim (Bool-cases r.tx_in_flight) [
      | inr free ↦ rw (free, empty) refl
      | inl busy ↦ absurd (
          subst (λ q. IsFragment q r.tx_inflight_payload r.tx_inflight_bytes_left) empty
            (flight_IsFragment r v busy).1)
    ]

pub has_data-queued : (r : RadioInterface) → IsValid r → local_has_data r ≡ true → 1 ≤ queued r
has_data-queued r v h = elim (Bool-cases (queued r == 0)) [
  | inl none_left ↦ ground (arith, queued-zero r v (ground arith))
  | inr some_left ↦ ground arith
]

pub no_data-queued : (r : RadioInterface) → local_has_data r ≡ false → queued r ≡ 0
unfolding fragments
no_data-queued r h = ground arith

-- A fragment in flight that is heard, and whose ACK is heard.
pub taken-queued :
    (a b : RadioInterface) (accepted : List (List ℕ)) (f : MacFrame) (p : ℕ)
    → IsValid a
    → a.tx_in_flight ≡ true
    → Sync (outgoing a) (incoming b) accepted
    → f ≡ record (flight_frame a) { pending = p }
    → queued (commit_ack_locked (value_or (receive_frame f b).last_rx_seq no_seq) a) + 1 ≡ queued a
unfolding receive_frame
taken-queued a b accepted f p v busy g e =
    let b1 = commit_ack_locked (flight_frame a).ack b in
    let same : receive_frame f b ≡ receive_frame (flight_frame a) b =
      ap (λ o. receive_frame o b) e ∙ receive-hinted (flight_frame a) b p in
    let heard : (receive_frame f b).last_rx_seq ≡ some a.tx_inflight_seq =
      ap (λ (r : RadioInterface). r.last_rx_seq) same
      ∙ receive-last_rx_seq a b1 accepted v busy (
          subst (λ i. Sync (outgoing a) i accepted) (sym (incoming-commit (flight_frame a).ack b))
            g) in
    rw heard (commit_flight-queued a v busy)
