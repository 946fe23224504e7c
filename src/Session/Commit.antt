-- ===== src/Session/Commit.antt =====
-- CommitAckLocked (nerfnet/net/radio_interface.cc) keeps the two sides of a direction in agreement.
use n_rf24_module.Prelude.{
  ℕ, ◌≡◌, ◌≢◌, ◌⊎◌, inl, inr, sym, ap, subst, true, false, List, [], Option, none, some, arith,
  length, Bool-cases, value_or,
}
use n_rf24_module.RadioInterface.{RadioInterface, no_seq}
use n_rf24_module.RadioInterface.Sequence.{next_seq, next_seq-ne, IsSeq}
use n_rf24_module.RadioInterface.Transmit.{consume_front, commit_ack_locked}
use n_rf24_module.RadioInterface.Valid.{IsValid}
use n_rf24_module.RadioInterface.Fragment.{flight_IsFragment}
use n_rf24_module.Session.Sync.{Incoming, outgoing, Expects, Sync, expecting, delivered}

pub commit_other :
    (k : ℕ) (a : RadioInterface)
    → (a.tx_in_flight ≡ false) ⊎ (k ≢ a.tx_inflight_seq)
    → commit_ack_locked k a ≡ a
unfolding commit_ack_locked
commit_other k a (inl e) = ground arith
commit_other k a (inr e) = ground arith

pub commit_flight :
    (a : RadioInterface)
    → IsSeq a.next_tx_seq
    → a.tx_in_flight ≡ true
    → outgoing (commit_ack_locked a.tx_inflight_seq a) ≡ record {
      queue = consume_front (length a.tx_inflight_payload) a.read_buffer;
      flight = false;
      seq = 0;
      payload = [];
      next = next_seq a.next_tx_seq;
    }
unfolding commit_ack_locked next_seq
commit_flight a h e = ground arith

ack-ne :
    (a : RadioInterface)
    → IsValid a
    → a.tx_in_flight ≡ true
    → (last : Option ℕ) → Expects last a.next_tx_seq
    → value_or last no_seq ≢ a.tx_inflight_seq
ack-ne a v busy none e = omega (arith, (flight_IsFragment a v busy).0, v.sequence)
ack-ne a v busy (some l) e = omega (arith, (flight_IsFragment a v busy).0, next_seq-ne l)

-- An ACK that is heard keeps the agreement: that of the fragment in flight moves the sender on, any
-- earlier one changes nothing.
pub commit-Sync :
    (a : RadioInterface) (i : Incoming) (accepted : List (List ℕ))
    → IsValid a
    → Sync (outgoing a) i accepted
    → Sync (outgoing (commit_ack_locked (value_or i.last no_seq) a)) i accepted
commit-Sync a i accepted v (expecting e c) = elim (Bool-cases a.tx_in_flight) [
  | inl busy ↦
      rw (commit_other (value_or i.last no_seq) a (inr (ack-ne a v busy i.last e))) (expecting e c)
  | inr idle ↦ rw (commit_other (value_or i.last no_seq) a (inl idle)) (expecting e c)
]
commit-Sync a i accepted v (delivered f l c) =
    let follows : next_seq a.next_tx_seq ≡ next_seq a.tx_inflight_seq =
      ap next_seq (sym (flight_IsFragment a v f).0) in
    subst (λ o. Sync (outgoing (commit_ack_locked (value_or o no_seq) a)) i accepted) (sym l)
      (rw (commit_flight a v.sequence f)
        (expecting (subst (λ o. Expects o (next_seq a.next_tx_seq)) (sym l) follows) c))
