-- ===== src/Session/Agree.antt =====
-- Two nodes that run the methods of nerfnet/net/radio_interface.cc agree in both directions, whatever
-- is lost between them.
use n_rf24_module.Prelude.{
  ℕ, ◌≡◌, inl, inr, refl, sym, subst, Bool, true, false, List, [], ◌∷◌, arith, All, Bool-cases,
  is_empty,
}
use n_rf24_module.Frame.{FrameType}
use n_rf24_module.Frame.RoundTrip.{IsByte}
use n_rf24_module.Packet.{is_valid_ip_packet}
use n_rf24_module.Packet.Keep.{IsIp}
use n_rf24_module.RadioInterface.Transmit.{build_next_data_frame_locked}
use n_rf24_module.RadioInterface.Valid.{
  IsValid, initial-IsValid, push_back-IsValid, build-IsValid, commit_ack-IsValid,
}
use n_rf24_module.RadioInterface.Fragment.{flight_frame, flight_frame-IsSendable, build_cases}
use n_rf24_module.Session.Sync.{
  outgoing, incoming, Sync, expecting, incoming-build, incoming-commit, push-Sync, build-Sync,
}
use n_rf24_module.Session.Commit.{commit-Sync}
use n_rf24_module.Session.Hearing.{
  ActIsValid, heard-receive, receive_data, receive_control, control-IsSendable,
}
use n_rf24_module.Session.{
  Node, fresh_node, tunnel_read, control_frame, Act, reads, sends_data, sends_control, heard, act,
  Event, left, right, step, run,
}

-- Two nodes that agree in both directions.
pub record Agree (m n : Node) : Type 0 where
  pub here_valid : IsValid m.radio
  pub there_valid : IsValid n.radio
  pub forth : Sync (outgoing m.radio) (incoming n.radio) m.accepted
  pub back : Sync (outgoing n.radio) (incoming m.radio) n.accepted

pub flip : {m n : Node} → Agree m n → Agree n m
flip g = record {
  here_valid = g.there_valid;
  there_valid = g.here_valid;
  forth = g.back;
  back = g.forth;
}

abbrev pub EventIsValid : Event → Type 0
EventIsValid (left a) = ActIsValid a
EventIsValid (right a) = ActIsValid a

pub fresh-Agree : Agree fresh_node fresh_node
fresh-Agree = record {
  here_valid = initial-IsValid;
  there_valid = initial-IsValid;
  forth = expecting tt (refl, refl);
  back = expecting tt (refl, refl);
}

ip_some : (p : List ℕ) → IsIp p → is_empty p ≡ false
unfolding is_valid_ip_packet
ip_some p h = ground arith

pub tunnel_read-IsValid :
    (p : List ℕ) (m : Node) → All IsByte p → IsValid m.radio → IsValid (tunnel_read p m).radio
unfolding tunnel_read
tunnel_read-IsValid p m b v = elim (Bool-cases (is_valid_ip_packet p)) [
  | inl ip ↦ rw ip (push_back-IsValid p m.radio (ip_some p ip, b) v)
  | inr bad ↦ rw bad v
]

pub reads-Agree : (p : List ℕ) (m n : Node) → All IsByte p → Agree m n → Agree (tunnel_read p m) n
unfolding tunnel_read
reads-Agree p m n b g = elim (Bool-cases (is_valid_ip_packet p)) [
  | inl ip ↦ rw ip (record {
    here_valid = push_back-IsValid p m.radio (ip_some p ip, b) g.here_valid;
    there_valid = g.there_valid;
    forth = push-Sync p m.radio (incoming n.radio) m.accepted g.here_valid g.forth;
    back = g.back;
  })
  | inr bad ↦ rw bad g
]

-- The sender once its frame is built.
abbrev pub launched : Node → Node
launched m = record m { radio = (build_next_data_frame_locked m.radio).2 }

pub launched-Agree : (m n : Node) → Agree m n → Agree (launched m) n
launched-Agree m n g = record {
  here_valid = build-IsValid m.radio g.here_valid;
  there_valid = g.there_valid;
  forth = build-Sync m.radio (incoming n.radio) m.accepted g.forth;
  back = subst (λ i. Sync (outgoing n.radio) i n.accepted) (sym (incoming-build m.radio)) g.back;
}

-- The other node once it has heard the fragment in flight.
pub hears-Agree :
    (m n : Node)
    → m.radio.tx_in_flight ≡ true
    → Agree m n
    → Agree m (record n { radio = heard (flight_frame m.radio) n.radio })
hears-Agree m n busy g =
    let got =
      receive_data m.radio n.radio n.accepted m.accepted g.here_valid g.there_valid busy g.forth
        g.back in
    rw
      (heard-receive (flight_frame m.radio) n.radio
        (flight_frame-IsSendable m.radio g.here_valid busy))
      (record { here_valid = g.here_valid; there_valid = got.0; forth = got.1; back = got.2 })

sends_data-Agree :
    (arrives : Bool) (m n : Node)
    → Agree m n
    → let (m', n') = act (sends_data arrives) m n in Agree m' n'
unfolding act
sends_data-Agree false m n g = elim (build_cases m.radio) [
  | inl (built, _, _) ↦ rw built (launched-Agree m n g)
  | inr (idle, _, _, _) ↦ rw idle (launched-Agree m n g)
]
sends_data-Agree true m n g = elim (build_cases m.radio) [
  | inl (built, same, busy) ↦
      rw (built, same) (hears-Agree (launched m) n busy (launched-Agree m n g))
  | inr (idle, _, _, _) ↦ rw idle (launched-Agree m n g)
]

-- The other node once it has heard a frame of another type.
pub control_heard-Agree :
    (type : FrameType) (pending arg : ℕ) (m n : Node)
    → ActIsValid (sends_control type pending arg)
    → Agree m n
    → Agree m (record n { radio = heard (control_frame type pending arg m.radio) n.radio })
control_heard-Agree type pending arg m n h g =
    let f = control_frame type pending arg m.radio in
    rw
      (
        heard-receive f n.radio (control-IsSendable type pending arg m.radio h g.here_valid),
        receive_control f n.radio h.0,
      )
      (record {
        here_valid = g.here_valid;
        there_valid = commit_ack-IsValid f.ack n.radio g.there_valid;
        forth =
            subst (λ i. Sync (outgoing m.radio) i m.accepted) (sym (incoming-commit f.ack n.radio))
              g.forth;
        back = commit-Sync n.radio (incoming m.radio) n.accepted g.there_valid g.back;
      })

act-Agree :
    (a : Act) (m n : Node) → ActIsValid a → Agree m n → let (m', n') = act a m n in Agree m' n'
unfolding act
act-Agree (reads p) m n h g = reads-Agree p m n h g
act-Agree (sends_data arrives) m n h g = sends_data-Agree arrives m n g
act-Agree (sends_control type pending arg) m n h g = control_heard-Agree type pending arg m n h g

pub step-Agree :
    (e : Event) (m n : Node)
    → EventIsValid e
    → Agree m n
    → let (m', n') = step e (m, n) in Agree m' n'
unfolding step
step-Agree (left a) m n h g = act-Agree a m n h g
step-Agree (right a) m n h g = flip (act-Agree a n m h (flip g))

pub run-Agree :
    (es : List Event) (m n : Node)
    → All EventIsValid es
    → Agree m n
    → let (m', n') = run es (m, n) in Agree m' n'
unfolding run
run-Agree [] m n h g = g
run-Agree (e ∷ es) m n h g =
    let (m', n') = step e (m, n) in run-Agree es m' n' h.1 (step-Agree e m n h.0 g)
