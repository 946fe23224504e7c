-- ===== src/Session/Sync.antt =====
-- What a sender and the other node's receiver agree on, in one direction, while the methods of
-- nerfnet/net/radio_interface.cc run on the two sides.
use n_rf24_module.Prelude.{
  ℕ, ◌≡◌, refl, sym, subst, Bool, true, List, [], ◌∷◌, ◌++◌, Option, none, some, arith,
  append_assoc, length,
}
use n_rf24_module.Frame.{MacFrame}
use n_rf24_module.Packet.Keep.{keep_ip, keep_ip-append}
use n_rf24_module.RadioInterface.{RadioInterface}
use n_rf24_module.RadioInterface.Sequence.{next_seq}
use n_rf24_module.RadioInterface.Transmit.{
  consume_front, build_next_data_frame_locked, commit_ack_locked, push_back,
}
use n_rf24_module.RadioInterface.Assembly.{
  write_tunnel, accept_data_frame, consume_data_frame_locked,
}
use n_rf24_module.RadioInterface.Valid.{IsValid, IsFragment}
use n_rf24_module.RadioInterface.Fragment.{flight_IsFragment}

-- The members that the sending methods change.
pub record Outgoing : Type 0 where
  pub queue : List (List ℕ)
  pub flight : Bool
  pub seq : ℕ
  pub payload : List ℕ
  pub next : ℕ

-- The members that the receiving methods change.
pub record Incoming : Type 0 where
  pub last : Option ℕ
  pub buffer : List ℕ
  pub written : List (List ℕ)

abbrev pub outgoing : RadioInterface → Outgoing
outgoing r = record {
  queue = r.read_buffer;
  flight = r.tx_in_flight;
  seq = r.tx_inflight_seq;
  payload = r.tx_inflight_payload;
  next = r.next_tx_seq;
}

abbrev pub incoming : RadioInterface → Incoming
incoming r = record { last = r.last_rx_seq; buffer = r.frame_buffer; written = r.tunnel_written }

-- The packets that are still to come: the buffered front joined to what is queued.
abbrev pub glue : List ℕ → List (List ℕ) → List (List ℕ)
glue buffer [] = []
glue buffer (p ∷ q) = (buffer ++ p) ∷ q

-- With nothing queued, nothing is half received.
abbrev pub IsSettled : List ℕ → List (List ℕ) → Type 0
IsSettled buffer [] = buffer ≡ []
IsSettled buffer (p ∷ q) = Unit {0}

-- What was written and the valid ones of what is still to come make up the valid ones of what was
-- accepted.
abbrev pub Content : List ℕ → List (List ℕ) → List (List ℕ) → List (List ℕ) → Type 0
Content buffer queue written accepted =
    IsSettled buffer queue × (written ++ keep_ip (glue buffer queue) ≡ keep_ip accepted)

-- The receiver takes the sender's next number: it has none yet, or the one before.
abbrev pub Expects : Option ℕ → ℕ → Type 0
Expects none next = Unit {0}
Expects (some last) next = next ≡ next_seq last

pub data Sync (s : Outgoing) (i : Incoming) (accepted : List (List ℕ)) : Type 0 where
  -- the next fragment has not been received
  expecting :
      Expects i.last s.next → Content i.buffer s.queue i.written accepted → Sync s i accepted
  -- the fragment in flight has been received, and its ACK has not arrived
  delivered :
      s.flight ≡ true
      → i.last ≡ some s.seq
      → Content i.buffer (consume_front (length s.payload) s.queue) i.written accepted
      → Sync s i accepted

-- The receiving methods leave the sender's members alone, and the other way round.
pub outgoing-consume :
    (f : MacFrame) (r : RadioInterface) → outgoing (consume_data_frame_locked f r).1 ≡ outgoing r
unfolding consume_data_frame_locked accept_data_frame write_tunnel
outgoing-consume f r = ground arith

pub incoming-build : (r : RadioInterface) → incoming (build_next_data_frame_locked r).2 ≡ incoming r
unfolding build_next_data_frame_locked
incoming-build r = ground arith

pub incoming-commit : (a : ℕ) (r : RadioInterface) → incoming (commit_ack_locked a r) ≡ incoming r
unfolding commit_ack_locked
incoming-commit a r = ground arith

-- A new packet goes to the end.
glue-push :
    (buffer p : List ℕ) (q : List (List ℕ))
    → IsSettled buffer q
    → glue buffer (q ++ p ∷ []) ≡ glue buffer q ++ p ∷ []
glue-push buffer p [] h = rw h
glue-push buffer p (f ∷ q) h = refl

Settled-push : (buffer p : List ℕ) (q : List (List ℕ)) → IsSettled buffer (q ++ p ∷ [])
Settled-push buffer p [] = tt
Settled-push buffer p (f ∷ q) = tt

Content-push :
    (buffer p : List ℕ) (q written accepted : List (List ℕ))
    → Content buffer q written accepted
    → Content buffer (q ++ p ∷ []) written (accepted ++ p ∷ [])
Content-push buffer p q written accepted c = (
  Settled-push buffer p q,
  rw (
    glue-push buffer p q c.0,
    keep_ip-append (glue buffer q) (p ∷ []),
    keep_ip-append accepted (p ∷ []),
    ← append_assoc written (keep_ip (glue buffer q)) (keep_ip (p ∷ [])),
    c.1,
  ),
)

consume_front-push :
    (n : ℕ) (p payload : List ℕ) (left : ℕ) (q : List (List ℕ))
    → IsFragment q payload left
    → consume_front n (q ++ p ∷ []) ≡ consume_front n q ++ p ∷ []
consume_front-push n p payload left [] h = absurd h
consume_front-push n p payload left (f ∷ q) h = ground arith

pub push-Sync :
    (p : List ℕ) (r : RadioInterface) (i : Incoming) (accepted : List (List ℕ))
    → IsValid r
    → Sync (outgoing r) i accepted
    → Sync (outgoing (push_back p r)) i (accepted ++ p ∷ [])
push-Sync p r i accepted v (expecting e c) =
    expecting e (Content-push i.buffer p r.read_buffer i.written accepted c)
push-Sync p r i accepted v (delivered f l c) = delivered f l (
    rw
      (consume_front-push (length r.tx_inflight_payload) p r.tx_inflight_payload
        r.tx_inflight_bytes_left r.read_buffer (flight_IsFragment r v f).1)
      (Content-push i.buffer p _ i.written accepted c))

build_again : (r : RadioInterface) → r.tx_in_flight ≡ true → (build_next_data_frame_locked r).2 ≡ r
unfolding build_next_data_frame_locked
build_again r f = ground arith

pub build-Sync :
    (r : RadioInterface) (i : Incoming) (accepted : List (List ℕ))
    → Sync (outgoing r) i accepted
    → Sync (outgoing (build_next_data_frame_locked r).2) i accepted
unfolding build_next_data_frame_locked
build-Sync r i accepted (expecting e c) = expecting (ground arith) (ground arith)
build-Sync r i accepted (delivered f l c) =
    subst (λ r'. Sync (outgoing r') i accepted) (sym (build_again r f)) (delivered f l c)
