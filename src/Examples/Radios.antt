-- ===== src/Examples/Radios.antt =====
-- Two radios in reach of each other, with the peer's program behind the second one: every packet is
-- handled as it is written, and its answer waits to be read (nerfnet/net/primary_radio_interface.cc
-- and secondary_radio_interface.cc).
mod Reliable
use n_rf24_module.Prelude.{
  Option-cases, u64, leb, Returns, ℕ, suc, ◌≤◌, ◌++◌, ◌+◌, ◌<◌, ◌≡◌, inl, inr, refl, sym, ap, Bool,
  true, false, has_value, ◌⊎◌, not, ◌&&◌, ◌||◌, List, [], ◌∷◌, Option, none, some, arith, All,
  length, ◌==◌, ltb, replicate, length-replicate, All-replicate, if◌then◌else◌, if-preserves,
}
use n_rf24_module.Frame.{FrameType, MacFrame, empty_frame}
use n_rf24_module.Frame.Codec.{encode_mac_frame, decode_mac_frame, from_byte, to_byte}
use n_rf24_module.Packet.{is_valid_ip_packet}
use n_rf24_module.RadioInterface.Sequence.{next_seq}
use n_rf24_module.RadioInterface.Transmit.{build_next_data_frame_locked, commit_ack_locked}
use n_rf24_module.RadioInterface.Assembly.{
  consume_data_frame_locked, accept_data_frame, write_tunnel,
}
use n_rf24_module.Driver.{RequestResult, Device, Clock, Reads, LineWait, LineRead}
use n_rf24_module.Driver.Send.{recover_after_transmit_failure, stand_by_loop, send}
use n_rf24_module.Driver.Receive.{poll_loop, wait_for_rx_ready, receive}
use n_rf24_module.Coordinator.{Coordinator, new_coordinator}
use n_rf24_module.Coordinator.Choose.{choose_in, choose_coordinator_tx_frame}
use n_rf24_module.Coordinator.Apply.{apply_type, apply_peer_response}
use n_rf24_module.Coordinator.Failure.{count_failure, handle_transaction_failure}
use n_rf24_module.Coordinator.Exchange.{
  is_reset, reset_frame, finish_exchange, finish_reset, connection_reset, answer_exchange, transmit,
  perform_exchange,
}
use n_rf24_module.Coordinator.Loop.{
  retry_connection, require_connection, settle, exchange_and_settle, run_iteration,
}
use n_rf24_module.Peer.{Peer, new_peer}
use n_rf24_module.Peer.Request.{
  apply_request_type, apply_coordinator_request, choose_peer_response, record_rx, record_tx,
}
use n_rf24_module.Peer.Loop.{handle_reset, respond, serve, handle_packet}
use n_rf24_module.Session.{tunnel_read}
use n_rf24_module.System.{fresh_system, system_step, system_run}
use n_rf24_module.Session.Progress.{fragments}
use n_rf24_module.System.Drain.{work}
use n_rf24_module.System.Reset.{start_system}
use n_rf24_module.Loops.Turns.{take_packet}
use n_rf24_module.Loops.Heard.{Antenna}
use n_rf24_module.Loops.Medium.{Delivers, Medium}
use n_rf24_module.Loops.Speaks.{Loud}
use n_rf24_module.Loops.Lossless.{Lossless}
use n_rf24_module.Loops.Runs.{coordinator_gets, peer_gets, iterates, Happening, run_loops}

abbrev all_bytes : List ℕ → Bool
all_bytes [] = true
all_bytes (b ∷ bs) = ltb b 256 && all_bytes bs

abbrev fits : ℕ → List ℕ → Bool
fits n bs = (length bs == n) && all_bytes bs

-- What is on the air: 32 bytes.
abbrev Packet : Type 0
Packet = (bs : List ℕ) × (fits 32 bs ≡ true)

abbrev bytes_of : Option Packet → Option (List ℕ)
bytes_of none = none
bytes_of (some (bs, e)) = some bs

-- The peer's radio: what it has sent last, and its clock. It sends packets of 32 bytes only.
record Sender : Type 0 where
  last_sent : Option Packet
  time : ℕ

abbrev decided : (b : Bool) → (b ≡ true) ⊎ (b ≡ false)
decided true = inl refl
decided false = inr refl

abbrev put :
    (packet : List ℕ) → (fits 32 packet ≡ true) ⊎ (fits 32 packet ≡ false) → Sender → Sender
put packet (inl e) v = record v { last_sent = some (packet, e) }
put packet (inr e) v = v

abbrev sender : Device Sender
sender = record {
  start_listening = λ v. v;
  stop_listening = λ v. v;
  flush_rx = λ v. v;
  flush_tx = λ v. v;
  write = λ packet v. (true, put packet (decided (fits 32 packet)) v);
  tx_stand_by = λ v. (true, v);
  available = λ v. (false, v);
  read = λ n v. (replicate n 0, v);
  time_now_us = λ v. (v.time, v);
  sleep_us = λ d v. record v { time = v.time + d };
  has_irq_line = false;
  line_event_wait = λ t v. (LineWait.no_event, v);
  line_event_read = λ v. (LineRead.event, v);
}

put-sends :
    (packet : List ℕ) (b : (fits 32 packet ≡ true) ⊎ (fits 32 packet ≡ false)) (v : Sender)
    → let v1 = put packet b v in
      (bytes_of v1.last_sent ≡ bytes_of v.last_sent) ⊎ (bytes_of v1.last_sent ≡ some packet)
put-sends packet (inl e) v = inr refl
put-sends packet (inr e) v = inl refl

sender-Clock : Clock sender
sender-Clock = record {
  clock = λ v. v.time;
  now_is = λ v. refl;
  now_later = λ v. omega arith;
  stand_by_later = λ v. omega arith;
  available_later = λ v. omega arith;
  sleep_later = λ d v. omega arith;
}

sender-Antenna : Antenna sender
sender-Antenna = record {
  clock = sender-Clock;
  sent = λ v. bytes_of v.last_sent;
  write_sends = λ packet v. put-sends packet (decided (fits 32 packet)) v;
  stop_listening_sends = λ v. refl;
  flush_tx_sends = λ v. refl;
  tx_stand_by_sends = λ v. refl;
  time_now_us_sends = λ v. refl;
  sleep_us_sends = λ d v. refl;
}

-- The coordinator's outside; `since` is since when the radio listens, `wrote` when it was given the
-- last packet.
record World : Type 0 where
  peer : Peer
  wrote : ℕ
  since : Option ℕ
  answer : Option Packet
  now : ℕ

abbrev handled : List ℕ → World → Option (Peer × Sender)
handled packet w =
    handle_packet sender 401 [] packet w.peer (record { last_sent = none; time = w.now })

-- An answer can be read from 300 microseconds after the radio has begun to listen, and at the latest
-- when the coordinator stops waiting.
abbrev comes : World → Bool
comes w = elim w.since [
  | none ↦ false
  | some t ↦ has_value w.answer && (leb (t + 300) w.now || ltb (u64 (t + 100000)) w.now)
]

-- A packet takes 100 microseconds to be sent, and at most as long as Send waits.
abbrev is_sent : World → Bool
is_sent w = leb (w.wrote + 100) w.now || leb (u64 (w.wrote + 20000)) w.now

abbrev heard_until : Option ℕ → Option Packet → Option Packet
heard_until none answer = none
heard_until (some t) answer = answer

abbrev deliver : World → Option (Peer × Sender) → World
deliver w none = record w { answer = none }
deliver w (some (p, v)) = record w { peer = p; answer = v.last_sent }

-- What is read.
abbrev fill : ℕ → Option Packet → List ℕ
fill n none = replicate n 0
fill n (some (bs, e)) = if fits n bs then bs else replicate n 0

abbrev linked : Device World
linked = record {
  start_listening = λ w. record w { since = some w.now };
  stop_listening = λ w. record w { since = none; answer = heard_until w.since w.answer };
  flush_rx = λ w. record w { answer = none };
  flush_tx = λ w. w;
  write = λ packet w. (true, deliver (record w { wrote = w.now }) (handled packet w));
  tx_stand_by = λ w. (is_sent w, w);
  available = λ w. (comes w, w);
  read = λ n w. (fill n w.answer, record w { answer = none });
  time_now_us = λ w. (w.now, w);
  sleep_us = λ d w. record w { now = w.now + d };
  has_irq_line = false;
  line_event_wait = λ t w. (LineWait.no_event, w);
  line_event_read = λ w. (LineRead.event, w);
}

deliver-since : (w : World) (o : Option (Peer × Sender)) → (deliver w o).since ≡ w.since
deliver-since w none = refl
deliver-since w (some (p, v)) = refl

deliver-Delivers :
    (packet : List ℕ) (w : World) (o : Option (Peer × Sender))
    → handled packet w ≡ o
    → let w1 = deliver (record w { wrote = w.now }) o in
      Delivers sender sender-Antenna packet w.peer w1.peer (bytes_of w1.answer)
unfolding sender-Antenna
deliver-Delivers packet w none e = inl (refl, refl)
deliver-Delivers packet w (some (p, v)) e =
    inr (401, record { last_sent = none; time = w.now }, omega arith, refl, rw e (refl, inr refl))

fill-here : (o : Option Packet) → has_value o ≡ true → bytes_of o ≡ some (fill 32 o)
fill-here none h = ground arith
fill-here (some (bs, e)) h = ap (λ b. some (if b then bs else replicate 32 0)) (sym e)

comes-here : (w : World) → comes w ≡ true → bytes_of w.answer ≡ some (fill 32 w.answer)
comes-here w h = elim (Option-cases w.since) [
  | inl deaf ↦ ground arith
  | inr (t, e) ↦ fill-here w.answer (ground arith)
]

late-none :
    (w : World) (start_us : ℕ)
    → w.since ≡ some start_us
    → comes w ≡ false
    → u64 (start_us + 100000) < w.now
    → bytes_of w.answer ≡ none
late-none w start_us e h late = ground arith

heard_until-passes :
    (t : Option ℕ) (answer : Option Packet)
    → (bytes_of (heard_until t answer) ≡ bytes_of answer) ⊎ (bytes_of (heard_until t answer) ≡ none)
heard_until-passes none answer = inr refl
heard_until-passes (some t) answer = inl refl

linked-Medium : Medium linked sender sender-Antenna
linked-Medium = record {
  peer_of = λ w. w.peer;
  on_air = λ w. bytes_of w.answer;
  listens = λ w. w.since;
  let_read =
      λ packet w. record w { peer = record (w.peer) { radio = take_packet packet w.peer.radio } };
  let_read_is = λ packet w. refl;
  let_read_on_air = λ packet w. refl;
  let_read_listens = λ packet w. refl;
  write_listens = λ packet w. deliver-since (record w { wrote = w.now }) (handled packet w);
  write_delivers = λ packet w silent. deliver-Delivers packet w (handled packet w) refl;
  available_is = λ w h. comes-here w h;
  read_takes = λ w h. refl;
  is_prompt = λ w start_us e h late. late-none w start_us e h late;
  flush_rx_empties = λ w. refl;
  read_peer = λ n w. refl;
  flush_rx_peer = λ w. refl;
  start_listening_passes = λ w. (refl, inl refl);
  start_listening_since = λ w. refl;
  stop_listening_passes = λ w. (refl, heard_until-passes w.since w.answer);
  stop_listening_since = λ w. refl;
  unheard = λ w deaf. rw deaf refl;
  flush_tx_stays = λ w. ((refl, inl refl), refl);
  tx_stand_by_stays = λ w. ((refl, inl refl), refl);
  available_stays = λ w. ((refl, inl refl), refl);
  time_now_us_stays = λ w. ((refl, inl refl), refl);
  sleep_us_stays = λ d w. ((refl, inl refl), refl);
}

linked-Clock : Clock linked
linked-Clock = record {
  clock = λ w. w.now;
  now_is = λ w. refl;
  now_later = λ w. omega arith;
  stand_by_later = λ w. omega arith;
  available_later = λ w. omega arith;
  sleep_later = λ d w. omega arith;
}

all_bytes-All : (bs : List ℕ) → all_bytes bs ≡ true → All (λ b. b < 256) bs
all_bytes-All [] h = tt
all_bytes-All (b ∷ bs) h = (ground arith, all_bytes-All bs (ground arith))

fill_size : (n : ℕ) (o : Option Packet) → length (fill n o) ≡ n
fill_size n none = length-replicate {A = ℕ} n 0
fill_size n (some (bs, e)) =
    if-preserves (λ o. length o ≡ n) (fits n bs) (λ whole. ground arith)
      (λ odd. length-replicate {A = ℕ} n 0)

fill_bytes : (n : ℕ) (o : Option Packet) → All (λ b. b < 256) (fill n o)
fill_bytes n none = All-replicate (λ b. b < 256) n 0 (omega arith)
fill_bytes n (some (bs, e)) =
    if-preserves (All (λ b. b < 256)) (fits n bs) (λ whole. all_bytes-All bs (ground arith))
      (λ odd. All-replicate (λ b. b < 256) n 0 (omega arith))

linked-Reads : Reads linked
linked-Reads = record {
  read_size = λ n w. fill_size n w.answer;
  read_bytes = λ n w. fill_bytes n w.answer;
}
