-- ===== src/Loops/Heard.antt =====
-- What the peer's handling of a packet in Run (nerfnet/net/secondary_radio_interface.cc) comes to:
-- the state that it leaves and the frame that it sends.
use n_rf24_module.Prelude.{
  ℕ, zero, suc, ◌+◌, ltb, leb, u64, length, ◌≡◌, ◌∙◌, ◌⊎◌, inl, inr, refl, sym, ap, subst, Bool,
  true, false, not, List, [], Option, none, some, arith, if◌then◌else◌, if-preserves,
}
use n_rf24_module.Frame.{MacFrame, max_packet_size}
use n_rf24_module.Driver.{RequestResult, Device, Clock, tx_standby_timeout_us}
use n_rf24_module.Driver.Send.{recover_after_transmit_failure, stand_by_loop, send}
use n_rf24_module.Coordinator.Exchange.{is_reset, reset_frame}
use n_rf24_module.Peer.{Peer}
use n_rf24_module.Peer.Request.{apply_coordinator_request, choose_peer_response}
use n_rf24_module.Peer.Loop.{peer_cleared}
use n_rf24_module.Loops.Bare.{apply_request-Like, choose_response-Like, bare_peer, SamePeer}

-- What holds of an outcome, where there is one.
abbrev pub After {ℓ κ} : {A : Type ℓ} → (A → Type κ) → Option A → Type κ
After P none = Unit
After P (some x) = P x

pub After-map {ℓ κ μ} :
    {A : Type ℓ} (P : A → Type κ) (Q : A → Type μ) (o : Option A)
    → ((x : A) → P x → Q x)
    → After P o
    → After Q o
After-map P Q none f h = tt
After-map P Q (some x) f h = f x h

-- What is relied on of the peer's radio: its clock goes on, and `write` is the only call that sends.
pub record Antenna {V : Type 0} (dev : Device V) : Type 0 where
  pub clock : Clock dev
  pub sent : V → Option (List ℕ)
  pub write_sends :
      (packet : List ℕ) (v : V)
      → let v1 = (dev.write packet v).1 in (sent v1 ≡ sent v) ⊎ (sent v1 ≡ some packet)
  pub stop_listening_sends : (v : V) → sent (dev.stop_listening v) ≡ sent v
  pub flush_tx_sends : (v : V) → sent (dev.flush_tx v) ≡ sent v
  pub tx_stand_by_sends : (v : V) → sent (dev.tx_stand_by v).1 ≡ sent v
  pub time_now_us_sends : (v : V) → sent (dev.time_now_us v).1 ≡ sent v
  pub sleep_us_sends : (d : ℕ) (v : V) → sent (dev.sleep_us d v) ≡ sent v

-- The frame that the peer answers, and its state.
abbrev pub served : MacFrame → Peer → Option MacFrame × Peer
served rx p =
    if is_reset rx.type
    then (some reset_frame, peer_cleared p)
    else (let (applied, p1) = apply_coordinator_request rx p in
        let (chosen, tx, p2) = choose_peer_response [] p1 in
        if applied then (if chosen then (some tx, p2) else (none, p2)) else (none, p1))

abbrev SameAnswer : Option MacFrame × Peer → Option MacFrame × Peer → Type 0
SameAnswer a b = (a.0 ≡ b.0) × SamePeer a.1 b.1

if-same :
    (b b' : Bool) (x x' y y' : Option MacFrame × Peer)
    → b ≡ b'
    → SameAnswer x x'
    → SameAnswer y y'
    → SameAnswer (if b then x else y) (if b' then x' else y')
if-same true true x x' y y' e g h = g
if-same false false x x' y y' e g h = h
if-same true false x x' y y' e g h = ground arith
if-same false true x x' y y' e g h = ground arith

pub served-Like :
    (rx : MacFrame) (p q : Peer) → SamePeer p q → SameAnswer (served rx p) (served rx q)
served-Like rx p q h =
    let (a, e) = apply_request-Like p q h rx in
    let p1 = (apply_coordinator_request rx p).1 in
    let q1 = (apply_coordinator_request rx q).1 in
    let (b, g, k) = choose_response-Like p1 q1 e in
    let (_, f, p2) = choose_peer_response [] p1 in
    let (_, f', q2) = choose_peer_response [] q1 in
    if-same (is_reset rx.type) (is_reset rx.type) (some reset_frame, peer_cleared p)
      (some reset_frame, peer_cleared q) _ _ refl (refl, ap (λ o. bare_peer (peer_cleared o)) h)
      (if-same _ _ _ _ (none, p1) (none, q1) a
        (if-same _ _ (some f, p2) (some f', q2) (none, p2) (none, q2) b (ap (λ o. some o) g, k)
          (refl, k))
        (refl, e))

module _ (rx : MacFrame) (p : Peer) where
  pub served_reset : is_reset rx.type ≡ true → served rx p ≡ (some reset_frame, peer_cleared p)
  served_reset a = rw a refl

  pub served_refused :
      is_reset rx.type ≡ false
      → not (apply_coordinator_request rx p).0 ≡ true
      → served rx p ≡ (none, (apply_coordinator_request rx p).1)
  served_refused a b = ground (arith, a, b)

  pub served_nothing :
      is_reset rx.type ≡ false
      → not (apply_coordinator_request rx p).0 ≡ false
      → let (chosen, tx, p2) = choose_peer_response [] (apply_coordinator_request rx p).1 in
        not chosen ≡ true → served rx p ≡ (none, p2)
  served_nothing a b c = ground (arith, a, b, c)

  pub served_request :
      is_reset rx.type ≡ false
      → not (apply_coordinator_request rx p).0 ≡ false
      → let (chosen, tx, p2) = choose_peer_response [] (apply_coordinator_request rx p).1 in
        not chosen ≡ false → served rx p ≡ (some tx, p2)
  served_request a b c = ground (arith, a, b, c)

module _ {V : Type 0} (dev : Device V) (antenna : Antenna dev) where
  open antenna use {
    sent, write_sends, stop_listening_sends, flush_tx_sends, tx_stand_by_sends, time_now_us_sends,
    sleep_us_sends,
  }

  -- Nothing but `packet` has been sent, and maybe not that.
  abbrev pub Sends : List ℕ → V → Type 0
  Sends packet v = (sent v ≡ none) ⊎ (sent v ≡ some packet)

  pub stays-Sends :
      (packet : List ℕ) (v v1 : V) → sent v1 ≡ sent v → Sends packet v → Sends packet v1
  stays-Sends packet v v1 e h = subst (λ o. (o ≡ none) ⊎ (o ≡ some packet)) (sym e) h

  abbrev pub SendsAfter : List ℕ → RequestResult × V → Type 0
  SendsAfter packet out = Sends packet out.1

  recover-Sends :
      (packet : List ℕ) (v : V)
      → Sends packet v
      → Sends packet (recover_after_transmit_failure dev v)
  unfolding recover_after_transmit_failure
  recover-Sends packet v h = rw (sleep_us_sends 200 (dev.flush_tx v), flush_tx_sends v) h

  stand_by-Sends :
      (packet : List ℕ) (fuel deadline : ℕ) (v : V)
      → Sends packet v
      → After (SendsAfter packet) (stand_by_loop dev fuel deadline v)
  unfolding stand_by_loop
  stand_by-Sends packet zero deadline v h = tt
  stand_by-Sends packet (suc fuel) deadline v h =
      let v1 = (dev.tx_stand_by v).1 in
      let (now, v2) = dev.time_now_us v1 in
      let h1 = stays-Sends packet v v1 (tx_stand_by_sends v) h in
      let h2 = stays-Sends packet v1 v2 (time_now_us_sends v1) h1 in
      let v3 = dev.sleep_us 50 v2 in
      let again =
        stand_by-Sends packet fuel deadline v3
          (stays-Sends packet v2 v3 (sleep_us_sends 50 v2) h2) in
      let P : Option (RequestResult × V) → Type 0 = λ o. After (SendsAfter packet) o in
      if-preserves P (dev.tx_stand_by v).0 (λ ready. h1)
        (λ not_ready.
          if-preserves P (leb deadline now) (λ late. recover-Sends packet v2 h2) (λ early. again))

  pub send-Sends :
      (packet : List ℕ) (fuel : ℕ) (v : V)
      → sent v ≡ none
      → After (SendsAfter packet) (send dev fuel packet v)
  unfolding send
  send-Sends packet fuel v h =
      let v0 = dev.stop_listening v in
      let silent : sent v0 ≡ none = stop_listening_sends v ∙ h in
      let (written, v1) = dev.write packet v0 in
      let out : Sends packet v1 = elim (write_sends packet v0) [
        | inl kept ↦ inl (kept ∙ silent)
        | inr put ↦ inr put
      ] in
      let (now, v2) = dev.time_now_us v1 in
      let P : Option (RequestResult × V) → Type 0 = λ o. After (SendsAfter packet) o in
      if-preserves P (ltb max_packet_size (length packet)) (λ large. inl silent)
        (λ fits.
          if-preserves P (not written) (λ unwritten. recover-Sends packet v1 out)
            (λ done.
              stand_by-Sends packet fuel (u64 (now + tx_standby_timeout_us)) v2
                (stays-Sends packet v1 v2 (time_now_us_sends v1) out)))
