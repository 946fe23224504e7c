-- ===== src/System/Written.antt =====
-- Which packets the coordinator and the peer (nerfnet/net/primary_radio_interface.cc and
-- secondary_radio_interface.cc) may write to their tunnels, however often the connection is lost.
use n_rf24_module.Prelude.{
  ℕ, zero, suc, ◌+◌, ◌≡◌, ◌∙◌, inl, inr, refl, sym, ap, List, [], ◌∷◌, arith, All, Any, Any-map,
  drop,
}
use n_rf24_module.Packet.Keep.{IsIp}
use n_rf24_module.Coordinator.{new_coordinator}
use n_rf24_module.System.{coordinator_reads, peer_reads, exchanges}
use n_rf24_module.System.Reset.{start_system, Turn, event, gives_up, history}
use n_rf24_module.System.Reconnect.{TurnIsBytes, start-IsSound, history-IsSound}
use n_rf24_module.System.Holds.{Holds, TurnHolds, history-Holds}

drop_nil : (n : ℕ) → drop {A = ℕ} n [] ≡ []
drop_nil zero = refl
drop_nil (suc n) = refl

drop-drop : (m n : ℕ) (xs : List ℕ) → drop m (drop n xs) ≡ drop (n + m) xs
drop-drop m zero xs = let e : m ≡ 0 + m = omega arith in ap (λ k. drop k xs) e
drop-drop m (suc n) [] = drop_nil m ∙ sym (drop_nil (suc n + m))
drop-drop m (suc n) (x ∷ xs) =
    let e : suc (n + m) ≡ suc n + m = omega arith in drop-drop m n xs ∙ ap (λ k. drop k (x ∷ xs)) e

-- What is left of one of the packets when some bytes at its front are taken off, maybe none.
abbrev pub IsRest : List (List ℕ) → List ℕ → Type 0
IsRest packets p = Any (λ packet. (n : ℕ) × (p ≡ drop n packet)) packets

IsRest-drop :
    (packets : List (List ℕ)) (n : ℕ) (p : List ℕ) → IsRest packets p → IsRest packets (drop n p)
IsRest-drop packets n p h =
    Any-map (λ packet (k, e). (k + n, ap (drop n) e ∙ drop-drop n k packet)) packets h

All-IsRest-wider :
    (packet : List ℕ) (packets ps : List (List ℕ))
    → All (IsRest packets) ps
    → All (IsRest (packet ∷ packets)) ps
All-IsRest-wider packet packets [] h = tt
All-IsRest-wider packet packets (p ∷ ps) h = (inr h.0, All-IsRest-wider packet packets ps h.1)

All-IsRest : (packets : List (List ℕ)) → All (IsRest packets) packets
All-IsRest [] = tt
All-IsRest (p ∷ ps) = (inl (0, refl), All-IsRest-wider p ps ps (All-IsRest ps))

-- The packets that the tunnel threads read in a history.
abbrev pub coordinator_takes : List Turn → List (List ℕ)
coordinator_takes [] = []
coordinator_takes (event (coordinator_reads packet) ∷ ts) = packet ∷ coordinator_takes ts
coordinator_takes (event (peer_reads packet) ∷ ts) = coordinator_takes ts
coordinator_takes (event (exchanges air) ∷ ts) = coordinator_takes ts
coordinator_takes (gives_up ∷ ts) = coordinator_takes ts

abbrev pub peer_takes : List Turn → List (List ℕ)
peer_takes [] = []
peer_takes (event (coordinator_reads packet) ∷ ts) = peer_takes ts
peer_takes (event (peer_reads packet) ∷ ts) = packet ∷ peer_takes ts
peer_takes (event (exchanges air) ∷ ts) = peer_takes ts
peer_takes (gives_up ∷ ts) = peer_takes ts

module _ (P Q : List ℕ → Type 0) (rest_P : (n : ℕ) (p : List ℕ) → P p → P (drop n p))
    (rest_Q : (n : ℕ) (p : List ℕ) → Q p → Q (drop n p)) where
  takes-TurnHolds :
      (ts : List Turn)
      → All P (coordinator_takes ts)
      → All Q (peer_takes ts)
      → All (TurnHolds P Q rest_P rest_Q) ts
  takes-TurnHolds [] h k = tt
  takes-TurnHolds (event (coordinator_reads p) ∷ ts) h k = (h.0, takes-TurnHolds ts h.1 k)
  takes-TurnHolds (event (peer_reads p) ∷ ts) h k = (k.0, takes-TurnHolds ts h k.1)
  takes-TurnHolds (event (exchanges air) ∷ ts) h k = (tt, takes-TurnHolds ts h k)
  takes-TurnHolds (gives_up ∷ ts) h k = (tt, takes-TurnHolds ts h k)

  start-Holds : Holds P Q rest_P rest_Q start_system
  unfolding new_coordinator
  start-Holds = record {
    queues = (tt, tt);
    there_written = tt;
    here_written = tt;
    here_accepted = tt;
    there_accepted = tt;
  }

-- Whatever is read, lost, given up and reset, from the start of both programs: each packet that a node
-- has written to its tunnel is a valid IP packet, and a packet that the other node has read from its
-- tunnel, or what is left of one when some bytes at its front are taken off.
pub history-Writes :
    (ts : List Turn)
    → All TurnIsBytes ts
    → let s = history ts start_system in
      All IsIp s.peer.radio.tunnel_written
      × All (IsRest (coordinator_takes ts)) s.peer.radio.tunnel_written
      × All IsIp s.coordinator.radio.tunnel_written
      × All (IsRest (peer_takes ts)) s.coordinator.radio.tunnel_written
history-Writes ts h =
    let P = IsRest (coordinator_takes ts) in
    let Q = IsRest (peer_takes ts) in
    let rest_P = IsRest-drop (coordinator_takes ts) in
    let rest_Q = IsRest-drop (peer_takes ts) in
    let sound = history-IsSound ts start_system h start-IsSound in
    let fits =
      takes-TurnHolds P Q rest_P rest_Q ts (All-IsRest (coordinator_takes ts))
        (All-IsRest (peer_takes ts)) in
    let holds =
      history-Holds P Q rest_P rest_Q ts start_system h fits start-IsSound
        (start-Holds P Q rest_P rest_Q) in
    (sound.there_written, holds.there_written, sound.here_written, holds.here_written)
