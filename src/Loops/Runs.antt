-- ===== src/Loops/Runs.antt =====
-- Run of both programs (nerfnet/net/primary_radio_interface.cc and secondary_radio_interface.cc),
-- between which the tunnel threads read packets.
use n_rf24_module.Prelude.{ℕ, ◌≡◌, refl, List, [], ◌∷◌, Option, none, some, All}
use n_rf24_module.Frame.RoundTrip.{IsByte}
use n_rf24_module.Driver.{Device}
use n_rf24_module.Coordinator.{Coordinator}
use n_rf24_module.Coordinator.Loop.{run_iteration}
use n_rf24_module.Loops.Turns.{take_packet}
use n_rf24_module.Loops.Heard.{Antenna}
use n_rf24_module.Loops.Medium.{Medium}

-- What happens next: a tunnel thread reads a packet, or the coordinator's loop goes round once, in
-- which the peer's may.
pub data Happening : Type 0 where
  coordinator_gets peer_gets : List ℕ → Happening
  iterates : Happening

-- The packets that are read.
abbrev pub coordinator_got : List Happening → List (List ℕ)
coordinator_got [] = []
coordinator_got (coordinator_gets packet ∷ hs) = packet ∷ coordinator_got hs
coordinator_got (peer_gets packet ∷ hs) = coordinator_got hs
coordinator_got (iterates ∷ hs) = coordinator_got hs

abbrev pub peer_got : List Happening → List (List ℕ)
peer_got [] = []
peer_got (coordinator_gets packet ∷ hs) = peer_got hs
peer_got (peer_gets packet ∷ hs) = packet ∷ peer_got hs
peer_got (iterates ∷ hs) = peer_got hs

-- The tunnel threads read bytes.
abbrev pub HappeningIsBytes : Happening → Type 0
HappeningIsBytes (coordinator_gets packet) = All IsByte packet
HappeningIsBytes (peer_gets packet) = All IsByte packet
HappeningIsBytes iterates = Unit {0}

module _ {W : Type 0} {V : Type 0} (dev : Device W) (peer_dev : Device V)
    (antenna : Antenna peer_dev) (medium : Medium dev peer_dev antenna) where
  open medium use {peer_of, let_read, let_read_is}

  -- Both loops, one thing after the other.
  unfoldable pub run_loops : ℕ → List Happening → Coordinator → W → Option (Coordinator × W)
  run_loops fuel [] c w = some (c, w)
  run_loops fuel (coordinator_gets packet ∷ hs) c w =
      run_loops fuel hs (record c { radio = take_packet packet c.radio }) w
  run_loops fuel (peer_gets packet ∷ hs) c w = run_loops fuel hs c (let_read packet w)
  run_loops fuel (iterates ∷ hs) c w = elim (run_iteration dev fuel [] [] c w) [
    | none ↦ none
    | some (c1, w1) ↦ run_loops fuel hs c1 w1
  ]

  pub loops_iterate :
      (fuel : ℕ) (hs : List Happening) (c c1 : Coordinator) (w w1 : W)
      → run_iteration dev fuel [] [] c w ≡ some (c1, w1)
      → run_loops fuel (iterates ∷ hs) c w ≡ run_loops fuel hs c1 w1
  unfolding run_loops
  loops_iterate fuel hs c c1 w w1 e = rw (e, run_loops) refl
