-- ===== src/Coordinator/Valid.antt =====
-- The invariant of `class PrimaryRadioInterface` (nerfnet/net/primary_radio_interface.h).
use n_rf24_module.Prelude.{
  ℕ, ◌+◌, ◌≤◌, ◌<◌, ◌≡◌, ◌⊎◌, inl, refl, Bool, true, false, List, [], ◌∷◌, ◌++◌, arith, All,
  is_empty,
}
use n_rf24_module.RadioInterface.{RadioInterface}
use n_rf24_module.RadioInterface.Transmit.{push_back}
use n_rf24_module.RadioInterface.Valid
use n_rf24_module.RadioInterface.Valid.{IsQueued, push_back-IsValid, initial-IsValid}
use n_rf24_module.Coordinator.{
  CoordinatorState, reset_sync, Counters, Coordinator, new_coordinator, arrive,
  initial_disconnect_backoff_us, max_disconnect_backoff_us,
}
use n_rf24_module.Coordinator.Choose.{local_has_data}

-- The node is in ResetSync exactly while a reset is required.
abbrev pub StateMatches : CoordinatorState → Bool → Type 0
StateMatches reset_sync required = required ≡ true
StateMatches _ required = required ≡ false

-- The failure streaks stay below the thresholds until the node disconnects, and then near them.
abbrev pub StreaksFit : Bool → ℕ → ℕ → Type 0
StreaksFit false sends timeouts = (sends < 5) × (timeouts < 7) × (sends + timeouts < 8)
StreaksFit true sends timeouts = (sends ≤ 5) × (timeouts ≤ 7) × (sends + timeouts ≤ 9)

pub record IsValid (c : Coordinator) : Type 0 where
  pub link : Valid.IsValid c.radio
  pub matches : StateMatches c.state c.connection_reset_required
  pub required : (c.disconnected ≡ false) ⊎ (c.connection_reset_required ≡ true)
  pub backoff :
      (initial_disconnect_backoff_us ≤ c.disconnect_backoff_us)
      × (c.disconnect_backoff_us ≤ max_disconnect_backoff_us)
  pub streaks : StreaksFit c.disconnected c.send_fail_streak c.timeout_fail_streak
  pub burst : c.consecutive_local_data_frames < 256

pub new_coordinator-IsValid : (interval : ℕ) → IsValid (new_coordinator interval)
unfolding new_coordinator
new_coordinator-IsValid interval = record {
  link = initial-IsValid;
  matches = refl;
  required = inl refl;
  backoff = omega arith;
  streaks = omega arith;
  burst = omega arith;
}

pub arrive-IsValid :
    (ps : List (List ℕ)) (r : RadioInterface)
    → All IsQueued ps
    → Valid.IsValid r
    → Valid.IsValid (arrive ps r)
arrive-IsValid [] r h v = v
arrive-IsValid (p ∷ ps) r h v = arrive-IsValid ps (push_back p r) h.1 (push_back-IsValid p r h.0 v)

is_empty-push {ℓ} : {A : Type ℓ} (xs : List A) (x : A) → is_empty (xs ++ x ∷ []) ≡ false
is_empty-push [] x = refl
is_empty-push (y ∷ xs) x = refl

-- The tunnel thread takes nothing away.
pub arrive-local_has_data :
    (ps : List (List ℕ)) (r : RadioInterface)
    → local_has_data r ≡ true
    → local_has_data (arrive ps r) ≡ true
arrive-local_has_data [] r h = h
arrive-local_has_data (p ∷ ps) r h =
    arrive-local_has_data ps (push_back p r) (ground (arith, is_empty-push r.read_buffer p))

-- Counters and the last frame's kind do not matter, and the link may be any valid one.
pub with_link :
    (c : Coordinator) (r : RadioInterface) (k : Counters) (was_data : Bool)
    → Valid.IsValid r
    → IsValid c
    → IsValid (record c { radio = r; counters = k; last_tx_was_data = was_data })
with_link c r k was_data l v = record {
  link = l;
  matches = v.matches;
  required = v.required;
  backoff = v.backoff;
  streaks = v.streaks;
  burst = v.burst;
}
